-- ===== src/Deps/Clients.antt =====
-- The clients over HTTP of deps/internal/client/: http_modules.go, http_sources.go and
-- http_dependencies.go. The HTTP client and the conversions from and to JSON are parameters.
pub mod Queries
use depscloud.Base.{◌>>=◌, Result, In, list_eq, nat_eq, option_eq, ◌++◌, ◌∷◌}
use depscloud.Base.Bytes.{Bytes, bytes}
use depscloud.Base.Int32.{ℤ}
use depscloud.Codec.Int64.{decimal}
use depscloud.Codec.Query.{query_escape}
use depscloud.Tracker.Alpha.Schema.{Module, Source, unmarshal}
use depscloud.Tracker.Alpha.Services.{DependencyRequest}
use depscloud.Tracker.Alpha.Types.{key_eq}

-- `http.Client`, by the bodies of its responses, whatever their status.
pub record HttpClient : Type 0 where
  pub get : Bytes → Result Bytes
  pub post : Bytes → Bytes → Bytes → Result Bytes

-- `%s=%s` of a name and an escaped value.
abbrev pub field : Bytes → Bytes → Bytes
field name value = name ++ (61 ∷ query_escape value)

infixr 6 ◌&◌
abbrev pub ◌&◌ : Bytes → Bytes → Bytes
front & rest = front ++ (38 ∷ rest)

-- The queries of the requests.
abbrev pub page_query : ℤ → ℤ → Bytes
page_query page count = bytes "page=" ++ (decimal page ++ (bytes "&count=" ++ decimal count))

abbrev pub module_query : Module → Bytes
module_query in_ =
    field (bytes "language") in_.language
    & (field (bytes "organization") in_.organization & field (bytes "module") in_.module_name)

abbrev pub source_query : Source → Bytes
source_query in_ = field (bytes "url") in_.url

abbrev pub dependency_query : DependencyRequest → Bytes
dependency_query in_ =
    field (bytes "organization") in_.organization & field (bytes "module") in_.module_name

-- `%s/v1alpha/graph/%s/…?` with the direction.
abbrev pub graph_uri : Bytes → Bytes → DependencyRequest → Bytes
graph_uri base_url direction in_ =
    base_url
    ++ (bytes "/v1alpha/graph/"
        ++ (query_escape in_.language ++ (47 ∷ direction ++ (63 ∷ dependency_query in_))))

module _ (client : HttpClient) (base_url : Bytes) {A : Type 0} (unmarshal : Bytes → Result A) where
  -- A `Get`, and `jsonpb.Unmarshal` of the body.
  unfoldable pub fetch : Bytes → Result A
  fetch uri = do body ← client.get uri; unmarshal body

  -- `httpModuleClient.List`, `ListSources` and `ListManaged`
  unfoldable pub modules_list : ℤ → ℤ → Result A
  unfolding fetch decimal
  modules_list page count = fetch (base_url ++ (bytes "/v1alpha/modules?" ++ page_query page count))

  unfoldable pub modules_list_sources : Module → Result A
  unfolding fetch query_escape
  modules_list_sources in_ =
      fetch (base_url ++ (bytes "/v1alpha/modules/source?" ++ module_query in_))

  unfoldable pub modules_list_managed : Source → Result A
  unfolding fetch query_escape
  modules_list_managed in_ =
      fetch (base_url ++ (bytes "/v1alpha/modules/managed?" ++ source_query in_))

  -- `httpDependencyService.ListDependents` and `ListDependencies`
  unfoldable pub list_dependents : DependencyRequest → Result A
  unfolding fetch query_escape
  list_dependents in_ = fetch (graph_uri base_url (bytes "dependents") in_)

  unfoldable pub list_dependencies : DependencyRequest → Result A
  unfolding fetch query_escape
  list_dependencies in_ = fetch (graph_uri base_url (bytes "dependencies") in_)

  -- `httpSourceClient.List` and `Track`
  unfoldable pub sources_list : ℤ → ℤ → Result A
  unfolding fetch decimal
  sources_list page count = fetch (base_url ++ (bytes "/v1alpha/sources?" ++ page_query page count))

  unfoldable pub sources_track : {In : Type 0} → (In → Result Bytes) → In → Result A
  sources_track marshal in_ = do
    body ← marshal in_
    r ← client.post (base_url ++ bytes "/v1alpha/sources/track") (bytes "application/json") body
    unmarshal r
