-- ===== src/Tests/Querying.antt =====
-- The HTTP clients of the command line at concrete inputs.
use depscloud.Deps.Clients.{HttpClient, graph_uri, module_query, source_query, dependency_query}
use depscloud.Deps.Clients.{list_dependents}
use depscloud.Deps.Clients.Queries.{are_bytes-AreBytes, parse_query-clients}
use depscloud.Codec.Query.{parse_query, query_escape}
use depscloud.Tracker.Alpha.Schema.{Module, Source}
use depscloud.Tracker.Alpha.Services.{DependencyRequest}
use depscloud.Base.Bytes.{bytes}
use depscloud.Base.{list_eq, nat_eq, ok, [], refl, some, ◌∷◌, ◌≡◌, ℕ_discrete}

abbrev module_ : Module
module_ = record {
  language = bytes "go";
  organization = bytes "a&b=c";
  module_name = bytes "x y";
  name = [];
}

abbrev source : Source
source = record { url = bytes "https://h/a b"; kind = []; ref = [] }

abbrev request : DependencyRequest
request = record {
  language = bytes "visual basic";
  organization = bytes "o";
  module_name = bytes "m";
  name = [];
}

query_of_module : module_query module_ ≡ bytes "language=go&organization=a%26b%3Dc&module=x+y"
unfolding query_escape nat_eq ℕ_discrete
query_of_module = refl

-- In a path a plus sign does not stand for a space.
plus_in_path :
    graph_uri (bytes "h") (bytes "dependents") request
    ≡ bytes "h/v1alpha/graph/visual+basic/dependents?organization=o&module=m"
unfolding query_escape nat_eq ℕ_discrete
plus_in_path = refl

abbrev echo : HttpClient
echo = record { get = λ uri. ok uri; post = λ uri type_ body. ok body }

asks :
    list_dependents echo (bytes "h") (λ body. ok body) request
    ≡ ok (bytes "h/v1alpha/graph/visual+basic/dependents?organization=o&module=m")
unfolding list_dependents nat_eq ℕ_discrete
asks = refl

parse_query-clients_example :
    (parse_query (module_query module_)
      ≡ some (
          (bytes "language", bytes "go")
          ∷ (bytes "organization", bytes "a&b=c")
          ∷ (bytes "module", bytes "x y")
          ∷ []))
    × (parse_query (source_query source) ≡ some ((bytes "url", bytes "https://h/a b") ∷ []))
    × (parse_query (dependency_query request)
        ≡ some ((bytes "organization", bytes "o") ∷ (bytes "module", bytes "m") ∷ []))
parse_query-clients_example =
    parse_query-clients module_ source request (are_bytes-AreBytes (bytes "go") refl)
      (are_bytes-AreBytes (bytes "a&b=c") refl) (are_bytes-AreBytes (bytes "x y") refl)
      (are_bytes-AreBytes (bytes "https://h/a b") refl) (are_bytes-AreBytes (bytes "o") refl)
      (are_bytes-AreBytes (bytes "m") refl)
