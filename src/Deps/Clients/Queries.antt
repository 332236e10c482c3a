-- ===== src/Deps/Clients/Queries.antt =====
-- A server that takes the queries of the HTTP clients apart finds the fields of the request.
use depscloud.Base.Bytes.{AreBytes, Bytes, bytes}
use depscloud.Codec.Query.{query_escape, parse_query, parameters, parameter}
use depscloud.Codec.Query.RoundTrip.{unescape-query_escape, query_escape-apart, split-apart}
use depscloud.Codec.Query.RoundTrip.{split-append, cut-append}
use depscloud.Base.{All, All-append, List, [], arith, inl, inr, refl, some, ◌++◌, ◌∷◌, ◌≡◌, ◌≢◌}
use depscloud.Base.{ap, sym, ℕ, ◌∙◌, Bool, ltb, true, ◌&&◌, ◌<◌}
use depscloud.Tracker.Alpha.Services.{DependencyRequest}
use depscloud.Tracker.Alpha.Schema.{Module, Source}
use depscloud.Deps.Clients.{dependency_query, module_query, source_query}

-- A query of fields, with names that are escaped as well.
unfoldable query : Bytes × Bytes → List (Bytes × Bytes) → Bytes
query (k, v) [] = query_escape k ++ (61 ∷ query_escape v)
query (k, v) (next ∷ fields) = (query_escape k ++ (61 ∷ query_escape v)) ++ (38 ∷ query next fields)

abbrev IsField : Bytes × Bytes → Type 0
IsField (k, v) = AreBytes k × AreBytes v

parameter-field :
    (k v : Bytes)
    → AreBytes k
    → AreBytes v
    → parameter (query_escape k ++ (61 ∷ query_escape v)) ≡ some (k, v)
unfolding parameter
parameter-field k v hk hv =
    rw (cut-append 61 (query_escape k) (query_escape v) (query_escape-apart k 61 hk (inr refl)))
      (rw (unescape-query_escape k hk, unescape-query_escape v hv) refl)

field-apart :
    (k v : Bytes)
    → AreBytes k
    → AreBytes v
    → All (λ c. c ≢ 38) (query_escape k ++ (61 ∷ query_escape v))
field-apart k v hk hv =
    All-append (λ c. c ≢ 38) (query_escape k) (61 ∷ query_escape v)
      (query_escape-apart k 38 hk (inl refl)) (ne, query_escape-apart v 38 hv (inl refl))
  where
    ne : ◌≢◌ {A = ℕ} 61 38
    ne = ground arith

parse_query-query :
    (first : Bytes × Bytes) (fields : List (Bytes × Bytes))
    → IsField first
    → All IsField fields
    → parse_query (query first fields) ≡ some (first ∷ fields)
unfolding query parse_query parameters
parse_query-query (k, v) [] (hk, hv) h =
    rw (split-apart 38 (query_escape k ++ (61 ∷ query_escape v)) (field-apart k v hk hv))
      (rw (parameter-field k v hk hv) refl)
parse_query-query (k, v) (next ∷ fields) (hk, hv) (h, hs) =
    rw
      (split-append 38 (query_escape k ++ (61 ∷ query_escape v)) (query next fields)
        (field-apart k v hk hv))
      (rw (parameter-field k v hk hv, parse_query-query next fields h hs) refl)

module-query :
    (m : Module)
    → query
        (bytes "language", m.language)
        ((bytes "organization", m.organization) ∷ (bytes "module", m.module_name) ∷ [])
      ≡ module_query m
unfolding query query_escape
module-query m = refl

source-query : (s : Source) → query (bytes "url", s.url) [] ≡ source_query s
unfolding query query_escape
source-query s = refl

dependency-query :
    (r : DependencyRequest)
    → query (bytes "organization", r.organization) ((bytes "module", r.module_name) ∷ [])
      ≡ dependency_query r
unfolding query query_escape
dependency-query r = refl

-- A test that a text is one of bytes.
abbrev pub are_bytes : Bytes → Bool
are_bytes [] = true
are_bytes (c ∷ text) = ltb c 256 && are_bytes text

pub are_bytes-AreBytes : (text : Bytes) → are_bytes text ≡ true → AreBytes text
are_bytes-AreBytes [] h = tt
are_bytes-AreBytes (c ∷ text) h =
    let small : c < 256 = ground arith in
    let others : are_bytes text ≡ true = ground arith in (small, are_bytes-AreBytes text others)

names-AreBytes :
    AreBytes (bytes "language")
    × AreBytes (bytes "organization")
    × AreBytes (bytes "module")
    × AreBytes (bytes "url")
names-AreBytes = (
  are_bytes-AreBytes (bytes "language") refl,
  are_bytes-AreBytes (bytes "organization") refl,
  are_bytes-AreBytes (bytes "module") refl,
  are_bytes-AreBytes (bytes "url") refl,
)

-- A server that splits the query of an HTTP client and unescapes it finds the fields of the request,
-- each under its name, whatever bytes they hold: of a module for its sources, of a source for its
-- modules, and the organization and the module of a request for neighbors, whose language is not in
-- the query.
pub parse_query-clients :
    (m : Module) (s : Source) (r : DependencyRequest)
    → AreBytes m.language
    → AreBytes m.organization
    → AreBytes m.module_name
    → AreBytes s.url
    → AreBytes r.organization
    → AreBytes r.module_name
    → (parse_query (module_query m)
        ≡ some (
            (bytes "language", m.language)
            ∷ (bytes "organization", m.organization)
            ∷ (bytes "module", m.module_name)
            ∷ []))
      × (parse_query (source_query s) ≡ some ((bytes "url", s.url) ∷ []))
      × (parse_query (dependency_query r)
          ≡ some ((bytes "organization", r.organization) ∷ (bytes "module", r.module_name) ∷ []))
parse_query-clients m s r ml mo mm su ro rm =
    let (language, organization, module_name, url) = names-AreBytes in
    (
      ap parse_query (sym (module-query m))
          ∙ parse_query-query _ _ (language, ml) ((organization, mo), ((module_name, mm), tt)),
      ap parse_query (sym (source-query s)) ∙ parse_query-query _ _ (url, su) tt,
      ap parse_query (sym (dependency-query r))
          ∙ parse_query-query _ _ (organization, ro) ((module_name, rm), tt),
    )
