-- ===== src/Tests/Searching.antt =====
-- The searches at concrete inputs.
use depscloud.Codec.Base64
use depscloud.Tracker.Alpha.Sql.{join, is_edge, is_node, select_upstream}
use depscloud.Tracker.Alpha.Schema.{decode, encode, as_depends, as_module, hashed}
use depscloud.Tracker.Alpha.Schema.{key_for_module, key_for_source, key_of, tagged, unmarshal}
use depscloud.Tests.Reading.{of_a, b_needed, client, table}
use depscloud.Tracker.Alpha.Search.Laws.{BothEnd, Leads, breadth_first_search-SoundOutcome}
use depscloud.Tracker.Alpha.Search.Laws.{searches-unsupported}
use depscloud.Base.Bytes.{Bytes, bytes}
use depscloud.Tracker.Alpha.Traversal.Tier.{Child}
use depscloud.Base.{Error, In, List, [], ap, arith, contains, inl, inr, list_eq, map, nat_eq}
use depscloud.Base.{none, ok, option_eq, refl, some, true, ℕ_discrete, ◌∙◌, ◌∷◌, ◌≡◌, ◌⊎◌}
use depscloud.Tracker.Alpha.Search.{SearchRequest, SearchResponse, breadth_first_search}
use depscloud.Tracker.Alpha.Search.{empty_request, empty_response, explore, key_for}
use depscloud.Tracker.Alpha.Search.{process_request, request_for, transform_response}
use depscloud.Tracker.Alpha.Traversal.Breadth.{SoundOutcome, reach_child, reach_root}
use depscloud.Tracker.Alpha.Search.Dependencies.{breadth_first_search_complete}
use depscloud.Codec.Crc32.{checksum}
use depscloud.Codec.Base64.{digit, pair, quad, raw_decode, raw_encode, raw_groups, strip, triple}
use depscloud.Codec.Base64.{undigit}
use depscloud.Tracker.Alpha.Services.{each, key_for_dependency_request, list_dependencies}
use depscloud.Tracker.Alpha.Store.{find_upstream, read_rows}
use depscloud.Tests.Samples.{go_module, quiet_peer, quiet_peer-IsQuiet, sample_env}
use depscloud.Tests.Samples.{sample_env-AreBytes}
use depscloud.Tracker.Alpha.Types.{key_eq}
use depscloud.Tracker.Alpha.Traversal.{panicked, returned}
use mathlib.Core.Path.{subst}

abbrev ask_a : SearchRequest
ask_a = record empty_request { dependencies_of = some of_a }

abbrev ask_b : SearchRequest
ask_b = record empty_request { dependencies_of = some (request_for b_needed) }

explore_a :
    explore sample_env client table ask_a
    ≡ ok (record (empty_response ask_a) { dependencies = some (b_needed ∷ []) }, ask_b ∷ [])
unfolding explore process_request transform_response list_dependencies each
    key_for_dependency_request decode unmarshal as_module as_depends sample_env encode tagged
    key_for_source key_for_module key_of hashed checksum find_upstream read_rows select_upstream
    join is_edge is_node raw_encode raw_decode Base64.encode strip pair triple quad raw_groups digit
    undigit key_eq option_eq list_eq nat_eq ℕ_discrete
explore_a = refl

explore_b :
    explore sample_env client table ask_b
    ≡ ok (record (empty_response ask_b) { dependencies = some [] }, [])
unfolding explore process_request transform_response list_dependencies each
    key_for_dependency_request decode unmarshal as_module as_depends sample_env encode tagged
    key_for_source key_for_module key_of hashed checksum find_upstream read_rows select_upstream
    join is_edge is_node raw_encode raw_decode Base64.encode strip pair triple quad raw_groups digit
    undigit key_eq option_eq list_eq nat_eq ℕ_discrete
explore_b = refl

abbrev Either : SearchRequest → Type 0
Either r = (r ≡ ask_a) ⊎ (r ≡ ask_b)

Child-Either :
    (r q : SearchRequest)
    → Either r
    → Child (key_for sample_env) (explore sample_env client table) r q
    → Either q
Child-Either r q (inl e) c =
    let same : c.batch ≡ ask_b ∷ [] = cc (explore_a, c.visited, e) in
    elim (subst (In q) same c.listed) [ inl m ↦ inr m | inr m ↦ absurd m ]
Child-Either r q (inr e) c =
    let same : c.batch ≡ [] = cc (explore_b, c.visited, e) in absurd (subst (In q) same c.listed)

Leads-Either : (r : SearchRequest) → Leads sample_env client table ask_a r → Either r
Leads-Either r reach_root = inl refl
Leads-Either r (reach_child {r = q} before c) = Child-Either q r (Leads-Either q before) c

Either-answers :
    (r : SearchRequest)
    → Either r
    → (v : SearchResponse × List SearchRequest) × (explore sample_env client table r ≡ ok v)
Either-answers r (inl e) = (_, ap (explore sample_env client table) e ∙ explore_a)
Either-answers r (inr e) = (_, ap (explore sample_env client table) e ∙ explore_b)

abbrev both_keys : List Bytes
both_keys = key_for sample_env ask_a ∷ key_for sample_env ask_b ∷ []

Either-bounded : (r : SearchRequest) → Either r → contains both_keys (key_for sample_env r) ≡ true
Either-bounded r (inl e) = ground arith
Either-bounded r (inr e) = ground arith

breadth_first_search_complete_example :
    (final : List SearchResponse) × (breadth_first_search sample_env client table quiet_peer 3 ask_a
      ≡ returned none final)
    × ((r : SearchRequest)
        → Leads sample_env client table ask_a r
        → contains
            (map (key_for sample_env) (map (λ resp. resp.request) final))
            (key_for sample_env r)
          ≡ true)
breadth_first_search_complete_example =
    breadth_first_search_complete sample_env client table sample_env-AreBytes quiet_peer
      quiet_peer-IsQuiet of_a both_keys (λ r h. Either-answers r (Leads-Either r h))
      (λ r h. Either-bounded r (Leads-Either r h)) 3 (omega arith)

breadth_first_search-SoundOutcome_example :
    SoundOutcome
      (key_for sample_env)
      (explore sample_env client table)
      (λ resp. resp.request)
      ask_a
      (breadth_first_search sample_env client table quiet_peer 3 ask_a)
breadth_first_search-SoundOutcome_example =
    breadth_first_search-SoundOutcome sample_env client table quiet_peer 3 ask_a

abbrev ask_sources : SearchRequest
ask_sources = record empty_request { sources_for = some (go_module (bytes "a")) }

searches-unsupported_example :
    ((e : Error) × BothEnd sample_env client table quiet_peer 1 ask_sources (returned (some e) []))
    ⊎ BothEnd sample_env client table quiet_peer 1 ask_sources (panicked [])
searches-unsupported_example =
    searches-unsupported sample_env client table quiet_peer 0 ask_sources refl refl
