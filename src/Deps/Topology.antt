-- ===== src/Deps/Topology.antt =====
-- `topology` of deps/internal/cmds/get/topology.go: the responses of a breadth first search as a
-- graph, and its modules in tiers. A Go map that holds sets is a map of maps to true.
pub mod Release
pub mod Once
use depscloud.Base.{◌>>=◌, ◌>>◌, check, Bool, Error, List, Option, Result, [], err, errorf}
use depscloud.Base.{if◌then◌else◌, list_eq, map, nat_eq, none, ok, option_eq, some, suc, true}
use depscloud.Base.{zero, ℕ, ◌++◌, ◌∷◌}
use depscloud.Base.Bytes.{Bytes, bytes}
use depscloud.Tracker.Alpha.Services.{Dependency, DependencyRequest}
use depscloud.Base.Dict.{Dict, erase, insert, lookup}
use depscloud.Tracker.Alpha.Schema.{Module}
use depscloud.Tracker.Alpha.Search.{SearchRequest, SearchResponse}
use depscloud.Base.Options.{is_some}
use depscloud.Tracker.Alpha.Types.{key_eq}
use depscloud.Tracker.Alpha.Traversal.{tier}

-- `fmt.Sprintf("%s|%s|%s", …)` of `key`, and of `keyForRequest`.
abbrev pub joined : Bytes → Bytes → Bytes → Bytes
joined a b c = a ++ (bytes "|" ++ (b ++ (bytes "|" ++ c)))

abbrev pub key : Module → Bytes
key m = joined m.language m.organization m.module_name

abbrev pub key_for_request : DependencyRequest → Bytes
key_for_request req = joined req.language req.organization req.module_name

-- `requestToModule`
abbrev pub request_to_module : DependencyRequest → Module
request_to_module req = record {
  language = req.language;
  organization = req.organization;
  module_name = req.module_name;
  name = req.name;
}

-- The three maps.
pub record Graph : Type 0 where
  pub counter : Dict Bytes (Dict Bytes Bool)
  pub nodes : Dict Bytes Module
  pub edges : Dict Bytes (List Bytes)

-- `if _, ok := nodes[k]; !ok`
unfoldable pub note_node : Bytes → Module → Graph → Graph
note_node k m g =
    if is_some (lookup k g.nodes)
    then g
    else record g { counter = insert k [] g.counter; nodes = insert k m g.nodes }

abbrev pub or_empty {ℓ} : {A : Type ℓ} → Option (List A) → List A
or_empty none = []
or_empty (some xs) = xs

-- `for i, dependency := range items`
unfoldable pub add_items : Bytes → List Dependency → Graph → Graph
unfolding note_node
add_items module_key [] g = g
add_items module_key (d ∷ items) g =
    let g' = note_node (key d.module_) d.module_ g in
    let preds = insert module_key true (or_empty (lookup (key d.module_) g'.counter)) in
    add_items module_key items (record g' { counter = insert (key d.module_) preds g'.counter })

-- The source and the items of a response.
unfoldable pub source_of : SearchResponse → Option (DependencyRequest × List Dependency)
source_of resp = elim resp.request.dependents_of [
  | some req ↦ some (req, or_empty resp.dependents)
  | none ↦ elim resp.request.dependencies_of [
    | some req ↦ some (req, or_empty resp.dependencies)
    | none ↦ none
  ]
]

-- The loop over the responses, which end in EOF (`none`) or an error.
unfoldable pub receive : List SearchResponse → Option Error → Graph → Result Graph
unfolding add_items note_node source_of
receive [] none g = ok g
receive [] (some e) g = err e
receive (resp ∷ resps) last g = elim (source_of resp) [
  | none ↦ err (errorf "source module not included")
  | some (req, items) ↦
      let k = key (request_to_module req) in
      let g' = add_items k items (note_node k (request_to_module req) g) in
      receive resps last (record g' { edges = insert k (map (λ d. key d.module_) items) g'.edges })
]

-- The root key.
unfoldable pub root_key : SearchRequest → Result Bytes
root_key request = elim request.dependents_of [
  | some req ↦ ok (key_for_request req)
  | none ↦ elim request.dependencies_of [
    | some req ↦ ok (key_for_request req)
    | none ↦ err (errorf "failed to determine root key for topological sort")
  ]
]

abbrev pub Tier : Type 0
Tier = List (Option Module)

-- What follows `delete(counter[dependencyKey], key)`, by what is left there.
unfoldable pub release_one :
    Bytes → Dict Bytes Bool → Graph → List Bytes → Tier → Graph × List Bytes × Tier
release_one d [] g next tier = (
  record g { counter = erase d g.counter; nodes = erase d g.nodes },
  next ++ (d ∷ []),
  tier ++ (lookup d g.nodes ∷ []),
)
release_one d (p ∷ ps) g next tier =
    (record g { counter = insert d (p ∷ ps) g.counter }, next, tier)

-- `for _, dependencyKey := range dependencyKeys`: the keys and the modules of the next tier.
unfoldable pub release : Bytes → List Bytes → Graph → List Bytes → Tier → Graph × List Bytes × Tier
unfolding release_one
release k [] g next tier = (g, next, tier)
release k (d ∷ ds) g next tier = elim (lookup d g.counter) [
  | none ↦ release k ds g next tier
  | some preds ↦
      let out = release_one d (erase k preds) g next tier in release k ds out.0 out.1 out.2
]

-- `for i := 0; i < length; i++`
unfoldable pub release_all : List Bytes → Graph → List Bytes → Tier → Graph × List Bytes × Tier
unfolding release
release_all [] g next tier = (g, next, tier)
release_all (k ∷ ks) g next tier =
    let out =
      release k (or_empty (lookup k g.edges)) (record g { edges = erase k g.edges }) next tier in
    release_all ks out.0 out.1 out.2

-- `if len(tier) > 0`
abbrev pub add_tier : List Tier → Tier → List Tier
add_tier result [] = result
add_tier result (m ∷ ms) = result ++ ((m ∷ ms) ∷ [])

-- The loop over the tiers. `none` is out of fuel.
unfoldable pub sort_tiers : ℕ → List Bytes → Graph → List Tier → Option (List Tier)
unfolding release_all
sort_tiers zero modules g result = none
sort_tiers (suc fuel) [] g result = some result
sort_tiers (suc fuel) (m ∷ ms) g result =
    let out = release_all (m ∷ ms) g [] [] in sort_tiers fuel out.1 out.0 (add_tier result out.2)

abbrev pub empty_graph : Graph
empty_graph = record { counter = []; nodes = []; edges = [] }

-- The second half of `topology`, from the root.
unfoldable pub sort_from : ℕ → Bytes → Graph → Option (List Tier)
unfolding sort_tiers
sort_from fuel root g =
    sort_tiers fuel (root ∷ [])
      (record g { counter = erase root g.counter; nodes = erase root g.nodes })
      ((lookup root g.nodes ∷ []) ∷ [])

-- `topology`, on the answers to the opening of the stream and to the send, and on what the stream
-- delivers.
unfoldable pub topology :
    ℕ
    → SearchRequest
    → Option Error
    → Option Error
    → List SearchResponse
    → Option Error
    → Result (Option (List Tier))
unfolding receive root_key sort_from
topology fuel request opened sent resps last = do
  check opened
  check sent
  g ← receive resps last empty_graph
  root ← root_key request
  ok (sort_from fuel root g)
