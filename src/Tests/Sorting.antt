-- ===== src/Tests/Sorting.antt =====
-- The topology at a concrete graph.
use depscloud.Base.Bytes.{Bytes, bytes}
use depscloud.Tracker.Alpha.Traversal.Tier.{Distinct}
use depscloud.Deps.Topology.{Graph, release, release_all, release_one, sort_from, sort_tiers}
use depscloud.Deps.Topology.{Tier}
use depscloud.Base.{List, [], arith, list_eq, map, nat_eq, option_eq, refl, some, true}
use depscloud.Base.{ℕ_discrete, ◌∷◌, ◌≡◌, Option, Result, external, false, none, ok}
use depscloud.Tracker.Alpha.Schema.{Module}
use depscloud.Base.Dict.{erase, insert, lookup}
use depscloud.Tracker.Alpha.Types.{key_eq}
use depscloud.Deps.Topology.Once.{keys_of, sort_from-Sorted}
use depscloud.Deps.Topology.Release.{modules_at}
use depscloud.Tracker.Alpha.Services.{DependencyRequest}
use depscloud.Deps.Commands.{finished, one_module, topology_command, whole_tier}

abbrev named : Bytes → Module
named m = record { language = []; organization = []; module_name = m; name = [] }

-- r leads to x and y, and x leads to y.
abbrev graph : Graph
graph = record {
  counter =
      (bytes "r", [])
      ∷ (bytes "x", (bytes "r", true) ∷ [])
      ∷ (bytes "y", (bytes "r", true) ∷ (bytes "x", true) ∷ [])
      ∷ [];
  nodes =
      (bytes "r", named (bytes "r"))
      ∷ (bytes "x", named (bytes "x"))
      ∷ (bytes "y", named (bytes "y"))
      ∷ [];
  edges = (bytes "r", bytes "x" ∷ bytes "y" ∷ []) ∷ (bytes "x", bytes "y" ∷ []) ∷ [];
}

sort_from_run :
    sort_from 5 (bytes "r") graph
    ≡ some (
        (some (named (bytes "r")) ∷ [])
        ∷ (some (named (bytes "x")) ∷ [])
        ∷ (some (named (bytes "y")) ∷ [])
        ∷ [])
unfolding sort_from sort_tiers release_all release release_one lookup insert erase list_eq nat_eq
    ℕ_discrete
sort_from_run = refl

sort_from-Sorted_example :
    (tiers : List (List Bytes)) × (sort_from 5 (bytes "r") graph
      ≡ some (map (modules_at graph.nodes) ((bytes "r" ∷ []) ∷ tiers)))
    × Distinct (bytes "r" ∷ keys_of graph.nodes tiers)
sort_from-Sorted_example = sort_from-Sorted 5 (bytes "r") graph (omega arith)

abbrev request : DependencyRequest
request = record {
  language = bytes "go";
  organization = bytes "o";
  module_name = bytes "m";
  name = [];
}

abbrev two_tiers : DependencyRequest → Result (Option (List Tier))
two_tiers req =
    ok (some ((some (named (bytes "a")) ∷ []) ∷ (some (named (bytes "b")) ∷ none ∷ []) ∷ []))

flat :
    topology_command two_tiers (λ written. none) false request
    ≡ finished none (
        one_module (some (named (bytes "a")))
        ∷ one_module (some (named (bytes "b")))
        ∷ one_module none
        ∷ [])
unfolding topology_command list_eq nat_eq ℕ_discrete
flat = refl

-- A write that fails ends the command with its error.
write_fails :
    topology_command two_tiers
      (λ written. elim written [ [] ↦ none | _ ∷ _ ↦ some (external 1) ])
      true
      request
    ≡ finished (some (external 1)) (whole_tier (some (named (bytes "a")) ∷ []) ∷ [])
unfolding topology_command list_eq nat_eq ℕ_discrete
write_fails = refl
