-- ===== src/Deps/Topology/Once.antt =====
-- The tiers name no module twice, and the loop ends.
use depscloud.Base.Bytes.{Bytes}
use depscloud.Base.Dict.{Dict, length-erase, lookup-erase}
use depscloud.Tracker.Alpha.Traversal.Tier.{Distinct}
use depscloud.Deps.Topology.{Graph, Tier, add_tier, release_all, sort_from, sort_tiers}
use depscloud.Deps.Topology.Release.{Left, modules_at, release_all-Released}
use depscloud.Base.{List, Option, [], ap, arith, length, list_eq, map, nat_eq, option_eq, refl}
use depscloud.Base.{some, suc, sym, zero, ℕ, ◌++◌, ◌+◌, ◌<◌, ◌∙◌, ◌∷◌, ◌≡◌}
use depscloud.Tracker.Alpha.Schema.{Module}
use mathlib.Core.List.{append-nil, append_assoc}
use depscloud.Tracker.Alpha.Types.{key_eq}
use mathlib.Core.Path.{subst}

module _ (start : Dict Bytes Module) where
  -- All the keys of some tiers.
  abbrev pub keys_of : List (List Bytes) → List Bytes
  keys_of [] = []
  keys_of (ks ∷ tiers) = ks ++ keys_of tiers

  -- Tiers of keys that are distinct, with their modules.
  abbrev pub Sorted : List Tier → Option (List Tier) → List Bytes → Type 0
  Sorted result out seen =
      (tiers : List (List Bytes)) × (out ≡ some (result ++ map (modules_at start) tiers))
      × Distinct (seen ++ keys_of tiers)

  -- A tier without a module is not listed.
  list-tier :
      (result : List Tier) (new : List Bytes) (tiers : List (List Bytes))
      → (more : List (List Bytes)) × (add_tier result (modules_at start new)
            ++ map (modules_at start) tiers
          ≡ result ++ map (modules_at start) more)
        × (new ++ keys_of tiers ≡ keys_of more)
  list-tier result [] tiers = (tiers, refl, refl)
  list-tier result (k ∷ ks) tiers = (
    (k ∷ ks) ∷ tiers,
    append_assoc result (modules_at start (k ∷ ks) ∷ []) (map (modules_at start) tiers),
    refl,
  )

  sort_tiers-Sorted :
      (fuel : ℕ) (modules seen : List Bytes) (g : Graph) (result : List Tier)
      → Left start seen g
      → length g.counter + length modules < fuel
      → Sorted result (sort_tiers fuel modules g result) seen
  unfolding sort_tiers
  sort_tiers-Sorted zero modules seen g result l h = absurd (omega (arith, h))
  sort_tiers-Sorted (suc fuel) [] seen g result l h =
      ([], ap some (sym (append-nil result)), subst Distinct (sym (append-nil seen)) l.once)
  sort_tiers-Sorted (suc fuel) (m ∷ ms) seen g result l h =
      let r = release_all-Released start (m ∷ ms) seen g [] [] l in
      let out = release_all (m ∷ ms) g [] [] in
      let (tiers, e, d) =
        sort_tiers-Sorted fuel out.1 (seen ++ r.new) out.0 (add_tier result out.2) r.left
          (omega (arith, h, r.fewer, ap length r.queued)) in
      let (more, listed, keys) = list-tier result r.new tiers in
      (
        more,
        e ∙ ap some (ap (λ l. add_tier result l ++ map (modules_at start) tiers) r.listed ∙ listed),
        subst Distinct (append_assoc seen r.new (keys_of tiers) ∙ ap (λ l. seen ++ l) keys) d,
      )

-- With more fuel than one above the number of counted modules, the sort of a graph from a root ends,
-- and its answer is tiers of nodes of the graph: the root alone in the first, and no key in two
-- places.
pub sort_from-Sorted :
    (fuel : ℕ) (root : Bytes) (g : Graph)
    → length g.counter + 1 < fuel
    → (tiers : List (List Bytes)) × (sort_from fuel root g
        ≡ some (map (modules_at g.nodes) ((root ∷ []) ∷ tiers)))
      × Distinct (root ∷ keys_of g.nodes tiers)
unfolding sort_from
sort_from-Sorted fuel root g h =
    sort_tiers-Sorted g.nodes fuel (root ∷ []) (root ∷ []) _ _
      (record {
        once = (refl, tt);
        gone = λ k m. lookup-erase k root g.counter ∙ ground arith;
        kept = λ k m. lookup-erase k root g.nodes ∙ ground arith;
      })
      (omega (arith, length-erase root g.counter))
