-- ===== src/Tests/Walking.antt =====
-- The depth first search on a root with two children.
use depscloud.Base.Bytes.{Bytes}
use depscloud.Base.{List, Result, [], ap, arith, get_last?, list_eq, nat_eq, none, ok, refl, suc}
use depscloud.Base.{zero, ℕ, ℕ_discrete, ◌∷◌, ◌≡◌}
use depscloud.Tracker.Alpha.Traversal.Depth.{Walk, walk_end, walk_step, depth_first-Walk}
use depscloud.Tracker.Alpha.Traversal.{depth_first, offer, returned}
use depscloud.Tests.Samples.{quiet_peer, quiet_peer-IsQuiet}

abbrev key : ℕ → Bytes
key n = n ∷ []

abbrev visit : ℕ → Result (ℕ × List ℕ)
visit zero = ok (0, 1 ∷ 2 ∷ [])
visit (suc n) = ok (suc n, [])

offered : offer key visit (1 ∷ 2 ∷ []) (key 0 ∷ []) [] ≡ (1 ∷ 2 ∷ [], key 0 ∷ key 1 ∷ key 2 ∷ [])
unfolding offer list_eq nat_eq ℕ_discrete
offered = refl

-- The child 1 is dropped: 0 and 2 are all that is sent.
walked : Walk key visit quiet_peer quiet_peer-IsQuiet 0 (key 0 ∷ []) (0 ∷ 2 ∷ [])
unfolding offer
walked = walk_step refl (ap (λ o. get_last? o.0) offered) (walk_end refl refl)

depth_first-Walk_example : depth_first key visit quiet_peer 3 0 ≡ returned none (0 ∷ 2 ∷ [])
depth_first-Walk_example =
    depth_first-Walk key visit quiet_peer quiet_peer-IsQuiet 3 0 (0 ∷ 2 ∷ []) walked (omega arith)
