-- ===== src/Tracker/Alpha/Traversal/Refusal.antt =====
-- Both searches end at a first request that cannot be answered.
use depscloud.Base.Bytes.{Bytes}
use depscloud.Base.{Error, List, Result, [], err, panic, refl, some, suc, ℕ, ◌≡◌}
use depscloud.Tracker.Alpha.Traversal.{Peer, after_tier, after_visit, breadth_first}
use depscloud.Tracker.Alpha.Traversal.{breadth_loop, depth_first, depth_loop, panicked, returned}
use depscloud.Tracker.Alpha.Traversal.{tier}

module _ {Req Resp : Type 0} (key : Req → Bytes) (visit : Req → Result (Resp × List Req))
    (peer : Peer) (fuel : ℕ) (root : Req) where
  pub searches-err :
      (e : Error)
      → visit root ≡ err e
      → (breadth_first key visit peer (suc fuel) root ≡ returned (some e) [])
        × (depth_first key visit peer (suc fuel) root ≡ returned (some e) [])
  unfolding breadth_first depth_first breadth_loop depth_loop after_tier after_visit tier
  searches-err e h = (rw (h, tier) refl, rw (h, after_visit) refl)

  pub searches-panic :
      visit root ≡ panic
      → (breadth_first key visit peer (suc fuel) root ≡ panicked [])
        × (depth_first key visit peer (suc fuel) root ≡ panicked [])
  unfolding breadth_first depth_first breadth_loop depth_loop after_tier after_visit tier
  searches-panic h = (rw (h, tier) refl, rw (h, after_visit) refl)
