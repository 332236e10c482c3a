-- ===== src/Tracker/Alpha/Traversal/Depth.antt =====
-- The depth first search pops the last request of a batch and forgets the others.
use depscloud.Base.Bytes.{Bytes}
use depscloud.Tracker.Alpha.Traversal.Complete.{IsQuiet, flush-quiet}
use depscloud.Base.{List, Result, [], get_last?, length, none, ok, refl, some, ℕ, ◌++◌, ◌<◌, ◌∷◌}
use depscloud.Base.{◌≡◌, ap, arith, suc, zero, ◌+◌, ◌∙◌}
use depscloud.Tracker.Alpha.Traversal.{Outcome, Peer, after_flush, after_visit, depth_first}
use depscloud.Tracker.Alpha.Traversal.{depth_loop, flush, offer, returned, select}
use mathlib.Core.List.{append_assoc}

module _ {Req Resp : Type 0} (key : Req → Bytes) (visit : Req → Result (Resp × List Req))
    (peer : Peer) (quiet : IsQuiet peer) where
  -- Each request of the list is answered with a batch whose new part ends in the next request, and
  -- the last of them with a batch of keys that were seen.
  pub data Walk : Req → List Bytes → List Resp → Type 0 where
    walk_end :
        {r : Req} {seen : List Bytes} {resp : Resp} {batch : List Req}
        → visit r ≡ ok (resp, batch)
        → (offer key visit batch seen []).0 ≡ []
        → Walk r seen (resp ∷ [])
    walk_step :
        {r s : Req} {seen : List Bytes} {resp : Resp} {batch : List Req} {rest : List Resp}
        → visit r ≡ ok (resp, batch)
        → get_last? (offer key visit batch seen []).0 ≡ some s
        → Walk s (offer key visit batch seen []).1 rest
        → Walk r seen (resp ∷ rest)

  after_send :
      (n : ℕ) (resp : Resp) (sent : List Resp) (more : List Resp → Outcome Resp)
      → after_flush key visit peer n more (flush peer.send (resp ∷ []) sent)
        ≡ more (sent ++ (resp ∷ []))
  unfolding after_flush select
  after_send n resp sent more =
      rw (flush-quiet peer.send (resp ∷ []) sent quiet.sends) (rw (quiet.goes_on n, select) refl)

  depth_loop-Walk :
      (fuel n : ℕ) (r : Req) (stack : List Req) (seen : List Bytes) (sent walked : List Resp)
      → get_last? stack ≡ some r
      → Walk r seen walked
      → length walked < fuel
      → depth_loop key visit peer fuel n stack seen sent ≡ returned none (sent ++ walked)
  unfolding depth_loop after_visit
  depth_loop-Walk zero n r stack seen sent walked top w h = absurd (omega (arith, h))
  depth_loop-Walk (suc zero) n r stack seen sent _ top (walk_end v stops) h =
      absurd (omega (arith, h))
  depth_loop-Walk (suc (suc fuel)) n r stack seen sent _ top (walk_end {resp = resp} v stops) h =
      rw (top, depth_loop)
        (rw (v, after_visit) (after_send n resp sent _ ∙ rw (stops, depth_loop) refl))
  depth_loop-Walk (suc fuel) n r stack seen sent _ top
        (walk_step {resp = resp} {rest = rest} v last w) h =
      rw (top, depth_loop)
        (rw (v, after_visit)
          (after_send n resp sent _
            ∙ depth_loop-Walk fuel (n + 1) _ _ _ (sent ++ (resp ∷ [])) rest last w
                (omega (arith, h))
            ∙ ap (returned none) (append_assoc sent (resp ∷ []) rest)))

  -- Where no send fails and the context is never done, the depth first search follows one path: in
  -- each round it goes on from the last new request of the batch alone, and it ends, without an
  -- error, with the first batch that has no new request. The other requests of the batches, though
  -- they were new, are never processed.
  pub depth_first-Walk :
      (fuel : ℕ) (root : Req) (walked : List Resp)
      → Walk root (key root ∷ []) walked
      → length walked < fuel
      → depth_first key visit peer fuel root ≡ returned none walked
  unfolding depth_first
  depth_first-Walk fuel root walked w h =
      depth_loop-Walk fuel 0 root (root ∷ []) (key root ∷ []) [] walked refl w h
