-- ===== src/Tracker/Alpha/Traversal/Complete.antt =====
-- An undisturbed breadth first search ends, and has then visited every reachable key.
-- No send fails and the context is never done.
use depscloud.Base.{All, Error, List, Option, Result, [], ap, arith, false, length, none, ok}
use depscloud.Base.{refl, suc, ℕ, ◌++◌, ◌∙◌, ◌∷◌, ◌≡◌, In, contains, inl, inr, list_eq, map}
use depscloud.Base.{nat_eq, option_eq, true, zero, ◌+◌, ◌<◌, ◌≤◌, All-In, All-weaken, Bool-cases}
use depscloud.Base.{length-append, length-map, ◌==◌, sym}
use depscloud.Tracker.Alpha.Traversal.Tier.{Answered, Out, contains-append, tier-Tiered, Child}
use depscloud.Base.Bytes.{Bytes}
use depscloud.Tracker.Alpha.Traversal.{Peer, flush, offer, tier, Outcome, breadth_first}
use depscloud.Tracker.Alpha.Traversal.{breadth_loop, returned, after_flush, after_tier, select}
use mathlib.Core.List.{append-nil, append_assoc}
use depscloud.Tracker.Alpha.Traversal.Breadth.{Inv, Reach, requests, start-Inv, Inv-IsSound}
use depscloud.Tracker.Alpha.Traversal.Breadth.{Inv-tier, reach_child, reach_root}
use depscloud.Tracker.Alpha.Types.{key_eq}
use depscloud.Tracker.Alpha.Traversal.Pigeonhole.{length-le-of_Distinct}
use mathlib.Core.Path.{subst}

pub record IsQuiet (peer : Peer) : Type 0 where
  pub sends : (n : ℕ) → peer.send n ≡ none
  pub goes_on : (n : ℕ) → peer.done n ≡ false

pub flush-quiet :
    {Resp : Type 0} (send : ℕ → Option Error) (resps sent : List Resp)
    → ((n : ℕ) → send n ≡ none)
    → flush send resps sent ≡ (sent ++ resps, none)
unfolding flush
flush-quiet send [] sent q = ground (arith, append-nil sent)
flush-quiet send (resp ∷ resps) sent q =
    rw (q (length sent), flush)
      (flush-quiet send resps (sent ++ (resp ∷ [])) q
        ∙ ap (λ l. (l, none)) (append_assoc sent (resp ∷ []) resps))

module _ {Req Resp : Type 0} (key : Req → Bytes) (visit : Req → Result (Resp × List Req)) where
  tier-total :
      (queue : List Req) (seen : List Bytes) (next : List Req)
      → All (λ r. (v : Resp × List Req) × (visit r ≡ ok v)) queue
      → (out : Out key visit) × (tier key visit queue seen next ≡ ok out)
  unfolding tier
  tier-total [] seen next a = (([], next, seen), refl)
  tier-total (r ∷ rs) seen next ((v, e), a) =
      let mid = offer key visit v.1 seen next in
      let (out, e') = tier-total rs mid.1 mid.0 a in
      ((v.0 ∷ out.0, out.1, out.2), rw (e, tier) (rw e'))

  length-Answered :
      (queue : List Req) (resps : List Resp)
      → Answered key visit queue resps
      → length resps ≡ length queue
  length-Answered [] [] a = refl
  length-Answered [] (_ ∷ _) a = absurd a
  length-Answered (_ ∷ _) [] a = absurd a
  length-Answered (r ∷ rs) (resp ∷ resps) (_, a) = ap suc (length-Answered rs resps a)

  key-In :
      (k : Bytes) (rs : List Req)
      → contains (map key rs) k ≡ true
      → (r : Req) × In r rs × (key r ≡ k)
  key-In k [] h = cc
  key-In k (r ∷ rs) h = elim (Bool-cases (k == key r)) [
    | inl e ↦ (r, inl refl, ground arith)
    | inr ne ↦ let (q, m, e) = key-In k rs (ground arith) in (q, inr m, e)
  ]

  All-map :
      (P : Bytes → Type 0) (Q : Req → Type 0)
      → ((r : Req) → Q r → P (key r))
      → (rs : List Req) → All Q rs
      → All P (map key rs)
  All-map P Q f [] a = tt
  All-map P Q f (r ∷ rs) (h, a) = (f r h, All-map P Q f rs a)

  length-keys : (rs : List Req) → length (map key rs) ≡ length rs
  length-keys [] = refl
  length-keys (r ∷ rs) = ap suc (length-keys rs)

  module _ (request_of : Resp → Req) (root : Req)
      (names : (r : Req) (resp : Resp) (batch : List Req)
        → visit r ≡ ok (resp, batch)
        → request_of resp ≡ r)
      (peer : Peer) (quiet : IsQuiet peer) (universe : List Bytes)
      (answers : (r : Req)
        → Reach key visit request_of root r
        → (v : Resp × List Req) × (visit r ≡ ok v))
      (same : (r s t : Req)
        → Reach key visit request_of root r
        → Reach key visit request_of root s
        → key r ≡ key s
        → Child key visit r t
        → Child key visit s t)
      (bounded : (r : Req)
        → Reach key visit request_of root r
        → contains universe (key r) ≡ true) where
    abbrev Reached : Req → Type 0
    Reached = Reach key visit request_of root

    abbrev Visited : List Resp → Type 0
    Visited sent =
        (r : Req)
        → Reached r
        → contains (map key (requests key visit request_of root sent)) (key r) ≡ true

    abbrev Ends : Outcome Resp → Type 0
    Ends outcome = (final : List Resp) × (outcome ≡ returned none final) × Visited final

    in-bounds :
        (queue : List Req) (seen : List Bytes) (sent : List Resp)
        → Inv key visit request_of root queue seen sent
        → length sent ≤ length universe
    in-bounds queue seen sent i =
        let visited = requests key visit request_of root sent in
        let sound = Inv-IsSound key visit request_of root queue seen sent i in
        omega (
          arith,
          length-keys visited,
          length-map request_of sent,
          length-le-of_Distinct (map key visited) universe sound.once
              (All-map (λ k. contains universe k ≡ true) Reached bounded visited sound.reached),
        )

    all-Visited :
        (seen : List Bytes) (sent : List Resp)
        → Inv key visit request_of root [] seen sent
        → contains seen (key root) ≡ true
        → Visited sent
    all-Visited seen sent i rooted r reached = visited-of_seen (key r) (seen-reached r reached)
      where
        visited : List Req
        visited = requests key visit request_of root sent

        visited-of_seen : (k : Bytes) → contains seen k ≡ true → contains (map key visited) k ≡ true
        visited-of_seen k h =
            subst (λ l. contains (map key l) k ≡ true) (append-nil visited)
              (subst (λ l. contains l k ≡ true) i.seen_keys h)

        seen-reached : (s : Req) → Reached s → contains seen (key s) ≡ true
        seen-reached s reach_root = rooted
        seen-reached s (reach_child {r = r} before c) =
            let (q, m, e) =
              key-In (key r) visited (visited-of_seen (key r) (seen-reached r before)) in
            i.closed q s m (same r q s before (All-In Reached visited q i.sent_reached m) (sym e) c)

    after-quiet :
        (n : ℕ) (resps sent : List Resp) (more : List Resp → Outcome Resp)
        → Ends (more (sent ++ resps))
        → Ends (after_flush key visit peer n more (flush peer.send resps sent))
    unfolding after_flush select
    after-quiet n resps sent more ends =
        subst (λ f. Ends (after_flush key visit peer n more f))
          (sym (flush-quiet peer.send resps sent quiet.sends)) (rw (quiet.goes_on n, select) ends)

    breadth_loop-Ends :
        (fuel n : ℕ) (queue : List Req) (seen : List Bytes) (sent : List Resp)
        → Inv key visit request_of root queue seen sent
        → contains seen (key root) ≡ true
        → length universe < fuel + length sent
        → Ends (breadth_loop key visit peer fuel n queue seen sent)
    unfolding breadth_loop after_tier tier-total
    breadth_loop-Ends zero n queue seen sent i rooted h =
        absurd (omega (arith, in-bounds queue seen sent i))
    breadth_loop-Ends (suc fuel) n [] seen sent i rooted h =
        (sent, refl, all-Visited seen sent i rooted)
    breadth_loop-Ends (suc fuel) n (r ∷ rs) seen sent i rooted h =
        let (out, e) =
          tier-total (r ∷ rs) seen [] (All-weaken Reached _ answers (r ∷ rs) i.queue_reached) in
        let t = tier-Tiered key visit (r ∷ rs) seen [] out e in
        let i' = Inv-tier key visit request_of root names (r ∷ rs) seen sent out i t in
        rw (e, after_tier)
          (after-quiet n out.0 sent _ (
            breadth_loop-Ends fuel (n + 1) out.1 out.2 (sent ++ out.0) i'
              (ground (arith, t.marked, contains-append seen (map key t.new) (key root)))
              (omega (arith, length-append sent out.0, length-Answered (r ∷ rs) out.0 t.answered))))

    -- All the sends succeed and the context is never done; every request to which the root leads is
    -- answered, two of them with one key lead to the same requests, and their keys stand in the list
    -- `universe`: with more fuel than `universe` is long the search ends without an error, and the
    -- key of every request to which the root leads has then been answered.
    pub breadth_first_complete :
        (fuel : ℕ) → length universe < fuel → Ends (breadth_first key visit peer fuel root)
    unfolding breadth_first
    breadth_first_complete fuel h =
        breadth_loop-Ends fuel 0 (root ∷ []) (key root ∷ []) []
          (start-Inv key visit request_of root names peer) (ground arith) (omega arith)
