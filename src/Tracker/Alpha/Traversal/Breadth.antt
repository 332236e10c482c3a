-- ===== src/Tracker/Alpha/Traversal/Breadth.antt =====
-- The breadth first search visits each reachable key once, and ends.
-- What is sent is a part of what was to be sent, and all of it if no send fails.
use depscloud.Base.{All, All-prefix, Error, In, List, Option, Option-cases, Result, [], ap}
use depscloud.Base.{contains, inl, inr, length, list_eq, map, nat_eq, none, ok, option_eq, refl}
use depscloud.Base.{sym, true, ℕ, ◌++◌, ◌∙◌, ◌∷◌, ◌≡◌, All-In, All-append, All-weaken}
use depscloud.Base.{Bool-cases, In-append, arith, err, panic, some, suc, zero, ◌+◌}
use depscloud.Tracker.Alpha.Traversal.Tier.{Answered, Child, Distinct, Distinct-prefix, Out}
use depscloud.Tracker.Alpha.Traversal.Tier.{Tiered, contains-append, tier-Tiered}
use depscloud.Base.Bytes.{Bytes}
use depscloud.Tracker.Alpha.Traversal.{Outcome, flush, out_of_fuel, panicked, returned, Peer}
use depscloud.Tracker.Alpha.Traversal.{after_flush, select, after_tier, breadth_first}
use depscloud.Tracker.Alpha.Traversal.{breadth_loop, tier}
use mathlib.Core.List.{append-nil, append_assoc, map-append}
use mathlib.Core.Path.{ap₂, subst}
use depscloud.Tracker.Alpha.Types.{key_eq}

pub flush-prefix :
    {Resp : Type 0} (send : ℕ → Option Error) (resps sent : List Resp)
    → ((rest : List Resp) × (sent ++ resps ≡ (flush send resps sent).0 ++ rest))
      × ((flush send resps sent).1 ≡ none → (flush send resps sent).0 ≡ sent ++ resps)
unfolding flush
flush-prefix send [] sent = (([], refl), λ _. sym (append-nil sent))
flush-prefix send (resp ∷ resps) sent = elim (Option-cases (send (length sent))) [
  | inl sends ↦
      let ((rest, e), whole) = flush-prefix send resps (sent ++ (resp ∷ [])) in
      let regroup = append_assoc sent (resp ∷ []) resps in
      rw (sends, flush) ((rest, sym regroup ∙ e), λ h. whole h ∙ regroup)
  | inr (e, fails) ↦ rw (fails, flush) ((resp ∷ resps, refl), λ h. cc)
]

module _ {Req Resp : Type 0} (key : Req → Bytes) (visit : Req → Result (Resp × List Req))
    (request_of : Resp → Req) (root : Req) where
  -- The requests that the root leads to.
  pub data Reach : Req → Type 0 where
    reach_root : Reach root
    reach_child : {r s : Req} → Reach r → Child key visit r s → Reach s

  abbrev pub requests : List Resp → List Req
  requests = map request_of

  -- What was sent is reachable, and no key twice.
  pub record IsSound (sent : List Resp) : Type 0 where
    pub reached : All Reach (requests sent)
    pub once : Distinct (map key (requests sent))

  abbrev pub SoundOutcome : Outcome Resp → Type 0
  SoundOutcome (returned e sent) = IsSound sent
  SoundOutcome (panicked sent) = IsSound sent
  SoundOutcome out_of_fuel = Unit

  -- The loop's state: the keys that were seen are those of the requests that were sent or are
  -- queued, in order, and what the sent ones lead to was seen.
  pub record Inv (queue : List Req) (seen : List Bytes) (sent : List Resp) : Type 0 where
    pub queue_reached : All Reach queue
    pub sent_reached : All Reach (requests sent)
    pub seen_keys : seen ≡ map key (requests sent ++ queue)
    pub distinct : Distinct seen
    pub closed :
        (r s : Req) → In r (requests sent) → Child key visit r s → contains seen (key s) ≡ true

  pub Inv-IsSound :
      (queue : List Req) (seen : List Bytes) (sent : List Resp) → Inv queue seen sent → IsSound sent
  Inv-IsSound queue seen sent i = record {
    reached = i.sent_reached;
    once =
        Distinct-prefix (map key (requests sent)) (map key queue)
          (subst Distinct (i.seen_keys ∙ map-append key (requests sent) queue) i.distinct);
  }

  IsSound-prefix : (xs ys : List Resp) → IsSound (xs ++ ys) → IsSound xs
  IsSound-prefix xs ys s = record {
    reached =
        All-prefix Reach (requests xs) (requests ys)
          (subst (All Reach) (map-append request_of xs ys) s.reached);
    once = Distinct-prefix (map key (requests xs)) (map key (requests ys)) (
        subst Distinct
          (ap (map key) (map-append request_of xs ys) ∙ map-append key (requests xs) (requests ys))
          s.once);
  }

  module _
      (names : (r : Req) (resp : Resp) (batch : List Req)
        → visit r ≡ ok (resp, batch)
        → request_of resp ≡ r) where
    pub requests-Answered :
        (queue : List Req) (resps : List Resp)
        → Answered key visit queue resps
        → requests resps ≡ queue
    requests-Answered [] [] a = refl
    requests-Answered [] (resp ∷ resps) a = absurd a
    requests-Answered (r ∷ rs) [] a = absurd a
    requests-Answered (r ∷ rs) (resp ∷ resps) ((batch, v), a) =
        ap₂ (λ q qs. q ∷ qs) (names r resp batch v) (requests-Answered rs resps a)

    module _ (queue : List Req) (seen : List Bytes) (sent : List Resp) (out : Out key visit)
        (i : Inv queue seen sent) (t : Tiered key visit queue seen [] out) where
      answers : requests (sent ++ out.0) ≡ requests sent ++ queue
      answers =
          map-append request_of sent out.0
          ∙ ap (λ q. requests sent ++ q) (requests-Answered queue out.0 t.answered)

      children-reached : All Reach out.1
      children-reached = subst (All Reach) (sym t.queued) (
          All-weaken (λ s. (r : Req) × In r queue × Child key visit r s) Reach
            (λ s (r, m, c). reach_child (All-In Reach queue r i.queue_reached m) c) t.new
            t.children)

      tier-closed :
          (r s : Req)
          → In r (requests (sent ++ out.0))
          → Child key visit r s
          → contains out.2 (key s) ≡ true
      tier-closed r s m c = elim (In-append r (requests sent) queue (subst (In r) answers m)) [
        | inl old ↦
            ground
              (arith, i.closed r s old c, t.marked, contains-append seen (map key t.new) (key s))
        | inr new ↦ t.closed r s new c
      ]

      -- A tier that succeeds keeps the invariant, once all of its responses are sent.
      pub Inv-tier : Inv out.1 out.2 (sent ++ out.0)
      Inv-tier = record {
        queue_reached = children-reached;
        sent_reached =
            subst (All Reach) (sym answers)
              (All-append Reach (requests sent) queue i.sent_reached i.queue_reached);
        seen_keys =
            t.marked
            ∙ ap (λ l. l ++ map key t.new) i.seen_keys
            ∙ sym (map-append key (requests sent ++ queue) t.new)
            ∙ ap₂ (λ p q. map key (p ++ q)) (sym answers) (sym t.queued);
        distinct = t.distinct i.distinct;
        closed = tier-closed;
      }

    module _ (peer : Peer) where
      select-SoundOutcome :
          (n : ℕ) (sent : List Resp) (more : Outcome Resp)
          → IsSound sent
          → SoundOutcome more
          → SoundOutcome (select key visit peer n sent more)
      unfolding select
      select-SoundOutcome n sent more s m = elim (Bool-cases (peer.done n)) [
        | inl stops ↦ rw (stops, select) s
        | inr goes ↦ rw (goes, select) m
      ]

      after_flush-SoundOutcome :
          (n : ℕ) (more : List Resp → Outcome Resp) (whole : List Resp)
          (flushed : List Resp × Option Error)
          → (rest : List Resp) × (whole ≡ flushed.0 ++ rest)
          → (flushed.1 ≡ none → flushed.0 ≡ whole)
          → IsSound whole
          → SoundOutcome (more whole)
          → SoundOutcome (after_flush key visit peer n more flushed)
      unfolding after_flush
      after_flush-SoundOutcome n more whole (sent, some e) (rest, part) all s m =
          IsSound-prefix sent rest (subst IsSound part s)
      after_flush-SoundOutcome n more whole (sent, none) _ all s m =
          select-SoundOutcome n sent (more sent) (subst IsSound (sym (all refl)) s)
            (subst (λ l. SoundOutcome (more l)) (sym (all refl)) m)

      after_tier-SoundOutcome :
          (n : ℕ) (more : List Req → List Bytes → List Resp → Outcome Resp) (queue : List Req)
          (seen : List Bytes) (sent : List Resp) (r : Result (Out key visit))
          → Inv queue seen sent
          → tier key visit queue seen [] ≡ r
          → ((out : Out key visit)
              → Inv out.1 out.2 (sent ++ out.0)
              → SoundOutcome (more out.1 out.2 (sent ++ out.0)))
          → SoundOutcome (after_tier key visit peer n more sent r)
      unfolding after_tier
      after_tier-SoundOutcome n more queue seen sent (err e) i h m = Inv-IsSound queue seen sent i
      after_tier-SoundOutcome n more queue seen sent panic i h m = Inv-IsSound queue seen sent i
      after_tier-SoundOutcome n more queue seen sent (ok (resps, next, seen')) i h m =
          let out : Out key visit = (resps, next, seen') in
          let i' = Inv-tier queue seen sent out i (tier-Tiered key visit queue seen [] out h) in
          let parts = flush-prefix peer.send resps sent in
          after_flush-SoundOutcome n (more next seen') (sent ++ resps) (flush peer.send resps sent)
            parts.0 parts.1 (Inv-IsSound next seen' (sent ++ resps) i') (m out i')

      breadth_loop-SoundOutcome :
          (fuel n : ℕ) (queue : List Req) (seen : List Bytes) (sent : List Resp)
          → Inv queue seen sent
          → SoundOutcome (breadth_loop key visit peer fuel n queue seen sent)
      unfolding breadth_loop
      breadth_loop-SoundOutcome zero n queue seen sent i = tt
      breadth_loop-SoundOutcome (suc fuel) n [] seen sent i = Inv-IsSound [] seen sent i
      breadth_loop-SoundOutcome (suc fuel) n (r ∷ rs) seen sent i =
          after_tier-SoundOutcome n _ (r ∷ rs) seen sent (tier key visit (r ∷ rs) seen []) i refl
            λ out i'. breadth_loop-SoundOutcome fuel (n + 1) out.1 out.2 (sent ++ out.0) i'

      pub start-Inv : Inv (root ∷ []) (key root ∷ []) []
      start-Inv = record {
        queue_reached = (reach_root, tt);
        sent_reached = tt;
        seen_keys = refl;
        distinct = (refl, tt);
        closed = λ r s m c. absurd m;
      }

      -- However the search ends (by itself, by an error of the store or of the stream, by the end
      -- of the context), each response that it sent is that of a request to which the root leads,
      -- and no two are of requests with one key.
      pub breadth_first-SoundOutcome :
          (fuel : ℕ) → SoundOutcome (breadth_first key visit peer fuel root)
      unfolding breadth_first
      breadth_first-SoundOutcome fuel =
          breadth_loop-SoundOutcome fuel 0 (root ∷ []) (key root ∷ []) [] start-Inv
