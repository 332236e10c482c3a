-- ===== src/Tracker/Alpha/Traversal.antt =====
-- The loops of `BreadthFirstSearch` and `DepthFirstSearch` in
-- tracker/internal/services/v1alpha/service_search.go, over any requests: `visit` stands for
-- `processRequest` with `transformResponse` after it, and `key` for `keyFor`. The map `seen` is the
-- list of its keys, in the order in which they were added.
pub mod Tier
pub mod Breadth
pub mod Depth
pub mod Complete
pub mod Pigeonhole
pub mod Refusal
use depscloud.Base.{◌>>=◌, Bool, Error, List, Option, Result, [], contains, err, false}
use depscloud.Base.{get_last?, if◌then◌else◌, length, list_eq, nat_eq, none, ok, option_eq}
use depscloud.Base.{panic, some, suc, true, zero, ℕ, ◌++◌, ◌+◌, ◌∷◌}
use depscloud.Base.Bytes.{Bytes}
use depscloud.Tracker.Alpha.Types.{key_eq}

-- What the other side of the stream does: the answer to the n-th send, and whether the context is
-- done when the n-th select looks at it. `consumeStream` receives a single request, so that the
-- other case of the select is never ready.
pub record Peer : Type 0 where
  pub send : ℕ → Option Error
  pub done : ℕ → Bool

-- How a search ends: it returns an error or nil, it panics, or it uses up its fuel; with the
-- responses that were sent before.
pub data Outcome (Resp : Type 0) : Type 0 where
  returned : Option Error → List Resp → Outcome Resp
  panicked : List Resp → Outcome Resp
  out_of_fuel : Outcome Resp

-- `for _, response := range toSend`
unfoldable pub flush :
    {Resp : Type 0} → (ℕ → Option Error) → List Resp → List Resp → List Resp × Option Error
flush send [] sent = (sent, none)
flush send (resp ∷ resps) sent = elim (send (length sent)) [
  | some e ↦ (sent, some e)
  | none ↦ flush send resps (sent ++ (resp ∷ []))
]

module _ {Req Resp : Type 0} (key : Req → Bytes) (visit : Req → Result (Resp × List Req)) where
  -- `for _, item := range nextBatch`
  unfoldable pub offer : List Req → List Bytes → List Req → List Req × List Bytes
  offer [] seen next = (next, seen)
  offer (item ∷ items) seen next =
      let old = contains seen (key item) in
      offer items (if old then seen else seen ++ (key item ∷ []))
        (if old then next else next ++ (item ∷ []))

  -- `for i := 0; i < length; i++`
  unfoldable pub tier :
      List Req → List Bytes → List Req → Result (List Resp × List Req × List Bytes)
  tier [] seen next = ok ([], next, seen)
  tier (r ∷ rs) seen next = do
    (resp, batch) ← visit r
    (resps, next', seen') ← tier rs (offer batch seen next).1 (offer batch seen next).0
    ok (resp ∷ resps, next', seen')

  module _ (peer : Peer) where
    -- `select`, after which the search returns nil or goes on.
    unfoldable pub select : ℕ → List Resp → Outcome Resp → Outcome Resp
    select n sent more = elim (peer.done n) [ true ↦ returned none sent | false ↦ more ]

    -- `// flush responses` and the select behind it.
    unfoldable pub after_flush :
        ℕ → (List Resp → Outcome Resp) → List Resp × Option Error → Outcome Resp
    after_flush n more (sent, some e) = returned (some e) sent
    after_flush n more (sent, none) = select n sent (more sent)

    unfoldable pub after_tier :
        ℕ
        → (List Req → List Bytes → List Resp → Outcome Resp)
        → List Resp
        → Result (List Resp × List Req × List Bytes)
        → Outcome Resp
    after_tier n more sent (err e) = returned (some e) sent
    after_tier n more sent panic = panicked sent
    after_tier n more sent (ok (resps, next, seen)) =
        after_flush n (more next seen) (flush peer.send resps sent)

    -- The outer loop of the breadth first search.
    unfoldable pub breadth_loop : ℕ → ℕ → List Req → List Bytes → List Resp → Outcome Resp
    breadth_loop zero n queue seen sent = out_of_fuel
    breadth_loop (suc fuel) n [] seen sent = returned none sent
    breadth_loop (suc fuel) n (r ∷ rs) seen sent =
        after_tier n (breadth_loop fuel (n + 1)) sent (tier (r ∷ rs) seen [])

    unfoldable pub breadth_first : ℕ → Req → Outcome Resp
    unfolding breadth_loop after_tier after_flush select flush tier offer
    breadth_first fuel root = breadth_loop fuel 0 (root ∷ []) (key root ∷ []) []

    -- The rest of a round of the depth first search, after `processRequest` and
    -- `transformResponse`. The stack of the next round is the batch of this one alone.
    unfoldable pub after_visit :
        ℕ
        → (List Req → List Bytes → List Resp → Outcome Resp)
        → List Bytes
        → List Resp
        → Result (Resp × List Req)
        → Outcome Resp
    after_visit n more seen sent (err e) = returned (some e) sent
    after_visit n more seen sent panic = panicked sent
    after_visit n more seen sent (ok (resp, batch)) =
        let next = offer batch seen [] in
        after_flush n (more next.0 next.1) (flush peer.send (resp ∷ []) sent)

    -- The loop of the depth first search, which takes the last request of the stack.
    unfoldable pub depth_loop : ℕ → ℕ → List Req → List Bytes → List Resp → Outcome Resp
    depth_loop zero n stack seen sent = out_of_fuel
    depth_loop (suc fuel) n stack seen sent = elim (get_last? stack) [
      | none ↦ returned none sent
      | some node ↦ after_visit n (depth_loop fuel (n + 1)) seen sent (visit node)
    ]

    unfoldable pub depth_first : ℕ → Req → Outcome Resp
    unfolding depth_loop after_visit after_flush select flush offer
    depth_first fuel root = depth_loop fuel 0 (root ∷ []) (key root ∷ []) []
