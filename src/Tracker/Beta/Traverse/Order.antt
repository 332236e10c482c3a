-- ===== src/Tracker/Beta/Traverse/Order.antt =====
-- The order of requests and responses in `Traverse` of
-- tracker/internal/graphstore/v1beta/server.go.
use depscloud.Tracker.Beta.Driver.{Driver}
use depscloud.Tracker.Beta.Server.{neighbors}
use depscloud.Base.{List, Option, [], length, map, none, refl, some, ◌++◌, ◌∷◌, ◌≡◌, ap, All}
use depscloud.Base.{All-append, ok, sym, ℕ, ◌∙◌}
use depscloud.Tracker.Beta.Traverse.{Loop, Reader, Step, Traversal, accept, answer, answer_err}
use depscloud.Tracker.Beta.Traverse.{answer_panic, answering, cancel, finish, hand_over, holding}
use depscloud.Tracker.Beta.Traverse.{panicked, poll, poll_done, polling, receive, receive_cancel}
use depscloud.Tracker.Beta.Traverse.{receiving, returned, send, send_err, sending, stopped}
use depscloud.Tracker.Beta.Traverse.{waiting, Reach, later, start}
use depscloud.Tracker.Beta.Types.{Neighbor, NeighborsRequest}
use mathlib.Core.Path.{subst}
use mathlib.Core.List.{append_assoc, map-append}
use depscloud.Tracker.Beta.Manifests.Storage.{store}

abbrev pub in_channel : Option NeighborsRequest → List NeighborsRequest
in_channel none = []
in_channel (some request) = request ∷ []

abbrev pub held : Reader → List NeighborsRequest
held polling = []
held receiving = []
held (holding request) = request ∷ []
held stopped = []

-- The requests that the loop took and did not answer: with an error it ends in the middle of one.
abbrev pub Begun : Loop → List NeighborsRequest → Type 0
Begun waiting rs = rs ≡ []
Begun (answering request) rs = rs ≡ request ∷ []
Begun (sending request found) rs = rs ≡ request ∷ []
Begun (returned none) rs = rs ≡ []
Begun (returned (some e)) rs = length rs ≡ 1
Begun panicked rs = length rs ≡ 1

abbrev pub requests : List (NeighborsRequest × List Neighbor) → List NeighborsRequest
requests sent = map (λ x. x.0) sent

abbrev pub InOrder : Traversal → Type 0
InOrder s =
    (begun : List NeighborsRequest) × Begun s.loop begun
    × (s.received ≡ requests s.sent ++ (begun ++ (in_channel s.incoming ++ held s.reader)))

loop-Begun : {l l' : Loop} (rs : List NeighborsRequest) → l ≡ l' → Begun l rs → Begun l' rs
loop-Begun rs e = subst (λ l. Begun l rs) e

-- What `InOrder` says of the requests, with `i` in the channel and the goroutine in `r`.
abbrev Accounted : Traversal → List NeighborsRequest → Option NeighborsRequest → Reader → Type 0
Accounted s b i r = s.received ≡ requests s.sent ++ (b ++ (in_channel i ++ held r))

append_last :
    (s : Traversal) (b q : List NeighborsRequest) (x : NeighborsRequest)
    → s.received ≡ requests s.sent ++ (b ++ (q ++ []))
    → s.received ++ (x ∷ []) ≡ requests s.sent ++ (b ++ (q ++ (x ∷ [])))
append_last s b q x p =
    ap (λ l. l ++ (x ∷ [])) p
    ∙ append_assoc (requests s.sent) (b ++ (q ++ [])) (x ∷ [])
    ∙ ap (λ l. requests s.sent ++ l) (append_assoc b (q ++ []) (x ∷ []))
    ∙ ap (λ l. requests s.sent ++ (b ++ l)) (append_assoc q [] (x ∷ []))

at_reader :
    (s : Traversal) (b : List NeighborsRequest) {r : Reader}
    → s.reader ≡ r
    → Accounted s b s.incoming s.reader
    → Accounted s b s.incoming r
at_reader s b e = subst (Accounted s b s.incoming) e

module _ {S : Type 0} (driver : Driver S) where
  Step-InOrder : {s t : Traversal} → Step driver s t → InOrder s → InOrder t
  Step-InOrder {s} (poll r c) (b, l, p) = (b, l, at_reader s b r p)
  Step-InOrder {s} (poll_done r c) (b, l, p) = (b, l, at_reader s b r p)
  Step-InOrder {s} (receive request r) (b, l, p) =
      (b, l, append_last s b (in_channel s.incoming) request (at_reader s b r p))
  Step-InOrder {s} (receive_cancel r) (b, l, p) = (b, l, at_reader s b r p)
  Step-InOrder {s} (hand_over request r i) (b, l, p) =
      (b, l, subst (λ i. Accounted s b i (holding request)) i (at_reader s b r p))
  Step-InOrder {s} (accept request l' i) (b, l, p) = (
    request ∷ [],
    refl,
    subst (λ i. Accounted s b i s.reader) i p
        ∙ ap (λ b. requests s.sent ++ (b ++ (request ∷ held s.reader))) (loop-Begun b l' l),
  )
  Step-InOrder (finish l' c) (b, l, p) = (b, loop-Begun b l' l, p)
  Step-InOrder (answer request found now store l' f) (b, l, p) = (b, loop-Begun b l' l, p)
  Step-InOrder (answer_err request e now store l' f) (b, l, p) =
      (b, ap length (loop-Begun b l' l), p)
  Step-InOrder (answer_panic request now store l' f) (b, l, p) =
      (b, ap length (loop-Begun b l' l), p)
  Step-InOrder {s} (send request found l') (b, l, p) =
      let rest = in_channel s.incoming ++ held s.reader in
      (
        [],
        refl,
        p
            ∙ ap (λ b. requests s.sent ++ (b ++ rest)) (loop-Begun b l' l)
            ∙ sym (append_assoc (requests s.sent) (request ∷ []) rest)
            ∙ ap (λ l. l ++ rest) (sym (map-append (λ x. x.0) s.sent ((request, found) ∷ []))),
      )
  Step-InOrder (send_err request found e l') (b, l, p) = (b, ap length (loop-Begun b l' l), p)
  Step-InOrder cancel q = q

  Reach-InOrder : {s : Traversal} → Reach driver s → InOrder s
  Reach-InOrder start = ([], refl, refl)
  Reach-InOrder (later before step) = Step-InOrder step (Reach-InOrder before)

  -- What `Neighbors` finds for a request, at some time and in some state of the store.
  abbrev pub IsAnswer : NeighborsRequest → List Neighbor → Type 0
  IsAnswer request found = (now : ℕ) × (store : S) × (neighbors driver now request store ≡ ok found)

  abbrev pub Ready : Loop → Type 0
  Ready (sending request found) = IsAnswer request found
  Ready _ = Unit {0}

  abbrev pub Answered : Traversal → Type 0
  Answered s = Ready s.loop × All (λ x. IsAnswer x.0 x.1) s.sent

  Step-Answered : {s t : Traversal} → Step driver s t → Answered s → Answered t
  Step-Answered (poll r c) q = q
  Step-Answered (poll_done r c) q = q
  Step-Answered (receive request r) q = q
  Step-Answered (receive_cancel r) q = q
  Step-Answered (hand_over request r i) q = q
  Step-Answered (accept request l' i) (r, q) = (tt, q)
  Step-Answered (finish l' c) (r, q) = (tt, q)
  Step-Answered (answer request found now store l' f) (r, q) = ((now, store, f), q)
  Step-Answered (answer_err request e now store l' f) (r, q) = (tt, q)
  Step-Answered (answer_panic request now store l' f) (r, q) = (tt, q)
  Step-Answered {s} (send request found l') (r, q) =
      (tt, All-append (λ x. IsAnswer x.0 x.1) s.sent _ q (subst Ready l' r, tt))
  Step-Answered (send_err request found e l') (r, q) = (tt, q)
  Step-Answered cancel q = q

  Reach-Answered : {s : Traversal} → Reach driver s → Answered s
  Reach-Answered start = (tt, tt)
  Reach-Answered (later before step) = Step-Answered step (Reach-Answered before)

  -- In every state that `Traverse` reaches, the requests received are those of the responses sent, in
  -- their order, then the one that the loop is busy with, or that it returned with an error or
  -- panicked in, then the one in the channel and the one that the goroutine holds; and each response
  -- sent, and the one about to be sent, is what `Neighbors` finds for its request.
  pub Reach-Sound : {s : Traversal} → Reach driver s → InOrder s × Answered s
  Reach-Sound r = (Reach-InOrder r, Reach-Answered r)
