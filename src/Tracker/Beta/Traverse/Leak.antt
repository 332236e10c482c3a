-- ===== src/Tracker/Beta/Traverse/Leak.antt =====
-- After `Traverse` of tracker/internal/graphstore/v1beta/server.go has returned.
use depscloud.Base.{arith, Error, Option, refl, some, ◌≡◌}
use depscloud.Tracker.Beta.Driver.{Driver}
use depscloud.Tracker.Beta.Types.{NeighborsRequest}
use depscloud.Tracker.Beta.Traverse.{Step, Traversal, accept, answer, answer_err, answer_panic}
use depscloud.Tracker.Beta.Traverse.{cancel, finish, hand_over, holding, poll, poll_done}
use depscloud.Tracker.Beta.Traverse.{receive, receive_cancel, returned, send, send_err}

-- The loop has returned, and the goroutine stands at its send to the channel, which is full.
abbrev pub IsStuck : Traversal → Type 0
IsStuck s =
    (result : Option Error) × (queued : NeighborsRequest) × (request : NeighborsRequest) × (s.loop
      ≡ returned result)
    × (s.incoming ≡ some queued)
    × (s.reader ≡ holding request)

module _ {S : Type 0} (driver : Driver S) where
  -- The goroutine never leaves its send to the channel once the loop has returned while the channel
  -- is full: only the flag `cancelled` can still change.
  pub Step-IsStuck :
      {s t : Traversal}
      → Step driver s t
      → IsStuck s
      → (t ≡ record s { cancelled = t.cancelled }) × IsStuck t
  Step-IsStuck (poll r c) (x, q, h, l, i, e) = grind arith
  Step-IsStuck (poll_done r c) (x, q, h, l, i, e) = grind arith
  Step-IsStuck (receive request r) (x, q, h, l, i, e) = grind arith
  Step-IsStuck (receive_cancel r) (x, q, h, l, i, e) = grind arith
  Step-IsStuck (hand_over request r i') (x, q, h, l, i, e) = grind arith
  Step-IsStuck (accept request l' i') (x, q, h, l, i, e) = grind arith
  Step-IsStuck (finish l' c) (x, q, h, l, i, e) = grind arith
  Step-IsStuck (answer request found now store l' f) (x, q, h, l, i, e) = grind arith
  Step-IsStuck (answer_err request e' now store l' f) (x, q, h, l, i, e) = grind arith
  Step-IsStuck (answer_panic request now store l' f) (x, q, h, l, i, e) = grind arith
  Step-IsStuck (send request found l') (x, q, h, l, i, e) = grind arith
  Step-IsStuck (send_err request found e' l') (x, q, h, l, i, e) = grind arith
  Step-IsStuck cancel q = (refl, q)
