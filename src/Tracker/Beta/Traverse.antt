-- ===== src/Tracker/Beta/Traverse.antt =====
-- `Traverse` of tracker/internal/graphstore/v1beta/server.go: the goroutine that receives requests,
-- the channel `incoming` of one place, and the loop that answers. A step is one action of one of
-- them. A request that is nil is one without nodes.
pub mod Order
pub mod Leak
use depscloud.Tracker.Beta.Server.{neighbors}
use depscloud.Tracker.Beta.Driver.{Driver}
use depscloud.Base.{Bool, Error, List, Option, [], err, false, none, ok, panic, some, true, ℕ}
use depscloud.Base.{◌++◌, ◌∷◌, ◌≡◌}
use depscloud.Tracker.Beta.Types.{Neighbor, NeighborsRequest}

-- The goroutine: at its select, in `Recv`, at the send to `incoming` with a request, or returned.
pub data Reader : Type 0 where
  polling : Reader
  receiving : Reader
  holding : NeighborsRequest → Reader
  stopped : Reader

-- The loop: at its select, in `Neighbors`, in `Send`, or returned, and a panic.
pub data Loop : Type 0 where
  waiting : Loop
  answering : NeighborsRequest → Loop
  sending : NeighborsRequest → List Neighbor → Loop
  returned : Option Error → Loop
  panicked : Loop

-- Both, with the requests that were received and the responses that were sent.
pub record Traversal : Type 0 where
  pub cancelled : Bool
  pub reader : Reader
  pub incoming : Option NeighborsRequest
  pub loop : Loop
  pub received : List NeighborsRequest
  pub sent : List (NeighborsRequest × List Neighbor)

abbrev pub opened : Traversal
opened = record {
  cancelled = false;
  reader = polling;
  incoming = none;
  loop = waiting;
  received = [];
  sent = [];
}

module _ {S : Type 0} (driver : Driver S) where
  -- The store may change from one call of `Neighbors` to the next.
  pub data Step (s : Traversal) : Traversal → Type 0 where
    poll : s.reader ≡ polling → s.cancelled ≡ false → Step s (record s { reader = receiving })
    poll_done : s.reader ≡ polling → s.cancelled ≡ true → Step s (record s { reader = stopped })
    receive :
        (request : NeighborsRequest)
        → s.reader ≡ receiving
        → Step s (record s { reader = holding request; received = s.received ++ (request ∷ []) })
    receive_cancel : s.reader ≡ receiving → Step s (record s { reader = stopped; cancelled = true })
    hand_over :
        (request : NeighborsRequest)
        → s.reader ≡ holding request
        → s.incoming ≡ none
        → Step s (record s { reader = polling; incoming = some request })
    accept :
        (request : NeighborsRequest)
        → s.loop ≡ waiting
        → s.incoming ≡ some request
        → Step s (record s { incoming = none; loop = answering request })
    finish : s.loop ≡ waiting → s.cancelled ≡ true → Step s (record s { loop = returned none })
    answer :
        (request : NeighborsRequest) (found : List Neighbor) (now : ℕ) (store : S)
        → s.loop ≡ answering request
        → neighbors driver now request store ≡ ok found
        → Step s (record s { loop = sending request found })
    answer_err :
        (request : NeighborsRequest) (e : Error) (now : ℕ) (store : S)
        → s.loop ≡ answering request
        → neighbors driver now request store ≡ err e
        → Step s (record s { loop = returned (some e); cancelled = true })
    answer_panic :
        (request : NeighborsRequest) (now : ℕ) (store : S)
        → s.loop ≡ answering request
        → neighbors driver now request store ≡ panic
        → Step s (record s { loop = panicked; cancelled = true })
    send :
        (request : NeighborsRequest) (found : List Neighbor)
        → s.loop ≡ sending request found
        → Step s (record s { loop = waiting; sent = s.sent ++ ((request, found) ∷ []) })
    send_err :
        (request : NeighborsRequest) (found : List Neighbor) (e : Error)
        → s.loop ≡ sending request found
        → Step s (record s { loop = returned (some e); cancelled = true })
    -- The client or the server ends the context of the stream.
    cancel : Step s (record s { cancelled = true })

  pub data Reach : Traversal → Type 0 where
    start : Reach opened
    later : {s t : Traversal} → Reach s → Step s t → Reach t
