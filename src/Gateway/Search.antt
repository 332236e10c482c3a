-- ===== src/Gateway/Search.antt =====
-- `process` of gateway/internal/proxies/search.go, which the three searches share: a goroutine that
-- passes requests on to the tracker, and a loop that passes its responses back. A step is one action
-- of one of them.
pub mod Order
use depscloud.Base.{Error, Bool, List, Option, [], false, none, some, true, ◌++◌, ◌∷◌, ◌≡◌}

module _ (Req Resp : Type 0) where
  -- The goroutine: at its select, in `server.Recv`, in `client.Send`, or returned.
  pub data Sender : Type 0 where
    polling : Sender
    receiving : Sender
    sending : Req → Sender
    stopped : Sender

  -- The loop: at its select, in `client.Recv`, in `server.Send`, or returned.
  pub data Loop : Type 0 where
    looking : Loop
    waiting : Loop
    passing : Resp → Loop
    returned : Option Error → Loop

  -- Both, with the requests that came in and went out, and the responses that came back and went out.
  pub record Proxy : Type 0 where
    pub cancelled : Bool
    pub sender : Sender
    pub loop : Loop
    pub asked : List Req
    pub forwarded : List Req
    pub answered : List Resp
    pub delivered : List Resp

  abbrev pub opened : Proxy
  opened = record {
    cancelled = false;
    sender = polling;
    loop = looking;
    asked = [];
    forwarded = [];
    answered = [];
    delivered = [];
  }

  pub data Step (s : Proxy) : Proxy → Type 0 where
    poll : s.sender ≡ polling → s.cancelled ≡ false → Step s (record s { sender = receiving })
    poll_done : s.sender ≡ polling → s.cancelled ≡ true → Step s (record s { sender = stopped })
    receive :
        (request : Req)
        → s.sender ≡ receiving
        → Step s (record s { sender = sending request; asked = s.asked ++ (request ∷ []) })
    receive_err : s.sender ≡ receiving → Step s (record s { sender = stopped })
    forward :
        (request : Req)
        → s.sender ≡ sending request
        → Step s (record s { sender = polling; forwarded = s.forwarded ++ (request ∷ []) })
    forward_err :
        (request : Req) → s.sender ≡ sending request → Step s (record s { sender = stopped })
    look : s.loop ≡ looking → s.cancelled ≡ false → Step s (record s { loop = waiting })
    look_done : s.loop ≡ looking → s.cancelled ≡ true → Step s (record s { loop = returned none })
    answer :
        (response : Resp)
        → s.loop ≡ waiting
        → Step s (record s { loop = passing response; answered = s.answered ++ (response ∷ []) })
    end_of_file : s.loop ≡ waiting → Step s (record s { loop = returned none; cancelled = true })
    answer_err :
        (e : Error)
        → s.loop ≡ waiting
        → Step s (record s { loop = returned (some e); cancelled = true })
    deliver :
        (response : Resp)
        → s.loop ≡ passing response
        → Step s (record s { loop = looking; delivered = s.delivered ++ (response ∷ []) })
    deliver_err :
        (response : Resp) (e : Error)
        → s.loop ≡ passing response
        → Step s (record s { loop = returned (some e); cancelled = true })
    -- The context of the caller ends.
    cancel : Step s (record s { cancelled = true })

  pub data Reach : Proxy → Type 0 where
    start : Reach opened
    later : {s t : Proxy} → Reach s → Step s t → Reach t
