-- ===== src/Gateway/Search/Order.antt =====
-- The order of requests and responses in `process` of gateway/internal/proxies/search.go.
use depscloud.Base.{List, [], ap, arith, length, refl, some, sym, ◌++◌, ◌∙◌, ◌∷◌, ◌≡◌, ◌≤◌}
use depscloud.Gateway.Search.{Sender, Loop, Proxy, Step, Reach, sending, stopped, passing}
use depscloud.Gateway.Search.{returned, poll, poll_done, receive, receive_err, forward}
use depscloud.Gateway.Search.{forward_err, look, look_done, answer, end_of_file, answer_err}
use depscloud.Gateway.Search.{deliver, deliver_err, cancel, start, later}
use mathlib.Core.List.{append-nil}
use mathlib.Core.Path.{subst}

module _ {A : Type 0} where
  length-one : (rs : List A) (a : A) → rs ≡ a ∷ [] → length rs ≤ 1
  length-one rs a e = rw e (omega arith)

  length-nil : (rs : List A) → rs ≡ [] → length rs ≤ 1
  length-nil rs e = rw e (omega arith)

  -- An item that comes in behind those that went out.
  append_in :
      (xs ys rs : List A) (a : A) → xs ≡ ys ++ rs → rs ≡ [] → xs ++ (a ∷ []) ≡ ys ++ (a ∷ [])
  append_in xs ys rs a p e = ap (λ l. l ++ (a ∷ [])) (p ∙ ap (λ l. ys ++ l) e ∙ append-nil ys)

  append_out :
      (xs ys rs : List A) (a : A) → xs ≡ ys ++ rs → rs ≡ a ∷ [] → xs ≡ (ys ++ (a ∷ [])) ++ []
  append_out xs ys rs a p e = p ∙ ap (λ l. ys ++ l) e ∙ sym (append-nil (ys ++ (a ∷ [])))

module _ {Req Resp : Type 0} where
  -- The requests that came in and did not go out: the one that is on its way, or the one that the
  -- goroutine returned with.
  abbrev pub Held : Sender Req Resp → List Req → Type 0
  Held (sending request) rs = rs ≡ request ∷ []
  Held stopped rs = length rs ≤ 1
  Held _ rs = rs ≡ []

  abbrev pub Kept : Loop Req Resp → List Resp → Type 0
  Kept (passing response) rs = rs ≡ response ∷ []
  Kept (returned (some e)) rs = length rs ≤ 1
  Kept _ rs = rs ≡ []

  abbrev pub IsRelay : Proxy Req Resp → Type 0
  IsRelay s =
      ((held : List Req) × Held s.sender held × (s.asked ≡ s.forwarded ++ held))
      × ((kept : List Resp) × Kept s.loop kept × (s.answered ≡ s.delivered ++ kept))

  sender-Held : {x y : Sender Req Resp} (rs : List Req) → x ≡ y → Held x rs → Held y rs
  sender-Held rs e = subst (λ x. Held x rs) e

  loop-Kept : {x y : Loop Req Resp} (rs : List Resp) → x ≡ y → Kept x rs → Kept y rs
  loop-Kept rs e = subst (λ x. Kept x rs) e

  Step-IsRelay : {s t : Proxy Req Resp} → Step Req Resp s t → IsRelay s → IsRelay t
  Step-IsRelay (poll e c) ((h, l, p), q) = ((h, sender-Held h e l, p), q)
  Step-IsRelay (poll_done e c) ((h, l, p), q) = ((h, length-nil h (sender-Held h e l), p), q)
  Step-IsRelay {s} (receive r e) ((h, l, p), q) =
      ((r ∷ [], refl, append_in s.asked s.forwarded h r p (sender-Held h e l)), q)
  Step-IsRelay (receive_err e) ((h, l, p), q) = ((h, length-nil h (sender-Held h e l), p), q)
  Step-IsRelay {s} (forward r e) ((h, l, p), q) =
      (([], refl, append_out s.asked s.forwarded h r p (sender-Held h e l)), q)
  Step-IsRelay (forward_err r e) ((h, l, p), q) = ((h, length-one h r (sender-Held h e l), p), q)
  Step-IsRelay (look e c) (q, (k, l, p)) = (q, (k, loop-Kept k e l, p))
  Step-IsRelay (look_done e c) (q, (k, l, p)) = (q, (k, loop-Kept k e l, p))
  Step-IsRelay {s} (answer r e) (q, (k, l, p)) =
      (q, (r ∷ [], refl, append_in s.answered s.delivered k r p (loop-Kept k e l)))
  Step-IsRelay (end_of_file e) (q, (k, l, p)) = (q, (k, loop-Kept k e l, p))
  Step-IsRelay (answer_err x e) (q, (k, l, p)) = (q, (k, length-nil k (loop-Kept k e l), p))
  Step-IsRelay {s} (deliver r e) (q, (k, l, p)) =
      (q, ([], refl, append_out s.answered s.delivered k r p (loop-Kept k e l)))
  Step-IsRelay (deliver_err r x e) (q, (k, l, p)) = (q, (k, length-one k r (loop-Kept k e l), p))
  Step-IsRelay cancel q = q

  -- In every state that the proxy reaches, the requests that came in are those that went out to the
  -- tracker, in their order, and at most one that is on its way or was lost with the end of the
  -- goroutine; and the responses that came back are those that went out to the caller, in their
  -- order, and at most one that is on its way or was lost with an error.
  pub Reach-IsRelay : {s : Proxy Req Resp} → Reach Req Resp s → IsRelay s
  Reach-IsRelay start = (([], refl, refl), ([], refl, refl))
  Reach-IsRelay (later before step) = Step-IsRelay step (Reach-IsRelay before)
