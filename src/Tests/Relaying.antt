-- ===== src/Tests/Relaying.antt =====
-- A search that passes through the gateway, step by step.
use depscloud.Gateway.Search.{Proxy, Reach, passing, start, later}
use depscloud.Gateway.Search.{poll, receive, forward, look, answer, polling}
use depscloud.Gateway.Search.Order.{IsRelay, Reach-IsRelay}
use depscloud.Base.Bytes.{Bytes, bytes}
use depscloud.Base.{[], false, refl, ℕ, ◌∷◌}

abbrev relayed : Proxy ℕ Bytes
relayed = record {
  cancelled = false;
  sender = polling;
  loop = passing (bytes "b");
  asked = 7 ∷ [];
  forwarded = 7 ∷ [];
  answered = bytes "b" ∷ [];
  delivered = [];
}

relayed-Reach : Reach ℕ Bytes relayed
relayed-Reach =
    later
      (later (later (later (later start (poll refl refl)) (receive 7 refl)) (forward 7 refl))
        (look refl refl))
      (answer (bytes "b") refl)

Reach-IsRelay_example : IsRelay relayed
Reach-IsRelay_example = Reach-IsRelay relayed-Reach
