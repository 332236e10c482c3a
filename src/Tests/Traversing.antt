-- ===== src/Tests/Traversing.antt =====
-- A traversal of the v1beta graph store, step by step.
use depscloud.Tracker.Beta.Driver.{sql_driver, join, neighbors as driver_neighbors}
use depscloud.Tracker.Beta.Driver.{read_neighbors}
use depscloud.Tracker.Beta.Server.{neighbors, one_way, process_neighbors, append_edge}
use depscloud.Tracker.Beta.Traverse.{Reach, Step, start, later, poll, receive, hand_over, accept}
use depscloud.Tracker.Beta.Traverse.{answer, send, cancel, returned, Traversal, holding, waiting}
use depscloud.Tracker.Beta.Traverse.Order.{Answered, InOrder, Reach-Sound}
use depscloud.Tracker.Beta.Traverse.Leak.{IsStuck, Step-IsStuck}
use depscloud.Tracker.Beta.Transforms.{convert_graph_data, convert_edge, convert_node, encode}
use depscloud.Tracker.Beta.Transforms.{decode}
use depscloud.Tests.Neighbors.{answers, edge, node, table}
use depscloud.Base.{List, [], false, none, ok, refl, some, true, unsupported, ◌∷◌, ◌≡◌, list_eq}
use depscloud.Base.{nat_eq, option_eq, ℕ_discrete}
use depscloud.Tracker.Beta.Types.{Neighbor, NeighborsRequest}
use depscloud.Base.Bytes.{bytes}
use depscloud.Tracker.Alpha.Types.{key_eq}

abbrev ask : NeighborsRequest
ask = record { node = some (node (bytes "a")); to_node = none; from_node = none }

abbrev reply : List Neighbor
reply = record { node = node (bytes "b"); edges = edge ∷ [] } ∷ []

abbrev served : Traversal
served = record {
  cancelled = false;
  reader = holding ask;
  incoming = none;
  loop = waiting;
  received = ask ∷ ask ∷ [];
  sent = (ask, reply) ∷ [];
}

neighbors-reply : neighbors (sql_driver true answers) 9 ask table ≡ ok reply
unfolding neighbors driver_neighbors read_neighbors join one_way process_neighbors append_edge
    convert_graph_data convert_edge convert_node encode decode list_eq nat_eq ℕ_discrete
    depscloud.Base.Dict.lookup depscloud.Base.Dict.insert
neighbors-reply = refl

served-Reach : Reach (sql_driver true answers) served
served-Reach =
    later
      (later
        (later
          (later
            (later
              (later (later (later start (poll refl refl)) (receive ask refl))
                (hand_over ask refl refl))
              (accept ask refl refl))
            (answer ask reply 9 table refl neighbors-reply))
          (send ask reply refl))
        (poll refl refl))
      (receive ask refl)

Reach-Sound_example : InOrder served × Answered (sql_driver true answers) served
Reach-Sound_example = Reach-Sound (sql_driver true answers) served-Reach

abbrev stuck : Traversal
stuck = record served {
  incoming = some ask;
  loop = returned (some unsupported);
  received = ask ∷ ask ∷ ask ∷ [];
}

cancelling : Step (sql_driver true answers) stuck (record stuck { cancelled = true })
cancelling = cancel

Step-IsStuck_example :
    (record stuck { cancelled = true } ≡ record stuck { cancelled = true })
    × IsStuck (record stuck { cancelled = true })
Step-IsStuck_example =
    Step-IsStuck (sql_driver true answers) cancelling (some unsupported, ask, ask, refl, refl, refl)
