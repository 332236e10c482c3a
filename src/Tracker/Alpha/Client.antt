-- ===== src/Tracker/Alpha/Client.antt =====
-- `store.GraphStoreClient`: what the services of tracker/internal/services/v1alpha use of the graph
-- store, over any state of the store. A read may fail, and leaves the state as it is.
use depscloud.Base.{All, In, List, Option, Result, contains, if◌then◌else◌, list_eq, nat_eq}
use depscloud.Base.{none, ok, option_eq, some, true, ◌≡◌, ℕ}
use depscloud.Tracker.Alpha.Types.{FindRequest, GraphItem, GraphItemPair, Key, ListRequest}
use depscloud.Tracker.Alpha.Types.{key_eq}
use depscloud.Tracker.Alpha.Store.Writes.{last_for, names_key}
use depscloud.Base.Bytes.{AreBytes, Bytes}

pub record GraphStoreClient (S : Type 0) : Type 0 where
  pub list_items : ListRequest → S → Result (List GraphItem)
  pub upstream : FindRequest → S → Result (List GraphItemPair)
  pub downstream : FindRequest → S → Result (List GraphItemPair)
  pub put_items : List GraphItem → S → Result (Unit {0}) × S
  pub delete_items : List GraphItem → S → Result (Unit {0}) × S

-- What an answer of `FindUpstream` promises of each pair.
pub record Fits (req : FindRequest) (p : GraphItemPair) : Type 0 where
  pub edge_type : contains req.edge_types p.edge.graph_item_type ≡ true
  pub node_type : contains req.node_types p.node.graph_item_type ≡ true
  pub source_key : All AreBytes req.keys → In p.edge.k1 req.keys

module _ {S : Type 0} (client : GraphStoreClient S) where
  -- The contract that `Track` relies on: answers fit the request, and a call that reports success
  -- has done what it was to do to the view, which maps a primary key to the encoding and the data
  -- of its item, and has done nothing else.
  pub record IsStore (view : S → Key → Option (ℕ × Bytes)) : Type 0 where
    pub fits :
        (req : FindRequest) (s : S) (pairs : List GraphItemPair)
        → client.upstream req s ≡ ok pairs
        → All (Fits req) pairs
    pub puts :
        (items : List GraphItem) (s s' : S)
        → client.put_items items s ≡ (ok tt, s')
        → (k : Key)
        → view s' k ≡ elim (last_for k items) [
          | none ↦ view s k
          | some item ↦ some (item.encoding, item.graph_item_data)
        ]
    pub deletes :
        (items : List GraphItem) (s s' : S)
        → client.delete_items items s ≡ (ok tt, s')
        → (k : Key) → view s' k ≡ (if names_key k items then none else view s k)
