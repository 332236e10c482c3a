-- ===== src/Tracker/Alpha/Types.antt =====
-- The messages of the v1alpha graph store, by the fields that the code reads and writes, and the
-- rows of the table `dts_graphdata`.
-- `store.GraphItem`
use depscloud.Base.Bytes.{Bytes}
use depscloud.Base.{Eq, List, Option, list_eq, nat_eq, option_eq, ℕ, ℕ_discrete}
use depscloud.Base.Int32.{ℤ}

pub record GraphItem : Type 0 where
  pub graph_item_type : Bytes
  pub k1 : Bytes
  pub k2 : Bytes
  pub k3 : Bytes
  pub encoding : ℕ
  pub graph_item_data : Bytes

-- The columns of the primary key, where k1, k2 and k3 hold base64 text.
pub record Key : Type 0 where
  pub graph_item_type : Bytes
  pub k1 : Bytes
  pub k2 : Bytes
  pub k3 : Bytes

-- A row: times are numbers, and NULL is `none`.
pub record Row : Type 0 where
  pub key : Key
  pub encoding : ℕ
  pub graph_item_data : Bytes
  pub last_modified : ℕ
  pub date_deleted : Option ℕ

-- `store.GraphItemPair`
pub record GraphItemPair : Type 0 where
  pub edge : GraphItem
  pub node : GraphItem

-- `store.FindRequest`
pub record FindRequest : Type 0 where
  pub keys : List Bytes
  pub edge_types : List Bytes
  pub node_types : List Bytes

-- `store.ListRequest`, with its two `int32` fields.
pub record ListRequest : Type 0 where
  pub page : ℤ
  pub count : ℤ
  pub item_type : Bytes

key_dec : Discrete Key
key_dec = hlevel ℕ_discrete

instance unfoldable pub key_eq : Eq Key
unfolding key_dec
key_eq = record { dec = key_dec }
