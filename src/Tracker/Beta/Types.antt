-- ===== src/Tracker/Beta/Types.antt =====
-- The messages of the v1beta graph store, by the fields that the code uses, and `GraphData` of
-- tracker/internal/graphstore/v1beta/graphitem.go.
-- `graphstore.Node`, with the two fields of its body.
use depscloud.Base.Bytes.{Bytes}
use depscloud.Base.{List, Option, ℕ}

pub record Node : Type 0 where
  pub key : Bytes
  pub type_url : Bytes
  pub value : Bytes

-- `graphstore.Edge`
pub record Edge : Type 0 where
  pub from_key : Bytes
  pub to_key : Bytes
  pub key : Bytes
  pub type_url : Bytes
  pub value : Bytes

-- `graphstore.Neighbor`
pub record Neighbor : Type 0 where
  pub node : Node
  pub edges : List Edge

-- `GraphData`, a row of the table `graph_data`. The name of the collection is not stored.
pub record GraphData : Type 0 where
  pub k1 : Bytes
  pub k2 : Bytes
  pub k3 : Bytes
  pub kind : Bytes
  pub encoding : ℕ
  pub data_ : Bytes
  pub date_deleted : Option ℕ
  pub last_modified : ℕ

-- `EncodingProtocolBuffers`
abbrev pub protocol_buffers : ℕ
protocol_buffers = 2

-- `graphstore.PutRequest`, and `graphstore.DeleteRequest`.
pub record WriteRequest : Type 0 where
  pub nodes : List Node
  pub edges : List Edge

-- `graphstore.NeighborsRequest`
pub record NeighborsRequest : Type 0 where
  pub node : Option Node
  pub to_node : Option Node
  pub from_node : Option Node
