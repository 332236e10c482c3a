-- ===== src/Tracker/Beta/Transforms.antt =====
-- tracker/internal/graphstore/v1beta/transforms.go
-- `encode`
pub mod RoundTrip
use depscloud.Base.Bytes.{Bytes}
use depscloud.Tracker.Beta.Types.{Edge, GraphData, Node, protocol_buffers}
use depscloud.Base.{Option, [], if◌then◌else◌, list_eq, nat_eq, none, option_eq, some, ℕ, ◌==◌}
use depscloud.Tracker.Alpha.Types.{key_eq}
use depscloud.Codec.Base64.{std_decode, std_encode}

unfoldable pub encode : Bytes → ℕ → Bytes
encode x encoding = if encoding == protocol_buffers then std_encode x else x

-- `decode`, where `none` is an error.
unfoldable pub decode : Bytes → ℕ → Option Bytes
decode x encoding = if encoding == protocol_buffers then std_decode x else some x

-- `ConvertNode`, at a time.
unfoldable pub convert_node : Node → ℕ → ℕ → GraphData
unfolding encode
convert_node n encoding now = record {
  k1 = n.key;
  k2 = n.key;
  k3 = [];
  kind = n.type_url;
  encoding = encoding;
  data_ = encode n.value encoding;
  date_deleted = none;
  last_modified = now;
}

-- `ConvertEdge`
unfoldable pub convert_edge : Edge → ℕ → ℕ → GraphData
unfolding encode
convert_edge e encoding now = record {
  k1 = e.from_key;
  k2 = e.to_key;
  k3 = e.key;
  kind = e.type_url;
  encoding = encoding;
  data_ = encode e.value encoding;
  date_deleted = none;
  last_modified = now;
}

-- What `ConvertGraphData` makes of a row: one of its two results is nil.
pub data Converted : Type 0 where
  as_node : Node → Converted
  as_edge : Edge → Converted

-- `ConvertGraphData`, where `none` is an error.
unfoldable pub convert_graph_data : GraphData → Option Converted
unfolding decode
convert_graph_data item = elim (decode item.data_ item.encoding) [
  | none ↦ none
  | some value ↦ some (
      if item.k1 == item.k2
      then as_node (record { key = item.k1; type_url = item.kind; value = value })
      else as_edge (record {
        from_key = item.k1;
        to_key = item.k2;
        key = item.k3;
        type_url = item.kind;
        value = value;
      }))
]
