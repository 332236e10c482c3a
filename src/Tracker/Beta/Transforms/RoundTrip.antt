-- ===== src/Tracker/Beta/Transforms/RoundTrip.antt =====
-- `ConvertGraphData` reads back what `ConvertNode` and `ConvertEdge` write.
use depscloud.Tracker.Beta.Transforms.{encode, decode, as_edge, as_node, convert_edge}
use depscloud.Tracker.Beta.Transforms.{convert_graph_data, convert_node}
use depscloud.Base.Bytes.{AreBytes, Bytes}
use depscloud.Base.{Bool-cases, arith, inl, inr, list_eq, nat_eq, option_eq, refl, some, ℕ, ◌==◌}
use depscloud.Base.{◌≡◌, ◌≢◌}
use depscloud.Tracker.Beta.Types.{Edge, Node, protocol_buffers}
use depscloud.Tracker.Alpha.Types.{key_eq}
use depscloud.Codec.Base64.RoundTrip.{std_decode-std_encode}

pub data-decode :
    (x : Bytes) (encoding : ℕ) → AreBytes x → decode (encode x encoding) encoding ≡ some x
unfolding encode decode
data-decode x encoding h = elim (Bool-cases (encoding == protocol_buffers)) [
  | inl binary ↦ rw (binary) (std_decode-std_encode x h)
  | inr text ↦ rw (text) refl
]

pub convert_graph_data-convert_node :
    (n : Node) (encoding now : ℕ)
    → AreBytes n.value
    → convert_graph_data (convert_node n encoding now) ≡ some (as_node n)
unfolding convert_graph_data convert_node
convert_graph_data-convert_node n encoding now h =
    rw (data-decode n.value encoding h, convert_graph_data) (ground arith)

pub convert_graph_data-convert_edge :
    (e : Edge) (encoding now : ℕ)
    → AreBytes e.value
    → e.from_key ≢ e.to_key
    → convert_graph_data (convert_edge e encoding now) ≡ some (as_edge e)
unfolding convert_graph_data convert_edge
convert_graph_data-convert_edge e encoding now h differ =
    rw (data-decode e.value encoding h, convert_graph_data) (ground arith)

-- In every encoding a node, and an edge between two keys, come back whole from the row that they are
-- stored as. An edge from a key to itself comes back as a node of that key, without its own key.
pub convert_graph_data_round_trip :
    (n : Node) (e loop : Edge) (encoding now : ℕ)
    → AreBytes n.value
    → AreBytes e.value
    → AreBytes loop.value
    → e.from_key ≢ e.to_key
    → loop.from_key ≡ loop.to_key
    → (convert_graph_data (convert_node n encoding now) ≡ some (as_node n))
      × (convert_graph_data (convert_edge e encoding now) ≡ some (as_edge e))
      × (convert_graph_data (convert_edge loop encoding now)
          ≡ some (
              as_node
                (record { key = loop.from_key; type_url = loop.type_url; value = loop.value })))
unfolding convert_graph_data convert_edge
convert_graph_data_round_trip n e loop encoding now hn he hl differ same = (
  convert_graph_data-convert_node n encoding now hn,
  convert_graph_data-convert_edge e encoding now he differ,
  rw (data-decode loop.value encoding hl, convert_graph_data) (ground arith),
)
