-- ===== src/Tracker/Beta/Listing.antt =====
-- `List` and `paginate` of tracker/internal/graphstore/v1beta/server.go, over any driver.
pub mod Tokens
pub mod Pages
use depscloud.Codec.Base32.{encode, decode, digit}
use depscloud.Base.{List, Result, panic, ok, ◌>>=◌, [], if◌then◌else◌, length, list_eq, ltb}
use depscloud.Base.{nat_eq, none, option_eq, some, take, ◌∷◌, Bool}
use depscloud.Tracker.Beta.Driver.{Driver, has_next}
use depscloud.Base.Bytes.{Bytes}
use depscloud.Tracker.Beta.Types.{Edge, GraphData, Node}
use depscloud.Tracker.Beta.Transforms.{as_edge, as_node, convert_graph_data}
use depscloud.Tracker.Alpha.Types.{key_eq}
use depscloud.Base.Int32.{pos, ℤ}
use depscloud.Codec.Int64.{add64, of_bits64, put_digits, put_uint64, read_digits, to_bits64}
use depscloud.Codec.Int64.{uint64}

-- The bytes of `nextToken`, as text.
unfoldable pub next_token : ℤ → Bytes
unfolding encode digit put_uint64 put_digits
next_token offset = encode (put_uint64 (to_bits64 offset))

-- `Uint64` panics where there are fewer than 8 bytes, and reads no more of them.
unfoldable pub offset_of : Bytes → Result ℤ
unfolding uint64 read_digits
offset_of data_ = if ltb (length data_) 8 then panic else ok (of_bits64 (uint64 (take 8 data_)))

-- `paginate`: where to start, and the token of the next page. A text that is not base32 is the first
-- page, with no token.
unfoldable pub paginate : Bytes → ℤ → Result (ℤ × Bytes)
unfolding next_token offset_of add64
paginate [] page_size = ok (pos 0, next_token (add64 (pos 0) page_size))
paginate (c ∷ token) page_size = elim (decode (c ∷ token)) [
  | none ↦ ok (pos 0, [])
  | some data_ ↦ (do offset ← offset_of data_; ok (offset, next_token (add64 offset page_size)))
]

-- `graphstore.ListRequest`, whose page size is an int32.
pub record ListRequest : Type 0 where
  pub kind : Bytes
  pub page_token : Bytes
  pub page_size : ℤ

-- `graphstore.ListResponse`
pub record ListResponse : Type 0 where
  pub next_page_token : Bytes
  pub nodes : List Node
  pub edges : List Edge

-- The loop over the rows, which skips those that cannot be read.
unfoldable pub split_items : List GraphData → List Node × List Edge
unfolding convert_graph_data
split_items [] = ([], [])
split_items (item ∷ items) =
    let rest = split_items items in
    elim (convert_graph_data item) [
      | none ↦ rest
      | some (as_node node) ↦ (node ∷ rest.0, rest.1)
      | some (as_edge edge) ↦ (rest.0, edge ∷ rest.1)
    ]

-- The response to rows, with the token if there are more of them.
unfoldable pub respond : Bytes → List GraphData × Bool → ListResponse
unfolding split_items
respond next_page_token (results, has_next) =
    let items = split_items results in
    record {
      next_page_token = if has_next then next_page_token else [];
      nodes = items.0;
      edges = items.1;
    }

-- `List`. No driver here yields a row that is nil.
unfoldable pub list : {S : Type 0} → Driver S → ListRequest → S → Result ListResponse
unfolding paginate respond
list driver request s = do
  (offset, next_page_token) ← paginate request.page_token request.page_size
  found ← driver.list request.kind offset request.page_size s
  ok (respond next_page_token found)
