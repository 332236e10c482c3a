-- ===== src/Tests/Stores.antt =====
-- The graph store at concrete inputs.
use depscloud.Tracker.Alpha.Store.Reads.{AnswersOf, HasByteKeys, finds_iff, find_upstream-row_of}
use depscloud.Tracker.Alpha.Store.Interrupted.{cut, reads-cut}
use depscloud.Base.Options.{◌>>=◌}
use depscloud.Base.Bytes.{Bytes}
use depscloud.Tracker.Alpha.Sql.{Driver, Table, find_row, of_type, postgres, select_downstream}
use depscloud.Tracker.Alpha.Sql.{select_upstream, is_edge, is_node, join, mysql, sqlite}
use depscloud.Tracker.Alpha.Types.{FindRequest, GraphItem, key_eq, GraphItemPair, ListRequest}
use depscloud.Tracker.Alpha.Store.{GraphStore, delete, find_downstream, find_upstream, item_of}
use depscloud.Tracker.Alpha.Store.{list, put, row_key, row_of, read_rows, delete_row, put_row}
use depscloud.Base.{In, [], arith, contains, err, if◌then◌else◌, inl, inr, list_eq, map, nat_eq}
use depscloud.Base.{none, ok, option_eq, partial_deletion, partial_insertion, refl, some, take}
use depscloud.Base.{true, ℕ_discrete, ◌↔◌, ◌∷◌, ◌≡◌, ℕ, external}
use depscloud.Tracker.Alpha.Sql.Joins.{IsDownstream, IsUpstream}
use depscloud.Tracker.Alpha.Client.{IsStore}
use depscloud.Tracker.Alpha.Sql.Laws.{stored}
use depscloud.Tests.Samples.{all_well, answering, read_well, sqlite_store}
use depscloud.Tracker.Alpha.Schema.{depends_type, module_type}
use depscloud.Tracker.Alpha.Store.Writes.{find_row-writes, last_for, names_key, succeeded}
use depscloud.Tracker.Alpha.Store.Writes.{WriteOutcome, writes-result}
use depscloud.Tracker.Alpha.Store.Pages.{list-wraps, pages, pages-take, AreWhole, on_sqlite}
use depscloud.Tracker.Alpha.Store.Contract.{live_view, sql_client, sql_client-IsStore}
use depscloud.Tracker.Alpha.Track.{modules_by}
use depscloud.Codec.Base64.{raw_decode, raw_encode, encode, digit, pair, raw_groups, strip}
use depscloud.Codec.Base64.{undigit}
use depscloud.Base.Int32.{pos}

abbrev item : Bytes → Bytes → Bytes → Bytes → GraphItem
item item_type k1 k2 text = record {
  graph_item_type = item_type;
  k1 = k1;
  k2 = k2;
  k3 = [];
  encoding = 1;
  graph_item_data = text;
}

abbrev node_b : GraphItem
node_b = item module_type (2 ∷ []) (2 ∷ []) (20 ∷ [])

abbrev edge_ab : GraphItem
edge_ab = item depends_type (1 ∷ []) (2 ∷ []) (12 ∷ [])

abbrev pair_ab : GraphItemPair
pair_ab = record { edge = edge_ab; node = node_b }

abbrev table : Table
table = row_of 1 node_b ∷ row_of 2 edge_ab ∷ []

abbrev from_a : FindRequest
from_a = modules_by depends_type (1 ∷ [])

abbrev to_b : FindRequest
to_b = modules_by depends_type (2 ∷ [])

found_upstream :
    find_upstream read_well from_a table ≡ ok (record { edge = edge_ab; node = node_b } ∷ [])
unfolding find_upstream read_rows select_upstream join is_edge is_node raw_encode raw_decode encode
    strip pair raw_groups digit undigit option_eq list_eq nat_eq ℕ_discrete
found_upstream = refl

found_downstream : find_downstream read_well to_b table ≡ ok []
unfolding find_downstream read_rows select_downstream join is_edge is_node raw_encode raw_decode
    encode strip pair raw_groups digit undigit option_eq list_eq nat_eq ℕ_discrete
found_downstream = refl

down_of_a : find_downstream read_well from_a table ≡ ok []
unfolding find_downstream read_rows select_downstream join is_edge is_node raw_encode raw_decode
    encode strip pair raw_groups digit undigit option_eq list_eq nat_eq ℕ_discrete
down_of_a = refl

finds_iff_example :
    (In pair_ab (record { edge = edge_ab; node = node_b } ∷ [])
      ↔ AnswersOf IsUpstream from_a table pair_ab)
    × (In pair_ab [] ↔ AnswersOf IsDownstream from_a table pair_ab)
finds_iff_example = finds_iff read_well from_a table _ [] refl found_upstream down_of_a pair_ab

keys_b : HasByteKeys node_b
keys_b = record { k1_bytes = (omega arith, tt); k2_bytes = (omega arith, tt); k3_bytes = tt }

keys_ab : HasByteKeys edge_ab
keys_ab = record { k1_bytes = (omega arith, tt); k2_bytes = (omega arith, tt); k3_bytes = tt }

wants :
    (contains from_a.keys edge_ab.k1 ≡ true)
    × (contains from_a.edge_types depends_type ≡ true)
    × (contains from_a.node_types module_type ≡ true)
unfolding list_eq nat_eq ℕ_discrete
wants = (refl, refl, refl)

find_upstream-row_of_example : In pair_ab (record { edge = edge_ab; node = node_b } ∷ [])
find_upstream-row_of_example =
    find_upstream-row_of read_well from_a table _ 1 2 node_b edge_ab refl found_upstream keys_b
      keys_ab (inl refl) (inr (inl refl)) refl (λ e. cc e) refl wants.0 wants.1 wants.2

abbrev with_kind : Driver → GraphStore
with_kind d = record sqlite_store { statements = d }

find_row-writes_example :
    (find_row (row_key node_b) (put (with_kind postgres) all_well 5 (node_b ∷ []) table).1
      ≡ elim (last_for (row_key node_b) (succeeded all_well.exec 0 (node_b ∷ []))) [
        | none ↦ find_row (row_key node_b) table
        | some x ↦ some (stored postgres (row_of 5 x) (find_row (row_key node_b) table))
      ])
    × (find_row (row_key node_b) (delete (with_kind postgres) all_well 5 (node_b ∷ []) table).1 ≡ (
        if names_key (row_key node_b) (succeeded all_well.exec 0 (node_b ∷ []))
        then (find_row (row_key node_b) table >>= λ r. some (record r { date_deleted = some 5 }))
        else find_row (row_key node_b) table))
find_row-writes_example =
    find_row-writes (with_kind postgres) refl all_well refl refl 5 (node_b ∷ []) table
      (row_key node_b)

writes-result_example :
    WriteOutcome sqlite_store.rwdb partial_insertion
      (put_row sqlite 5)
      all_well
      (node_b ∷ [])
      table
      (put sqlite_store all_well 5 (node_b ∷ []) table)
    × WriteOutcome sqlite_store.rwdb partial_deletion
        (delete_row 5)
        all_well
        (node_b ∷ [])
        table
        (delete sqlite_store all_well 5 (node_b ∷ []) table)
writes-result_example = writes-result sqlite_store all_well 5 (node_b ∷ []) table

abbrev page : ℕ → ℕ → ListRequest
page count number = record { page = pos number; count = pos count; item_type = module_type }

all_read : AreWhole (λ m. read_well)
all_read = record { queried = λ m. refl; whole = λ m. refl; scanned = λ m r. refl }

pages-take_example :
    pages sqlite_store (λ m. read_well) all_read module_type 10 table 2
    ≡ ok (map item_of (take 20 (of_type module_type table)))
pages-take_example =
    pages-take sqlite_store (λ m. read_well) all_read module_type 10 table
      (of_type module_type table) 2 (λ p. refl) (omega arith) (omega arith) (omega arith)

list-wraps_example :
    list (with_kind mysql) read_well (page 100 21474838) table
    ≡ on_sqlite mysql (list (with_kind mysql) read_well (page 100 1) table) (err (external 1))
list-wraps_example =
    list-wraps (with_kind mysql) read_well refl (page 100 21474838) table (omega arith)
      (omega arith) (omega arith)

listed : list sqlite_store read_well (page 10 1) table ≡ ok (node_b ∷ [])
unfolding list depscloud.Tracker.Alpha.Sql.list_graph_data depscloud.Base.Int32.mul32
    depscloud.Base.Int32.sub32 list_eq nat_eq ℕ_discrete raw_decode raw_encode
listed = refl

reads-cut_example :
    (list sqlite_store (cut 0 read_well) (page 10 1) table ≡ ok (take 0 (node_b ∷ [])))
    × (find_upstream (cut 0 read_well) from_a table ≡ ok (take 0 (pair_ab ∷ [])))
    × (find_downstream (cut 0 read_well) from_a table ≡ ok (take 0 []))
reads-cut_example =
    reads-cut sqlite_store read_well read_well 0 (page 10 1) from_a table (node_b ∷ [])
      (pair_ab ∷ []) [] refl refl listed found_upstream down_of_a

sql_client-IsStore_example : IsStore (sql_client sqlite_store answering) live_view
sql_client-IsStore_example = sql_client-IsStore sqlite_store answering (λ e. cc e)
