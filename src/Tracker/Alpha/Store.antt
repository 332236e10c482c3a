-- ===== src/Tracker/Alpha/Store.antt =====
-- tracker/internal/graphstore/v1alpha/server.go over one table, which the writing and the reading
-- connection share. What the database answers to each call is a parameter.
pub mod Writes
pub mod Reads
pub mod Interrupted
pub mod Pages
pub mod Contract
use depscloud.Base.{◌>>=◌, ◌>>◌, Error, List, Option, Result, [], check, err, errorf}
use depscloud.Base.{if◌then◌else◌, list_eq, map, nat_eq, none, ok, option_eq, partial_deletion}
use depscloud.Base.{partial_insertion, some, unsupported, ℕ, ◌+◌, ◌==◌, ◌∷◌, In, length, take}
use depscloud.Base.{◌↔◌, ◌≡◌}
use depscloud.Base.Bytes.{Bytes, bytes}
use depscloud.Tracker.Alpha.Sql.{Driver, Table, delete_graph_data, insert_graph_data, join}
use depscloud.Tracker.Alpha.Sql.{list_graph_data, mysql, postgres, select_downstream}
use depscloud.Tracker.Alpha.Sql.{select_upstream, sqlite}
use depscloud.Tracker.Alpha.Types.{FindRequest, GraphItem, GraphItemPair, Key, ListRequest, Row}
use depscloud.Tracker.Alpha.Types.{key_eq}
use depscloud.Base.Int32.{gtb, mul32, pos, sub32, ℤ}
use depscloud.Codec.Base64.{raw_decode, raw_encode}

-- A `*sqlx.DB`, by the address that it was opened with.
pub record Db : Type 0 where
  pub address : Bytes

pub record GraphStore : Type 0 where
  pub rwdb : Option Db
  pub rodb : Option Db
  pub statements : Driver

-- The answers of the database in one transaction: to its begin, to each statement, to its commit.
pub record Answers : Type 0 where
  pub begin : Option Error
  pub exec : ℕ → Option Error
  pub commit : Option Error

-- The parameters of the insert statement, for one item.
abbrev pub row_key : GraphItem → Key
row_key item = record {
  graph_item_type = item.graph_item_type;
  k1 = raw_encode item.k1;
  k2 = raw_encode item.k2;
  k3 = raw_encode item.k3;
}

abbrev pub row_of : ℕ → GraphItem → Row
row_of timestamp item = record {
  key = row_key item;
  encoding = item.encoding;
  graph_item_data = item.graph_item_data;
  last_modified = timestamp;
  date_deleted = none;
}

-- The loop of `Put` and of `Delete`: a statement that fails changes nothing and is remembered.
unfoldable pub exec_all {ℓ} :
    {A : Type ℓ}
    → (A → Table → Table)
    → (ℕ → Option Error)
    → ℕ
    → List A
    → Table
    → List Error × Table
exec_all run exec n [] t = ([], t)
exec_all run exec n (item ∷ items) t = elim (exec n) [
  | none ↦ exec_all run exec (n + 1) items (run item t)
  | some e ↦ let rest = exec_all run exec (n + 1) items t in (e ∷ rest.0, rest.1)
]

-- The transaction around the loop. Without a commit nothing of it is left in the table.
unfoldable pub transact {ℓ} :
    {A : Type ℓ}
    → Error
    → (A → Table → Table)
    → Answers
    → List A
    → Table
    → Result (Unit {0}) × Table
transact partial run answers items t = elim answers.begin [
  | some e ↦ (err e, t)
  | none ↦
      let done = exec_all run answers.exec 0 items t in
      elim answers.commit [
        | some e ↦ (err e, t)
        | none ↦ elim done.0 [ [] ↦ (ok tt, done.1) | _ ∷ _ ↦ (err partial, done.1) ]
      ]
]

-- How both handlers begin.
unfoldable pub write {ℓ} :
    {A : Type ℓ}
    → Option Db
    → Error
    → (A → Table → Table)
    → Answers
    → List A
    → Table
    → Result (Unit {0}) × Table
unfolding transact
write none partial run answers items t = (err unsupported, t)
write (some _) partial run answers [] t = (ok tt, t)
write (some _) partial run answers (x ∷ xs) t = transact partial run answers (x ∷ xs) t

abbrev pub put_row : Driver → ℕ → GraphItem → Table → Table
put_row d timestamp item = insert_graph_data d (row_of timestamp item)

abbrev pub delete_row : ℕ → GraphItem → Table → Table
delete_row timestamp item = delete_graph_data timestamp (row_key item)

unfoldable pub put : GraphStore → Answers → ℕ → List GraphItem → Table → Result (Unit {0}) × Table
unfolding write
put gs answers timestamp = write gs.rwdb partial_insertion (put_row gs.statements timestamp) answers

unfoldable pub delete :
    GraphStore → Answers → ℕ → List GraphItem → Table → Result (Unit {0}) × Table
unfolding write
delete gs answers timestamp = write gs.rwdb partial_deletion (delete_row timestamp) answers

-- `max` and `min` on int32
unfoldable pub max32 : ℤ → ℤ → ℤ
max32 a b = if gtb a b then a else b

unfoldable pub min32 : ℤ → ℤ → ℤ
min32 a b = if gtb b a then a else b

-- An order that a database reads rows in: each of them, and as many.
pub record Arrangement (R : Type 0) : Type 0 where
  pub order : List R → List R
  pub members : (rows : List R) (r : R) → In r (order rows) ↔ In r rows
  pub size : (rows : List R) → length (order rows) ≡ length rows

-- The answers of the database to one query: to the call, and to the scan of a row, with the order of
-- the rows. `interrupted` is the number of rows behind which `rows.Next()` ends on an error, and
-- `refusal` the error for a statement that the database does not accept.
pub record QueryAnswers (R : Type 0) : Type 0 where
  pub query : Option Error
  pub refusal : Error
  pub arrangement : Arrangement R
  pub interrupted : Option ℕ
  pub scan : R → Option Error

-- The rows that `rows.Next()` finds. It ends on an error as it ends behind the last row, and nobody
-- asks `rows.Err()`.
abbrev pub arrived : {R : Type 0} → QueryAnswers R → List R → List R
arrived answers rows = elim answers.interrupted [ none ↦ rows | some n ↦ take n rows ]

abbrev pub or_refusal : Error → Option Table → Result Table
or_refusal e none = err e
or_refusal e (some rows) = ok rows

-- Reads the rows with `read`, until one cannot be scanned.
unfoldable pub read_rows : {R A : Type 0} → (R → Option Error) → (R → A) → List R → Result (List A)
read_rows scan read [] = ok []
read_rows scan read (r ∷ rs) = do
  check (scan r)
  items ← read_rows scan read rs
  ok (read r ∷ items)

-- `k1Bytes, _ := Base64decode(k1)`: the error is dropped.
abbrev pub decoded : Bytes → Bytes
decoded text = (raw_decode text).0

-- `readGraphItems`, where k3 is not selected and stays nil.
abbrev pub item_of : Row → GraphItem
item_of r = record {
  graph_item_type = r.key.graph_item_type;
  k1 = decoded r.key.k1;
  k2 = decoded r.key.k2;
  k3 = [];
  encoding = r.encoding;
  graph_item_data = r.graph_item_data;
}

-- `readGraphItemPairs`, where k3 is read for the edge alone.
abbrev pub pair_of : Row × Row → GraphItemPair
pair_of (node, edge) = record {
  edge = record (item_of edge) { k3 = decoded edge.key.k3 };
  node = item_of node;
}

-- The page and the limit that `List` works with, and its offset in int32 arithmetic.
unfoldable pub list_page : ListRequest → ℤ
unfolding max32
list_page req = max32 req.page (pos 1)

unfoldable pub list_limit : ListRequest → ℤ
unfolding max32 min32
list_limit req = max32 (min32 req.count (pos 100)) (pos 10)

unfoldable pub list_offset : ListRequest → ℤ
unfolding list_page list_limit
list_offset req = mul32 (sub32 (list_page req) (pos 1)) (list_limit req)

unfoldable pub list : GraphStore → QueryAnswers Row → ListRequest → Table → Result (List GraphItem)
unfolding read_rows list_offset
list gs answers req t = do
  check answers.query
  rows ← or_refusal answers.refusal (
      list_graph_data gs.statements answers.arrangement.order req.item_type (list_limit req)
        (list_offset req) t)
  read_rows answers.scan item_of (arrived answers rows)

-- `FindRequest` as the statement takes it: the keys as text.
abbrev pub encoded : FindRequest → FindRequest
encoded req = record req { keys = map raw_encode req.keys }

unfoldable pub find_upstream :
    QueryAnswers (Row × Row) → FindRequest → Table → Result (List GraphItemPair)
unfolding read_rows
find_upstream answers req t = do
  check answers.query
  read_rows answers.scan pair_of
      (arrived answers (answers.arrangement.order (select_upstream (encoded req) t)))

unfoldable pub find_downstream :
    QueryAnswers (Row × Row) → FindRequest → Table → Result (List GraphItemPair)
unfolding read_rows
find_downstream answers req t = do
  check answers.query
  read_rows answers.scan pair_of
      (arrived answers (answers.arrangement.order (select_downstream (encoded req) t)))
