-- ===== src/Tracker/Beta/Driver.antt =====
-- The interface `Driver` of tracker/internal/graphstore/v1beta/driver.go, and the `sqlDriver` of
-- sqldriver.go with the statements of statements_sqlite.go over a table.
pub mod Writes
pub mod Pages
pub mod Resolve
pub mod Opened
use depscloud.Base.{◌>>=◌, ◌>>◌, Bool, Error, List, Option, Result, [], check, contains, err}
use depscloud.Base.{if◌then◌else◌, keep, list_eq, map, nat_eq, none, not, ok, option_eq, panic}
use depscloud.Base.{some, unsupported, ℕ, ◌&&◌, ◌++◌, ◌+◌, ◌==◌, ◌∷◌, drop, false, suc, take}
use depscloud.Base.{true, zero}
use depscloud.Base.Bytes.{Bytes}
use depscloud.Tracker.Beta.Types.{GraphData}
use depscloud.Base.Options.{is_some}
use depscloud.Tracker.Alpha.Types.{key_eq}
use depscloud.Base.Int32.{negsuc, pos, ℤ}

-- `Driver`, over any state of the store. `List` takes an offset and a limit, and says whether there
-- are more rows.
pub record Driver (S : Type 0) : Type 0 where
  pub put : List GraphData → S → Result (Unit {0}) × S
  pub delete : List GraphData → S → Result (Unit {0}) × S
  pub list : Bytes → ℤ → ℤ → S → Result (List GraphData × Bool)
  pub neighbors_to : List Bytes → S → Result (List GraphData)
  pub neighbors_from : List Bytes → S → Result (List GraphData)

abbrev pub Table : Type 0
Table = List GraphData

abbrev pub same_key : GraphData → GraphData → Bool
same_key a b = a.k1 == b.k1 && (a.k2 == b.k2 && a.k3 == b.k3)

-- `REPLACE INTO graph_data … VALUES (…, NULL, …)`
unfoldable pub insert_graph_data : GraphData → Table → Table
insert_graph_data new t =
    keep (λ r. not (same_key new r)) t ++ (record new { date_deleted = none } ∷ [])

-- `UPDATE graph_data SET date_deleted = …`
unfoldable pub delete_graph_data : GraphData → Table → Table
delete_graph_data item =
    map (λ r. if same_key item r then record r { date_deleted = item.date_deleted } else r)

-- The conditions that both selects share.
abbrev pub is_live_edge : GraphData → Bool
is_live_edge g = not (g.k1 == g.k2) && not (is_some g.date_deleted)

abbrev pub is_live_node : GraphData → Bool
is_live_node g = g.k1 == g.k2 && not (is_some g.date_deleted)

-- An inner join with the condition `on`, in the order of the table.
unfoldable pub join : (GraphData → GraphData → Bool) → Table → Table → List (GraphData × GraphData)
join on [] t = []
join on (g1 ∷ rest) t = map (λ g2. (g1, g2)) (keep (on g1) t) ++ join on rest t

abbrev pub leads_from : List Bytes → GraphData → GraphData → Bool
leads_from keys g1 g2 =
    g1.k1 == g2.k2 && (contains keys g2.k1 && (is_live_edge g2 && is_live_node g1))

abbrev pub leads_to : List Bytes → GraphData → GraphData → Bool
leads_to keys g1 g2 =
    g1.k2 == g2.k1 && (contains keys g2.k2 && (is_live_edge g2 && is_live_node g1))

-- What the database answers in a transaction, to a query and to a scan, and the number of rows behind
-- which an error ends the rows of a query, if one does.
pub record Answers : Type 0 where
  pub begin : Option Error
  pub exec : ℕ → Option Error
  pub commit : Option Error
  pub query : Option Error
  pub scan : GraphData × GraphData → Option Error
  pub scan_row : GraphData → Option Error
  pub interrupted : Option ℕ

-- The rows that `rows.Next()` finds: it ends on an error as behind the last row, and nobody asks
-- `rows.Err()`.
abbrev arrived : {A : Type 0} → Answers → List A → List A
arrived answers rows = elim answers.interrupted [ none ↦ rows | some n ↦ take n rows ]

-- The loop of a transaction: the first statement that fails ends it.
unfoldable pub exec_all :
    (GraphData → Table → Table) → (ℕ → Option Error) → ℕ → List GraphData → Table → Result Table
exec_all run exec n [] t = ok t
exec_all run exec n (item ∷ items) t = do
  check (exec n)
  exec_all run exec (n + 1) items (run item t)

-- A write of the driver. Without a commit the table stays as it is.
unfoldable pub write :
    Bool
    → (GraphData → Table → Table)
    → Answers
    → List GraphData
    → Table
    → Result (Unit {0}) × Table
unfolding exec_all
write writable run answers items t =
    elim (do
      check (if writable then none else some unsupported)
      check answers.begin
      done ← exec_all run answers.exec 0 items t
      check answers.commit
      ok done) [ ok done ↦ (ok tt, done) | err e ↦ (err e, t) | panic ↦ (panic, t) ]

-- A row by the columns that the selects name: the two times are left at their zero values.
abbrev pub selected : GraphData → GraphData
selected g = record g { date_deleted = none; last_modified = 0 }

-- The rows of a query, a node and an edge for each, one after the other.
unfoldable pub read_neighbors :
    (GraphData × GraphData → Option Error) → List (GraphData × GraphData) → Result (List GraphData)
read_neighbors scan [] = ok []
read_neighbors scan ((g1, g2) ∷ rows) = do
  check (scan (g1, g2))
  rest ← read_neighbors scan rows
  ok (selected g1 ∷ selected g2 ∷ rest)

-- `neighbors`
unfoldable pub neighbors :
    (List Bytes → GraphData → GraphData → Bool)
    → Answers
    → List Bytes
    → Table
    → Result (List GraphData)
unfolding read_neighbors join
neighbors on answers keys t = do
  check answers.query
  read_neighbors answers.scan (arrived answers (join (on keys) t t))

-- `sqliteListGraphData`, where a negative offset is none.
abbrev pub from_row : ℤ → ℕ
from_row (pos n) = n
from_row (negsuc _) = 0

unfoldable pub live_of_kind : Bytes → Table → Table
live_of_kind kind = keep (λ g. g.kind == kind && not (is_some g.date_deleted))

unfoldable pub read_list : (GraphData → Option Error) → List GraphData → Result (List GraphData)
read_list scan [] = ok []
read_list scan (g ∷ rows) = do check (scan g); rest ← read_list scan rows; ok (selected g ∷ rest)

-- Whether `rows.Next()` finds a row behind the first n.
abbrev pub has_next : ℕ → List GraphData → Bool
has_next n [] = false
has_next zero (_ ∷ _) = true
has_next (suc n) (_ ∷ rows) = has_next n rows

-- `List`, which asks for one row more than the limit. A slice of a negative capacity panics.
unfoldable pub list_rows : Answers → Bytes → ℤ → ℤ → Table → Result (List GraphData × Bool)
unfolding live_of_kind read_list
list_rows answers kind offset (negsuc _) t = do check answers.query; panic
list_rows answers kind offset (pos limit) t = do
  check answers.query
  let rows = arrived answers (take (limit + 1) (drop (from_row offset) (live_of_kind kind t)))
  results ← read_list answers.scan_row (take limit rows)
  ok (results, has_next limit rows)

-- `sqlDriver`, on a connection that can write or not.
abbrev pub sql_driver : Bool → Answers → Driver Table
sql_driver writable answers = record {
  put = write writable insert_graph_data answers;
  delete = write writable delete_graph_data answers;
  list = list_rows answers;
  neighbors_to = neighbors leads_to answers;
  neighbors_from = neighbors leads_from answers;
}
