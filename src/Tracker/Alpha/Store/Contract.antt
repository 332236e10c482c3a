-- ===== src/Tracker/Alpha/Store/Contract.antt =====
-- The SQL graph store keeps the contract of the client that `Track` relies on, on sqlite and MySQL.
use depscloud.Base.Options.{◌>>=◌}
use depscloud.Tracker.Alpha.Store.{Answers, Db, GraphStore, QueryAnswers, delete}
use depscloud.Tracker.Alpha.Store.{find_downstream, find_upstream, list, put, transact, write}
use depscloud.Tracker.Alpha.Store.{row_of, decoded, delete_row, put_row}
use depscloud.Base.Bytes.{Bytes, AreBytes}
use depscloud.Base.{Error, List, Option, [], arith, none, ok, some, ℕ, ◌∷◌, ◌≡◌, refl, ◌≢◌, All}
use depscloud.Base.{All-of_In, Bool, Bool-cases, In, ap, contains, false, if◌then◌else◌, inl}
use depscloud.Base.{inr, list_eq, map, nat_eq, option_eq, partial_deletion, partial_insertion}
use depscloud.Base.{sym, true, ◌==◌, ◌∙◌}
use depscloud.Tracker.Alpha.Client.{GraphStoreClient, Fits, IsStore}
use depscloud.Tracker.Alpha.Types.{Key, Row, FindRequest, GraphItem, GraphItemPair, key_eq}
use depscloud.Tracker.Alpha.Sql.{Table, find_row, Driver, mysql, postgres, sqlite}
use depscloud.Tracker.Alpha.Store.Reads.{AnswersOf, find_upstream_sound, decoded-raw_encode}
use depscloud.Tracker.Alpha.Sql.Joins.{IsUpstream}
use depscloud.Tracker.Alpha.Store.Writes.{exec_all-errors, exec_all-run_all, run_all}
use depscloud.Tracker.Alpha.Store.Writes.{find_row-delete_all, find_row-run_all, last_for}
use depscloud.Tracker.Alpha.Store.Writes.{names_key}
use depscloud.Tracker.Alpha.Sql.Laws.{stored}
use depscloud.Codec.Base64.{raw_encode}
use mathlib.Core.Path.{subst}
use depscloud.Tracker.Beta.Driver.Resolve.{dialect}

-- What the database answers to each call, and the time of each write.

pub record Answering : Type 0 where
  pub list_answers : QueryAnswers Row
  pub find_answers : QueryAnswers (Row × Row)
  pub put_answers : Answers
  pub put_time : ℕ
  pub delete_answers : Answers
  pub delete_time : ℕ

-- The client that calls the server of the same process.
abbrev pub sql_client : GraphStore → Answering → GraphStoreClient Table
sql_client gs a = record {
  list_items = list gs a.list_answers;
  upstream = find_upstream a.find_answers;
  downstream = find_downstream a.find_answers;
  put_items = put gs a.put_answers a.put_time;
  delete_items = delete gs a.delete_answers a.delete_time;
}

-- The content of the live row under a key.
abbrev pub content : Option Row → Option (ℕ × Bytes)
content none = none
content (some r) = elim r.date_deleted [
  | none ↦ some (r.encoding, r.graph_item_data)
  | some _ ↦ none
]

abbrev pub live_view : Table → Key → Option (ℕ × Bytes)
live_view t k = content (find_row k t)

write-committed :
    {A : Type 0} (rwdb : Option Db) (partial : Error) (run : A → Table → Table) (answers : Answers)
    (xs : List A) (t t' : Table)
    → write rwdb partial run answers xs t ≡ (ok tt, t')
    → t' ≡ run_all run xs t
unfolding write transact
write-committed none partial run answers xs t t' h = cc
write-committed (some _) partial run answers [] t t' h = ground arith
write-committed (some _) partial run answers (x ∷ xs) t t' h = ground (
  arith,
  exec_all-run_all run answers.exec 0 (x ∷ xs) t,
  exec_all-errors run answers.exec 0 (x ∷ xs) t,
)

content-stored :
    (d : Driver) (time : ℕ) (x : GraphItem) (old : Option Row)
    → d ≢ postgres
    → content (some (stored d (row_of time x) old)) ≡ some (x.encoding, x.graph_item_data)
content-stored sqlite time x old h = ground arith
content-stored mysql time x old h = ground arith
content-stored postgres time x old h = absurd (h refl)

content-marked :
    (time : ℕ) (named : Bool) (old : Option Row)
    → content (if named then (old >>= λ r. some (record r { date_deleted = some time })) else old)
      ≡ (if named then none else content old)
content-marked time true none = refl
content-marked time true (some r) = refl
content-marked time false old = refl

decoded-In :
    (k : Bytes) (ks : List Bytes)
    → All AreBytes ks
    → contains (map raw_encode ks) k ≡ true
    → In (decoded k) ks
decoded-In k [] a h = cc
decoded-In k (j ∷ ks) (b, a) h = elim (Bool-cases (k == raw_encode j)) [
  | inl e ↦
      let same : k ≡ raw_encode j = ground arith in inl (ap decoded same ∙ decoded-raw_encode j b)
  | inr differs ↦ inr (decoded-In k ks a (ground arith))
]

Fits-pair :
    (req : FindRequest) (t : Table) (p : GraphItemPair) → AnswersOf IsUpstream req t p → Fits req p
Fits-pair req t p (node, edge, mn, me, (w, meets, wanted), e) = subst (Fits req) (sym e) (record {
  edge_type = w.edge_type;
  node_type = w.node_type;
  source_key = λ a. decoded-In edge.key.k1 req.keys a wanted;
})

-- Over sqlite or MySQL the graph store keeps the contract: `FindUpstream` answers with pairs that fit
-- its request, and a `Put` or `Delete` that reports success has changed the content of the live rows
-- as asked, and no other. (Postgres does not: a row that was deleted stays so under `Put`.)
pub sql_client-IsStore :
    (gs : GraphStore) (a : Answering)
    → gs.statements ≢ postgres
    → IsStore (sql_client gs a) live_view
unfolding put delete
sql_client-IsStore gs a dialect = record {
  fits = λ req t pairs h.
      All-of_In _ pairs
        λ p m. Fits-pair req t p (find_upstream_sound a.find_answers req t pairs h p m);
  puts = λ items t t' h k.
      let wrote =
        write-committed gs.rwdb partial_insertion (put_row gs.statements a.put_time) a.put_answers
          items t t' h in
      rw (wrote, find_row-run_all gs.statements a.put_time k items t)
        (content-last (last_for k items) (find_row k t));
  deletes = λ items t t' h k.
      let wrote =
        write-committed gs.rwdb partial_deletion (delete_row a.delete_time) a.delete_answers items t
          t' h in
      rw (wrote, find_row-delete_all a.delete_time k items t)
        (content-marked a.delete_time (names_key k items) (find_row k t));
}
  where
    content-last :
        (item : Option GraphItem) (old : Option Row)
        → content (elim item [
          | none ↦ old
          | some x ↦ some (stored gs.statements (row_of a.put_time x) old)
        ])
          ≡ elim item [ none ↦ content old | some x ↦ some (x.encoding, x.graph_item_data) ]
    content-last none old = refl
    content-last (some x) old = content-stored gs.statements a.put_time x old dialect
