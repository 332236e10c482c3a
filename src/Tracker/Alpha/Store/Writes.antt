-- ===== src/Tracker/Alpha/Store/Writes.antt =====
-- What `Put` and `Delete` of tracker/internal/graphstore/v1alpha/server.go leave in the table, on
-- every branch.
-- The items whose statement went through.
use depscloud.Base.Options.{◌>>=◌}
use depscloud.Tracker.Alpha.Store.{Answers, exec_all, row_key, row_of, put_row, transact, Db}
use depscloud.Tracker.Alpha.Store.{GraphStore, delete, delete_row, put, write}
use depscloud.Tracker.Alpha.Sql.{Driver, Table, find_row}
use depscloud.Base.{Error, List, Option, [], arith, if◌then◌else◌, list_eq, nat_eq, none}
use depscloud.Base.{option_eq, refl, some, ℕ, ◌+◌, ◌==◌, ◌∷◌, ◌≡◌, Bool, err, false, ok}
use depscloud.Base.{partial_deletion, partial_insertion, ◌||◌, ◌≢◌, Option-cases, Result, inl}
use depscloud.Base.{inr, length, unsupported, ◌<◌, ◌≤◌, ◌⊎◌, ap, ◌∙◌}
use depscloud.Tracker.Alpha.Types.{GraphItem, Key, key_eq}
use depscloud.Tracker.Alpha.Sql.Laws.{stored, find_row-insert_graph_data}
use depscloud.Tracker.Alpha.Sql.Laws.{find_row-delete_graph_data}

abbrev pub succeeded {ℓ} : {A : Type ℓ} → (ℕ → Option Error) → ℕ → List A → List A
succeeded exec n [] = []
succeeded exec n (x ∷ xs) =
    let rest = succeeded exec (n + 1) xs in elim (exec n) [ none ↦ x ∷ rest | some _ ↦ rest ]

module _ {A : Type 0} (run : A → Table → Table) where
  abbrev pub run_all : List A → Table → Table
  run_all [] t = t
  run_all (x ∷ xs) t = run_all xs (run x t)

  pub exec_all-run_all :
      (exec : ℕ → Option Error) (n : ℕ) (xs : List A) (t : Table)
      → (exec_all run exec n xs t).1 ≡ run_all (succeeded exec n xs) t
  unfolding exec_all
  exec_all-run_all exec n [] t = refl
  exec_all-run_all exec n (x ∷ xs) t =
      ground (arith, exec_all-run_all exec (n + 1) xs t, exec_all-run_all exec (n + 1) xs (run x t))

-- The last item of a list with a given primary key.
abbrev pub last_for : Key → List GraphItem → Option GraphItem
last_for k [] = none
last_for k (x ∷ xs) = elim (last_for k xs) [
  | none ↦ if k == row_key x then some x else none
  | some y ↦ some y
]

pub find_row-run_all :
    (d : Driver) (time : ℕ) (k : Key) (xs : List GraphItem) (t : Table)
    → find_row k (run_all (put_row d time) xs t) ≡ elim (last_for k xs) [
      | none ↦ find_row k t
      | some x ↦ some (stored d (row_of time x) (find_row k t))
    ]
find_row-run_all d time k [] t = refl
find_row-run_all d time k (x ∷ xs) t = ground (
  arith,
  find_row-run_all d time k xs (put_row d time x t),
  find_row-insert_graph_data d k (row_of time x) t refl,
)

-- A transaction that commits leaves what the successful statements made of the table.
transact-run_all :
    {A : Type 0} (partial : Error) (run : A → Table → Table) (answers : Answers) (xs : List A)
    (t : Table)
    → answers.begin ≡ none
    → answers.commit ≡ none
    → (transact partial run answers xs t).1 ≡ run_all run (succeeded answers.exec 0 xs) t
unfolding transact
transact-run_all partial run answers xs t b c =
    ground (arith, exec_all-run_all run answers.exec 0 xs t)

module _ (gs : GraphStore) {db : Db} (writable : gs.rwdb ≡ some db) (answers : Answers)
    (began : answers.begin ≡ none) (committed : answers.commit ≡ none) where
  -- After a `Put` that commits, the row under a key is the one that the last successful insert of
  -- that key wrote, and a key of no successful insert keeps its row. The insert of postgres, alone
  -- of the three, leaves the date_deleted of a row that was there.
  find_row-put :
      (time : ℕ) (items : List GraphItem) (t : Table) (k : Key)
      → find_row k (put gs answers time items t).1
        ≡ elim (last_for k (succeeded answers.exec 0 items)) [
          | none ↦ find_row k t
          | some x ↦ some (stored gs.statements (row_of time x) (find_row k t))
        ]
  unfolding put
  find_row-put time [] t k = rw writable
  find_row-put time (x ∷ xs) t k =
      rw
        (
          writable,
          transact-run_all partial_insertion (put_row gs.statements time) answers (x ∷ xs) t began
              committed,
        )
        (find_row-run_all gs.statements time k (succeeded answers.exec 0 (x ∷ xs)) t)

-- Whether some item of a list has a given primary key.
abbrev pub names_key : Key → List GraphItem → Bool
names_key k [] = false
names_key k (x ∷ xs) = k == row_key x || names_key k xs

pub find_row-delete_all :
    (time : ℕ) (k : Key) (xs : List GraphItem) (t : Table)
    → find_row k (run_all (delete_row time) xs t) ≡ (
        if names_key k xs
        then (find_row k t >>= λ r. some (record r { date_deleted = some time }))
        else find_row k t)
find_row-delete_all time k [] t = refl
find_row-delete_all time k (x ∷ xs) t = ground (
  arith,
  find_row-delete_all time k xs (delete_row time x t),
  find_row-delete_graph_data time (row_key x) k t,
)

module _ (gs : GraphStore) {db : Db} (writable : gs.rwdb ≡ some db) (answers : Answers)
    (began : answers.begin ≡ none) (committed : answers.commit ≡ none) where
  -- After a `Delete` that commits, the rows of the keys whose statement went through carry the
  -- time of the call as date_deleted and are otherwise as before; every other key keeps its row,
  -- and no row appears or goes.
  find_row-delete :
      (time : ℕ) (items : List GraphItem) (t : Table) (k : Key)
      → find_row k (delete gs answers time items t).1 ≡ (
          if names_key k (succeeded answers.exec 0 items)
          then (find_row k t >>= λ r. some (record r { date_deleted = some time }))
          else find_row k t)
  unfolding delete
  find_row-delete time [] t k = rw writable
  find_row-delete time (x ∷ xs) t k =
      rw
        (
          writable,
          transact-run_all partial_deletion (delete_row time) answers (x ∷ xs) t began committed,
        )
        (find_row-delete_all time k (succeeded answers.exec 0 (x ∷ xs)) t)

  -- After a `Put` that commits, the row under a key is the one that the last successful insert of
  -- that key wrote, and a key of no successful insert keeps its row; the insert of postgres, alone
  -- of the three, leaves the date_deleted of a row that was there. After a `Delete` that commits,
  -- the rows of the keys whose statement went through carry the time of the call as date_deleted
  -- and are otherwise as before; every other key keeps its row, and no row appears or goes.
  pub find_row-writes :
      (time : ℕ) (items : List GraphItem) (t : Table) (k : Key)
      → (find_row k (put gs answers time items t).1
          ≡ elim (last_for k (succeeded answers.exec 0 items)) [
            | none ↦ find_row k t
            | some x ↦ some (stored gs.statements (row_of time x) (find_row k t))
          ])
        × (find_row k (delete gs answers time items t).1 ≡ (
            if names_key k (succeeded answers.exec 0 items)
            then (find_row k t >>= λ r. some (record r { date_deleted = some time }))
            else find_row k t))
  find_row-writes time items t k = (
    find_row-put gs writable answers began committed time items t k,
    find_row-delete time items t k,
  )

pub exec_all-errors :
    {A : Type 0} (run : A → Table → Table) (exec : ℕ → Option Error) (n : ℕ) (xs : List A)
    (t : Table)
    → (exec_all run exec n xs t).0 ≡ []
    → succeeded exec n xs ≡ xs
unfolding exec_all
exec_all-errors run exec n [] t h = refl
exec_all-errors run exec n (x ∷ xs) t h =
    ground (arith, exec_all-errors run exec (n + 1) xs (run x t))

-- How a transaction over some items ends, and the table that it leaves: with success, and every item
-- run in order; with the partial error, the items run whose statement went through, and not all are;
-- or with the error of a connection that is missing, of the begin or of the commit, and nothing run.
abbrev pub WriteOutcome :
    {A : Type 0}
    → Option Db
    → Error
    → (A → Table → Table)
    → Answers
    → List A
    → Table
    → Result (Unit {0}) × Table
    → Type 0
WriteOutcome rwdb partial run answers items t result =
    ((result.0 ≡ ok tt) × (result.1 ≡ run_all run items t))
    ⊎ (((result.0 ≡ err partial)
          × (succeeded answers.exec 0 items ≢ items)
          × (result.1 ≡ run_all run (succeeded answers.exec 0 items) t))
        ⊎ ((e : Error) × (result.0 ≡ err e)
            × (result.1 ≡ t)
            × (((rwdb ≡ none) × (e ≡ unsupported))
                ⊎ ((answers.begin ≡ some e) ⊎ (answers.commit ≡ some e)))))

length-succeeded :
    {A : Type 0} (exec : ℕ → Option Error) (n : ℕ) (xs : List A)
    → length (succeeded exec n xs) ≤ length xs
length-succeeded exec n [] = omega arith
length-succeeded exec n (x ∷ xs) = ground (arith, length-succeeded exec (n + 1) xs)

-- Where an error was remembered, not every item went through.
exec_all-some :
    {A : Type 0} (run : A → Table → Table) (exec : ℕ → Option Error) (n : ℕ) (xs : List A)
    (t : Table) (e : Error) (es : List Error)
    → (exec_all run exec n xs t).0 ≡ e ∷ es
    → length (succeeded exec n xs) < length xs
unfolding exec_all
exec_all-some run exec n [] t e es h = cc h
exec_all-some run exec n (x ∷ xs) t e es h = elim (Option-cases (exec n)) [
  | inl fine ↦
      let rest = exec_all-some run exec (n + 1) xs (run x t) e es (ground (arith, h, fine)) in
      ground (arith, rest, fine)
  | inr (e', failed) ↦ ground (arith, length-succeeded exec (n + 1) xs, failed)
]

-- The ways in which a transaction goes.
module _ {A : Type 0} (partial : Error) (run : A → Table → Table) (answers : Answers) (xs : List A)
    (t : Table) where
  transact-no_begin :
      (e : Error) → answers.begin ≡ some e → transact partial run answers xs t ≡ (err e, t)
  unfolding transact
  transact-no_begin e b = rw (b, transact) refl

  transact-no_commit :
      (e : Error)
      → answers.begin ≡ none
      → answers.commit ≡ some e
      → transact partial run answers xs t ≡ (err e, t)
  unfolding transact
  transact-no_commit e b c = rw (b, transact) (rw c refl)

  transact-all :
      answers.begin ≡ none
      → answers.commit ≡ none
      → (exec_all run answers.exec 0 xs t).0 ≡ []
      → transact partial run answers xs t ≡ (ok tt, (exec_all run answers.exec 0 xs t).1)
  unfolding transact
  transact-all b c h = rw (b, transact) (rw c (rw h refl))

  transact-some :
      (e : Error) (es : List Error)
      → answers.begin ≡ none
      → answers.commit ≡ none
      → (exec_all run answers.exec 0 xs t).0 ≡ e ∷ es
      → transact partial run answers xs t ≡ (err partial, (exec_all run answers.exec 0 xs t).1)
  unfolding transact
  transact-some e es b c h = rw (b, transact) (rw c (rw h refl))

  transact-outcome :
      (db : Db)
      → WriteOutcome (some db) partial run answers xs t (transact partial run answers xs t)
  transact-outcome db = elim (Option-cases answers.begin) [
    | inr (e, b) ↦ rw (transact-no_begin e b) (inr (inr (e, refl, refl, inr (inl b))))
    | inl b ↦ elim (Option-cases answers.commit) [
      | inr (e, c) ↦ rw (transact-no_commit e b c) (inr (inr (e, refl, refl, inr (inr c))))
      | inl c ↦ go b c (exec_all run answers.exec 0 xs t).0 refl
    ]
  ]
    where
      go :
          answers.begin ≡ none
          → answers.commit ≡ none
          → (errors : List Error) → (exec_all run answers.exec 0 xs t).0 ≡ errors
          → WriteOutcome (some db) partial run answers xs t (transact partial run answers xs t)
      go b c [] h = rw (transact-all b c h) (
          inl (
            refl,
            exec_all-run_all run answers.exec 0 xs t
                ∙ ap (λ l. run_all run l t) (exec_all-errors run answers.exec 0 xs t h),
          ))
      go b c (e ∷ es) h =
          let fewer = exec_all-some run answers.exec 0 xs t e es h in
          rw (transact-some e es b c h) (
            inr (
              inl (
                refl,
                (λ same. absurd (omega (arith, fewer, ap length same))),
                exec_all-run_all run answers.exec 0 xs t,
              )))

write-outcome :
    {A : Type 0} (rwdb : Option Db) (partial : Error) (run : A → Table → Table) (answers : Answers)
    (xs : List A) (t : Table)
    → WriteOutcome rwdb partial run answers xs t (write rwdb partial run answers xs t)
unfolding write
write-outcome none partial run answers xs t = inr (inr (unsupported, refl, refl, inl (refl, refl)))
write-outcome (some _) partial run answers [] t = inl (refl, refl)
write-outcome (some db) partial run answers (x ∷ xs) t =
    transact-outcome partial run answers (x ∷ xs) t db

-- A `Put` that reports success has run the insert of every item on the table, in order; one that
-- reports a partial insertion has run those whose statement went through, and not all did; and one
-- with another error, which is that of a connection that is missing, of the begin or of the commit,
-- has left the table as it was. `Delete` does the same with its update, and a partial deletion.
pub writes-result :
    (gs : GraphStore) (answers : Answers) (time : ℕ) (items : List GraphItem) (t : Table)
    → WriteOutcome gs.rwdb partial_insertion
        (put_row gs.statements time)
        answers
        items
        t
        (put gs answers time items t)
      × WriteOutcome gs.rwdb partial_deletion
          (delete_row time)
          answers
          items
          t
          (delete gs answers time items t)
unfolding put delete
writes-result gs answers time items t = (
  write-outcome gs.rwdb partial_insertion (put_row gs.statements time) answers items t,
  write-outcome gs.rwdb partial_deletion (delete_row time) answers items t,
)
