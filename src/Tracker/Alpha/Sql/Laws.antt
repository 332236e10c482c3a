-- ===== src/Tracker/Alpha/Sql/Laws.antt =====
-- What the statements do to one key of the table, and that the primary key stays unique.
use depscloud.Base.Options.{◌>>=◌}
use depscloud.Tracker.Alpha.Sql.{Driver, Table, delete_graph_data, find_row, insert_graph_data}
use depscloud.Tracker.Alpha.Sql.{mysql, postgres, sqlite, upsert_mysql, upsert_postgres, without}
use depscloud.Tracker.Alpha.Types.{Key, Row, key_eq}
use depscloud.Base.{Option, [], arith, if◌then◌else◌, list_eq, nat_eq, none, option_eq, refl}
use depscloud.Base.{some, ℕ, ◌++◌, ◌==◌, ◌∷◌, ◌≡◌}

-- The row that an insert leaves under its key, from the row that was there.
abbrev pub stored : Driver → Row → Option Row → Row
stored postgres new (some old) = record new { date_deleted = old.date_deleted }
stored _ new old = record new { date_deleted = none }

find_row-without :
    (k j : Key) (t : Table) → find_row j (without k t) ≡ (if j == k then none else find_row j t)
unfolding find_row without
find_row-without k j [] = ground arith
find_row-without k j (r ∷ t) = ground (arith, find_row-without k j t)

find_row-append :
    (j : Key) (t u : Table)
    → find_row j (t ++ u) ≡ elim (find_row j t) [ none ↦ find_row j u | some r ↦ some r ]
unfolding find_row
find_row-append j [] u = refl
find_row-append j (r ∷ t) u = ground (arith, find_row-append j t u)

find_row-sqlite :
    (j : Key) (new : Row) (t : Table)
    → find_row j (without new.key t ++ (new ∷ []))
      ≡ (if j == new.key then some new else find_row j t)
find_row-sqlite j new t =
    rw (find_row-append j (without new.key t), find_row-without new.key j t)
      (unfold find_row in ground arith)

find_row-mysql :
    (j : Key) (new : Row) (t : Table)
    → new.date_deleted ≡ none
    → find_row j (upsert_mysql new t) ≡ (if j == new.key then some new else find_row j t)
unfolding find_row upsert_mysql
find_row-mysql j new [] h = refl
find_row-mysql j new (r ∷ t) h = ground (arith, find_row-mysql j new t h)

find_row-postgres :
    (j : Key) (new : Row) (t : Table)
    → new.date_deleted ≡ none
    → find_row j (upsert_postgres new t)
      ≡ (if j == new.key then some (stored postgres new (find_row j t)) else find_row j t)
unfolding find_row upsert_postgres
find_row-postgres j new [] h = ground arith
find_row-postgres j new (r ∷ t) h = ground (arith, find_row-postgres j new t h)

-- One key after an insert, for each driver.
pub find_row-insert_graph_data :
    (d : Driver) (j : Key) (new : Row) (t : Table)
    → new.date_deleted ≡ none
    → find_row j (insert_graph_data d new t)
      ≡ (if j == new.key then some (stored d new (find_row j t)) else find_row j t)
unfolding insert_graph_data
find_row-insert_graph_data sqlite j new t h = ground (arith, find_row-sqlite j new t)
find_row-insert_graph_data mysql j new t h = ground (arith, find_row-mysql j new t h)
find_row-insert_graph_data postgres j new t h = find_row-postgres j new t h

-- One key after a delete: its row is marked, and no other row changes.
pub find_row-delete_graph_data :
    (time : ℕ) (k j : Key) (t : Table)
    → find_row j (delete_graph_data time k t) ≡ (
        if j == k
        then (find_row j t >>= λ r. some (record r { date_deleted = some time }))
        else find_row j t)
unfolding find_row delete_graph_data
find_row-delete_graph_data time k j [] = ground arith
find_row-delete_graph_data time k j (r ∷ t) = ground (arith, find_row-delete_graph_data time k j t)
