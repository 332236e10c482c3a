-- ===== src/Tracker/Beta/Driver/Pages.antt =====
-- What `List` of the SQL driver answers.
use Prim.Native.Nat.add
use depscloud.Base.{Error, List, Option, [], ap, arith, drop, length, ltb, none, ok, refl, suc}
use depscloud.Base.{take, zero, ℕ, ◌+◌, ◌∷◌, ◌≡◌, ◌∙◌, map}
use depscloud.Tracker.Beta.Driver.{Answers, Table, has_next, list_rows, live_of_kind, read_list}
use depscloud.Tracker.Beta.Driver.{selected}
use depscloud.Base.Bytes.{Bytes}
use depscloud.Tracker.Beta.Types.{GraphData}
use depscloud.Base.Int32.{pos}

take-take-suc : (n : ℕ) (rows : List GraphData) → take n (take (n + 1) rows) ≡ take n rows
take-take-suc zero rows = ground arith
take-take-suc (suc n) [] = ground arith
take-take-suc (suc n) (g ∷ rows) = rw add.suc (ap (λ l. g ∷ l) (take-take-suc n rows))

ltb-suc : (m n : ℕ) → ltb m n ≡ ltb (suc m) (suc n)
ltb-suc m n = ground arith

has_next-take :
    (n : ℕ) (rows : List GraphData) → has_next n (take (n + 1) rows) ≡ ltb n (length rows)
has_next-take zero [] = ground arith
has_next-take zero (g ∷ rows) = ground arith
has_next-take (suc n) [] = ground arith
has_next-take (suc n) (g ∷ rows) = rw add.suc (has_next-take n rows ∙ ltb-suc n (length rows))

read_list-all :
    (scan : GraphData → Option Error) (rows : List GraphData)
    → ((g : GraphData) → scan g ≡ none)
    → read_list scan rows ≡ ok (map selected rows)
unfolding read_list
read_list-all scan [] s = refl
read_list-all scan (g ∷ rows) s = rw (s g, read_list-all scan rows s) refl

-- Where the database answers and no error ends the rows early, `List` of an offset and a limit yields the live rows of the kind
-- behind the offset, as many as the limit allows, and says that there are more exactly if there are.
pub list_rows_lem :
    (answers : Answers) (kind : Bytes) (offset limit : ℕ) (t : Table)
    → answers.query ≡ none
    → ((g : GraphData) → answers.scan_row g ≡ none)
    → answers.interrupted ≡ none
    → list_rows answers kind (pos offset) (pos limit) t
      ≡ ok (
        map selected (take limit (drop offset (live_of_kind kind t))),
        ltb limit (length (drop offset (live_of_kind kind t))),
      )
unfolding list_rows
list_rows_lem answers kind offset limit t queried scanned whole =
    let rows = drop offset (live_of_kind kind t) in
    rw (queried, whole)
      (rw
        (
          read_list-all answers.scan_row (take limit (take (limit + 1) rows)) scanned,
          take-take-suc limit rows,
          has_next-take limit rows,
        )
        refl)
