-- ===== src/Tracker/Alpha/Store/Interrupted.antt =====
-- What the reading handlers of tracker/internal/graphstore/v1alpha/server.go answer where an error
-- of the database ends the rows early.
use depscloud.Base.{◌>>=◌, >>=-eq-ok, check, take, none, some, ok, Error, List, Option, [], ap}
use depscloud.Base.{refl, suc, zero, ℕ, ◌∷◌, ◌≡◌, Result, sym, ◌∙◌}
use depscloud.Tracker.Alpha.Store.{QueryAnswers, GraphStore, read_rows, list, find_upstream}
use depscloud.Tracker.Alpha.Store.{find_downstream, arrived, item_of, pair_of}
use depscloud.Tracker.Alpha.Types.{Row, ListRequest, FindRequest, GraphItem, GraphItemPair}
use depscloud.Tracker.Alpha.Sql.{Table}

read_rows-take :
    {R A : Type 0} (scan : R → Option Error) (read : R → A) (n : ℕ) (rs : List R) (items : List A)
    → read_rows scan read rs ≡ ok items
    → read_rows scan read (take n rs) ≡ ok (take n items)
unfolding read_rows
read_rows-take scan read zero rs items h = refl
read_rows-take scan read (suc n) [] items h = let e : [] ≡ items = cc h in rw (← e) refl
read_rows-take scan read (suc n) (r ∷ rs) items h =
    let (_, fine, h1) = >>=-eq-ok (check (scan r)) _ h in
    let (more, e, h2) = >>=-eq-ok (read_rows scan read rs) _ h1 in
    let same : read r ∷ more ≡ items = cc h2 in
    let rest = read_rows-take scan read n rs more e in
    rw fine (rw rest (ap (λ l. ok (take (suc n) l)) same))

-- The same answers of the database, but that an error ends the rows behind the first n.
abbrev pub cut : {R : Type 0} → ℕ → QueryAnswers R → QueryAnswers R
cut n answers = record answers { interrupted = some n }

read-cut :
    {R A : Type 0} (answers : QueryAnswers R) (read : R → A) (n : ℕ) (rows : List R)
    (items : List A)
    → answers.interrupted ≡ none
    → read_rows answers.scan read (arrived answers rows) ≡ ok items
    → read_rows answers.scan read (arrived (cut n answers) rows) ≡ ok (take n items)
read-cut answers read n rows items whole found =
    let all : arrived answers rows ≡ rows = rw whole refl in
    read_rows-take answers.scan read n rows items
      (sym (ap (read_rows answers.scan read) all) ∙ found)

-- A chain whose first step succeeds.
behind-ok :
    {A B : Type 0} (first : Result A) (rest : A → Result B) (a : A) (out : Result B)
    → first ≡ ok a
    → rest a ≡ out
    → (first >>= rest) ≡ out
behind-ok first rest a out e h = ap (λ r. r >>= rest) e ∙ h

list-cut :
    (gs : GraphStore) (answers : QueryAnswers Row) (n : ℕ) (req : ListRequest) (t : Table)
    (items : List GraphItem)
    → answers.interrupted ≡ none
    → list gs answers req t ≡ ok items
    → list gs (cut n answers) req t ≡ ok (take n items)
unfolding list
list-cut gs answers n req t items whole listed =
    let (u, queried, h) = >>=-eq-ok (check answers.query) _ listed in
    let (rows, accepted, read) =
      >>=-eq-ok _ (λ rs. read_rows answers.scan item_of (arrived answers rs)) h in
    behind-ok (check answers.query) _ u _ queried (
      behind-ok _ (λ rs. read_rows answers.scan item_of (arrived (cut n answers) rs)) rows _
        accepted (read-cut answers item_of n rows items whole read))

-- An error of the database that ends the rows behind the first n goes unnoticed: `List`,
-- `FindUpstream` and `FindDownstream`, where they succeed without it, succeed with it as well, and
-- answer with the first n items of what they would have answered.
pub reads-cut :
    (gs : GraphStore) (answers : QueryAnswers Row) (joined : QueryAnswers (Row × Row)) (n : ℕ)
    (req : ListRequest) (find : FindRequest) (t : Table) (items : List GraphItem)
    (up down : List GraphItemPair)
    → answers.interrupted ≡ none
    → joined.interrupted ≡ none
    → list gs answers req t ≡ ok items
    → find_upstream joined find t ≡ ok up
    → find_downstream joined find t ≡ ok down
    → (list gs (cut n answers) req t ≡ ok (take n items))
      × (find_upstream (cut n joined) find t ≡ ok (take n up))
      × (find_downstream (cut n joined) find t ≡ ok (take n down))
unfolding find_upstream find_downstream
reads-cut gs answers joined n req find t items up down whole whole' listed found found' =
    let (u, queried, read) = >>=-eq-ok (check joined.query) _ found in
    let (v, queried', read') = >>=-eq-ok (check joined.query) _ found' in
    (
      list-cut gs answers n req t items whole listed,
      behind-ok (check joined.query) _ u _ queried (read-cut joined pair_of n _ up whole' read),
      behind-ok (check joined.query) _ v _ queried' (read-cut joined pair_of n _ down whole' read'),
    )
