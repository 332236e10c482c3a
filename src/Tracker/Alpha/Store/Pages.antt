-- ===== src/Tracker/Alpha/Store/Pages.antt =====
-- The paging of `List` in tracker/internal/graphstore/v1alpha/server.go.
use depscloud.Tracker.Alpha.Sql.{Driver, sqlite, mysql, postgres, Table, list_graph_data}
use depscloud.Tracker.Alpha.Sql.{of_type}
use native.Mathlib.Nat.{zero-mul, suc-mul}
use depscloud.Base.{◌>>◌, check, ◌>>=◌, err, All, List, [], arith, drop, if◌then◌else◌, ltb, map}
use depscloud.Base.{none, ok, take, ℕ, ◌*◌, ◌-◌, ◌<◌, ◌∷◌, ◌≡◌, ◌≤◌, Result, suc, zero, ◌++◌, ap}
use depscloud.Base.{refl, sym, take-append-take-drop, ◌∙◌}
use depscloud.Base.{Error, Option}
use depscloud.Tracker.Alpha.Types.{ListRequest, Row, GraphItem}
use depscloud.Tracker.Alpha.Store.{QueryAnswers, item_of, list, list_limit, list_offset}
use depscloud.Tracker.Alpha.Store.{list_page, GraphStore}
use depscloud.Tracker.Alpha.Store.{arrived, or_refusal, read_rows}
use depscloud.Base.Int32.{mul32-pos, mul32-wraps, negsuc, pos, sub32-one, ℤ}
use depscloud.Tracker.Alpha.Store.Reads.{read_rows-map}
use depscloud.Base.Bytes.{Bytes}
use mathlib.Core.List.{map-append}
use mathlib.Core.Path.{ap₂}

-- The count of a request as the limit of its page, and its page as a page from 1.
abbrev pub limit_of : ℤ → ℕ
limit_of (pos c) = if ltb c 10 then 10 else if ltb 100 c then 100 else c
limit_of (negsuc _) = 10

abbrev pub page_of : ℤ → ℕ
page_of (pos p) = if ltb p 1 then 1 else p
page_of (negsuc _) = 1

list_limit-limit_of : (req : ListRequest) → list_limit req ≡ pos (limit_of req.count)
unfolding list_limit
list_limit-limit_of req = ground arith

list_page-page_of : (req : ListRequest) → list_page req ≡ pos (page_of req.page)
unfolding list_page
list_page-page_of req = ground arith

limit_of_bounds : (c : ℤ) → (10 ≤ limit_of c) × (limit_of c ≤ 100)
limit_of_bounds c = ground arith

page_of-pos : (p : ℤ) → 1 ≤ page_of p
page_of-pos p = ground arith

-- The number of rows before the page.
abbrev pub skipped : ListRequest → ℕ
skipped req = (page_of req.page - 1) * limit_of req.count

-- As long as the number of rows before the page is an int32, it is the offset.
list_offset-skipped :
    (req : ListRequest)
    → page_of req.page < 2147483648
    → skipped req < 2147483648
    → list_offset req ≡ pos (skipped req)
unfolding list_offset
list_offset-skipped req fits h =
    rw (list_page-page_of req, list_limit-limit_of req)
      (rw (sub32-one (page_of req.page) fits (page_of-pos req.page)) (
        mul32-pos (page_of req.page - 1) (limit_of req.count) h (omega arith)
          (omega (arith, limit_of_bounds req.count))))

-- From there on the offset wraps round to a negative number.
list_offset-wraps :
    (req : ListRequest)
    → page_of req.page < 2147483648
    → 2147483648 ≤ skipped req
    → skipped req < 4294967296
    → list_offset req ≡ negsuc (4294967295 - skipped req)
unfolding list_offset
list_offset-wraps req fits h below =
    rw (list_page-page_of req, list_limit-limit_of req)
      (rw (sub32-one (page_of req.page) fits (page_of-pos req.page)) (
        mul32-wraps (page_of req.page - 1) (limit_of req.count) h below (omega arith)
          (omega (arith, limit_of_bounds req.count))))

limit_of-pos : (n : ℕ) → 10 ≤ n → n ≤ 100 → limit_of (pos n) ≡ n
limit_of-pos n lo hi = ground arith

module _ (m n : ℕ) (lo : 10 ≤ n) where
  fits : suc m * n < 2147483648 → page_of (pos (suc m)) < 2147483648
  fits h = ground (arith, suc-le-mul h)
    where
      suc-le-mul : suc m * n < 2147483648 → suc m < 2147483648
      suc-le-mul h = grind arith

  skipped-suc :
      (item_type : Bytes)
      → n ≤ 100
      → skipped (record { page = pos (suc m); count = pos n; item_type = item_type }) ≡ m * n
  skipped-suc item_type hi = rw (limit_of-pos n lo hi) (ap (λ k. k * n) (ground arith))

abbrev pub request : Bytes → ℕ → ℕ → ListRequest
request item_type n p = record { page = pos p; count = pos n; item_type = item_type }

-- What `List` does with its limit and its offset.
abbrev listing :
    Driver → QueryAnswers Row → Bytes → Option Error → ℤ → ℤ → Table → Result (List GraphItem)
listing d answers item_type query limit offset t = do
  check query
  rows ←
      or_refusal answers.refusal
        (list_graph_data d answers.arrangement.order item_type limit offset t)
  read_rows answers.scan item_of (arrived answers rows)

-- One value on sqlite, and another on MySQL and Postgres.
abbrev pub on_sqlite : {A : Type 0} → Driver → A → A → A
on_sqlite sqlite a b = a
on_sqlite mysql a b = b
on_sqlite postgres a b = b

-- A negative offset, by the dialect.
listing-negative :
    (d : Driver) (answers : QueryAnswers Row) (item_type : Bytes) (limit n : ℕ) (t : Table)
    → listing d answers item_type none (pos limit) (negsuc n) t
      ≡ on_sqlite d (listing d answers item_type none (pos limit) (pos 0) t) (err answers.refusal)
unfolding list_graph_data
listing-negative sqlite answers item_type limit n t = refl
listing-negative mysql answers item_type limit n t = refl
listing-negative postgres answers item_type limit n t = refl

module _ (gs : GraphStore) (answers : QueryAnswers Row) (queried : answers.query ≡ none) where
  list-body :
      (req : ListRequest) (t : Table)
      → list gs answers req t
        ≡ listing gs.statements answers req.item_type answers.query
            (list_limit req)
            (list_offset req)
            t
  unfolding list
  list-body req t = refl

  list-listing :
      (req : ListRequest) (t : Table) (offset : ℤ)
      → list_offset req ≡ offset
      → list gs answers req t
        ≡ listing gs.statements answers req.item_type none (pos (limit_of req.count)) offset t
  list-listing req t offset start =
      list-body req t
      ∙ ap (λ q. listing gs.statements answers req.item_type q (list_limit req) (list_offset req) t)
          queried
      ∙ ap₂ (λ l o. listing gs.statements answers req.item_type none l o t)
          (list_limit-limit_of req) start

  -- A page that lies 2 ^ 31 rows or more behind the first, and less than 2 ^ 32, has a negative
  -- offset: where the query itself gets through, sqlite answers like the first page, and MySQL and
  -- Postgres with the error by which they refuse it.
  pub list-wraps :
      (req : ListRequest) (t : Table)
      → page_of req.page < 2147483648
      → 2147483648 ≤ skipped req
      → skipped req < 4294967296
      → list gs answers req t
        ≡ on_sqlite gs.statements
            (list gs answers (record req { page = pos 1 }) t)
            (err answers.refusal)
  list-wraps req t small h below =
      list-listing req t _ (list_offset-wraps req small h below)
      ∙ listing-negative gs.statements answers req.item_type (limit_of req.count) _ t
      ∙ ap (λ r. on_sqlite gs.statements r (err answers.refusal))
          (sym (
            list-listing (record req { page = pos 1 }) t (pos 0)
              (first (record req { page = pos 1 }) (omega arith))))
    where
      first : (r : ListRequest) → page_of r.page ≡ 1 → list_offset r ≡ pos 0
      first r e =
          list_offset-skipped r (omega arith) (rw e (omega (arith, zero-mul (limit_of r.count))))
          ∙ ap pos (rw e (zero-mul (limit_of r.count)))

  module _ (whole : answers.interrupted ≡ none) (scanned : (r : Row) → answers.scan r ≡ none) where
    -- `List` answers with the rows of the type that follow those before the page, as many as the
    -- limit allows.
    list-window :
        (req : ListRequest) (t : Table)
        → page_of req.page < 2147483648
        → skipped req < 2147483648
        → list gs answers req t
          ≡ ok (
              map item_of (
                take
                  (limit_of req.count)
                  (drop (skipped req) (answers.arrangement.order (of_type req.item_type t)))))
    unfolding list_graph_data
    list-window req t fits h =
        let rows =
          take (limit_of req.count)
            (drop (skipped req) (answers.arrangement.order (of_type req.item_type t))) in
        let all : arrived answers rows ≡ rows = rw whole refl in
        list-listing req t _ (list_offset-skipped req fits h)
        ∙ ap (read_rows answers.scan item_of) all
        ∙ read_rows-map answers.scan item_of rows (all_scanned rows)
      where
        all_scanned : (rs : List Row) → All (λ r. answers.scan r ≡ none) rs
        all_scanned [] = tt
        all_scanned (r ∷ rs) = (scanned r, all_scanned rs)

    pub list-page :
        (item_type : Bytes) (n m : ℕ) (t : Table)
        → 10 ≤ n
        → n ≤ 100
        → suc m * n < 2147483648
        → list gs answers (request item_type n (suc m)) t
          ≡ ok (
              map item_of (take n (drop (m * n) (answers.arrangement.order (of_type item_type t)))))
    list-page item_type n m t lo hi h =
        list-window (request item_type n (suc m)) t (fits m n lo h)
          (rw (skipped-suc m n lo item_type hi) (grind arith))
        ∙ ap₂
            (λ a b.
              ok (map item_of (take a (drop b (answers.arrangement.order (of_type item_type t))))))
            (limit_of-pos n lo hi) (skipped-suc m n lo item_type hi)

-- Calls whose queries are all answered in full.
pub record AreWhole (answers : ℕ → QueryAnswers Row) : Type 0 where
  pub queried : (m : ℕ) → (answers m).query ≡ none
  pub whole : (m : ℕ) → (answers m).interrupted ≡ none
  pub scanned : (m : ℕ) (r : Row) → (answers m).scan r ≡ none

module _ (gs : GraphStore) (answers : ℕ → QueryAnswers Row) (all_whole : AreWhole answers) where
  -- What a client has after it asked for the pages 1 to m, each of which is a query of its own.
  abbrev pub pages : Bytes → ℕ → Table → ℕ → Result (List GraphItem)
  pages item_type n t zero = ok []
  pages item_type n t (suc m) = do
    before ← pages item_type n t m
    page ← list gs (answers (suc m)) (request item_type n (suc m)) t
    ok (before ++ page)

  -- Where each query is answered in full, and all of them read the rows of the type in one order,
  -- which no statement asks for: the pages 1 to m of a count between 10 and 100 hold the first
  -- m * count rows in that order, each once, and none is skipped or repeated where one page ends and
  -- the next begins. The product has to be an int32.
  pub pages-take :
      (item_type : Bytes) (n : ℕ) (t rows : Table) (m : ℕ)
      → ((p : ℕ) → (answers p).arrangement.order (of_type item_type t) ≡ rows)
      → 10 ≤ n
      → n ≤ 100
      → m * n < 2147483648
      → pages item_type n t m ≡ ok (map item_of (take (m * n) rows))
  pages-take item_type n t rows zero one lo hi h = rw zero-mul
  pages-take item_type n t rows (suc m) one lo hi h =
      let page =
        list-page gs (answers (suc m)) (all_whole.queried (suc m)) (all_whole.whole (suc m))
          (all_whole.scanned (suc m)) item_type n m t lo hi h
        ∙ ap (λ rs. ok (map item_of (take n (drop (m * n) rs)))) (one (suc m)) in
      rw (pages-take item_type n t rows m one lo hi (grind arith), page)
        (rw (← map-append, take-append-take-drop) (rw suc-mul))
