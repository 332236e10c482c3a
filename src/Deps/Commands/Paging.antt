-- ===== src/Deps/Commands/Paging.antt =====
-- The loop over pages in modules.go and sources.go of deps/internal/cmds/get/.
use depscloud.Tracker.Alpha.Schema.{Env, decode, as_module, module_type, Module}
use depscloud.Tracker.Alpha.Sql.{Table, of_type}
use depscloud.Base.{◌>>=◌, List, Result, arith, drop, length, none, ok, suc, take, zero, ℕ, ◌*◌}
use depscloud.Base.{◌+◌, ◌<◌, ◌≡◌, ◌≤◌, dec_lt, length-drop, length-take, list_eq, nat_eq}
use depscloud.Base.{option_eq, take-all, take-append-take-drop, ap, ◌++◌, ◌∙◌, [], refl, ◌∷◌}
use depscloud.Base.{>>=-eq-ok, length-map, map, sym, map-drop, map-take}
use depscloud.Deps.Commands.{pages_from, finished, int32, modules_command}
use depscloud.Base.Int32.{pos, ℤ}
use depscloud.Tracker.Alpha.Types.{key_eq, Row}
use mathlib.Core.Path.{ap₂}
use depscloud.Tracker.Alpha.Services.{ListResponse, each, list_modules}
use depscloud.Tracker.Alpha.Store.{GraphStore, item_of, list_page}
use depscloud.Tracker.Alpha.Store.Contract.{Answering, sql_client}
use depscloud.Base.Bytes.{Bytes}
use depscloud.Tracker.Alpha.Store.Pages.{list-page}

int32-small : (i : ℕ) → i < 2147483648 → int32 i ≡ pos i
int32-small i h = ground arith

module _ {A : Type 0} (list_page : ℤ → ℤ → Result (List A)) (fuel i : ℕ) (written items : List A)
    (page : list_page (int32 i) (pos 100) ≡ ok items) where
  pages_from-short :
      length items < 100
      → pages_from list_page (suc fuel) i written ≡ finished none (written ++ items)
  unfolding pages_from
  pages_from-short short = ground (arith, page)

  pages_from-full :
      100 ≤ length items
      → pages_from list_page (suc fuel) i written
        ≡ pages_from list_page fuel (i + 1) (written ++ items)
  unfolding pages_from
  pages_from-full full = ground (arith, page)

module _ {A : Type 0} (list_page : ℤ → ℤ → Result (List A)) (xs : List A) where
  -- From a server that cuts a list into pages of 100 the loop writes the list: each item once, in
  -- order, and the loop ends. The number of the last page has to be an int32.
  pages_from-take :
      ((m : ℕ)
        → suc m * 100 < 2147483648
        → list_page (pos (suc m)) (pos 100) ≡ ok (take 100 (drop (m * 100) xs)))
      → (fuel m : ℕ) → length xs + 200 < 2147483648
      → m * 100 ≤ length xs
      → length xs < (m + fuel) * 100
      → pages_from list_page fuel (suc m) (take (m * 100) xs) ≡ finished none xs
  pages_from-take page zero m small lo hi = absurd (omega arith)
  pages_from-take page (suc fuel) m small lo hi =
      let page_m : list_page (int32 (suc m)) (pos 100) ≡ ok (take 100 (drop (m * 100) xs)) =
        ap (λ i. list_page i (pos 100)) (int32-small (suc m) (omega arith))
        ∙ page m (omega arith) in
      let rest = length-drop (m * 100) xs lo in
      let joined = take-append-take-drop (m * 100) 100 xs in
      elim (dec_lt (length xs) (m * 100 + 100)) [
        | yes short ↦
            let whole = take-all 100 (drop (m * 100) xs) (omega arith) in
            let all = take-all (m * 100 + 100) xs (omega arith) in
            let few : length (take 100 (drop (m * 100) xs)) < 100 = rw whole (omega arith) in
            pages_from-short list_page fuel (suc m) (take (m * 100) xs) _ page_m few
            ∙ ap (finished none) (joined ∙ all)
        | no long ↦
            let full = length-take 100 (drop (m * 100) xs) (omega arith) in
            let onwards : take (m * 100) xs ++ take 100 (drop (m * 100) xs)
                ≡ take (suc m * 100) xs =
              joined ∙ ap (λ n. take n xs) (omega arith) in
            let next : suc m + 1 ≡ suc (suc m) = omega arith in
            pages_from-full list_page fuel (suc m) (take (m * 100) xs) _ page_m (omega arith)
            ∙ ap₂ (pages_from list_page fuel) next onwards
            ∙ pages_from-take page fuel (suc m) small (omega arith) (omega arith)
      ]

  pages_from-all :
      ((m : ℕ)
        → suc m * 100 < 2147483648
        → list_page (pos (suc m)) (pos 100) ≡ ok (take 100 (drop (m * 100) xs)))
      → (fuel : ℕ) → length xs + 200 < 2147483648
      → length xs < fuel * 100
      → pages_from list_page fuel 1 [] ≡ finished none xs
  pages_from-all page fuel small hi =
      let start : take (0 * 100) xs ≡ [] = refl in
      ap (pages_from list_page fuel 1) (sym start)
      ∙ pages_from-take page fuel 0 small (omega arith) (omega arith)

modules_command-list :
    {A : Type 0} (managed : Bytes → Result (List A)) (list_page : ℤ → ℤ → Result (List A))
    (fuel : ℕ)
    → modules_command managed list_page fuel [] ≡ pages_from list_page fuel 1 []
unfolding modules_command
modules_command-list managed list_page fuel = ground arith

module _ {A B : Type 0} (f : A → Result B) where
  each-nil : (ys : List B) → each f [] ≡ ok ys → ys ≡ []
  unfolding each
  each-nil ys h = cc h

  each-cons :
      (x : A) (xs : List A) (ys : List B)
      → each f (x ∷ xs) ≡ ok ys
      → (z : B) × (zs : List B) × (f x ≡ ok z) × (each f xs ≡ ok zs) × (ys ≡ z ∷ zs)
  unfolding each
  each-cons x xs ys h =
      let (z, h0, h1) = >>=-eq-ok (f x) _ h in
      let (zs, h2, h3) = >>=-eq-ok (each f xs) _ h1 in (z, zs, h0, h2, cc h3)

  each-drop :
      (m : ℕ) (xs : List A) (ys : List B) → each f xs ≡ ok ys → each f (drop m xs) ≡ ok (drop m ys)
  each-drop zero xs ys h = h
  each-drop (suc m) [] ys h =
      let e = each-nil ys h in h ∙ ap (λ y. ok y) (e ∙ sym (ap (drop (suc m)) e))
  each-drop (suc m) (x ∷ xs) ys h =
      let (z, zs, _, h2, e) = each-cons x xs ys h in rw e (each-drop m xs zs h2)

  each-take :
      (m : ℕ) (xs : List A) (ys : List B) → each f xs ≡ ok ys → each f (take m xs) ≡ ok (take m ys)
  unfolding each
  each-take zero xs ys h = refl
  each-take (suc m) [] ys h = let e = each-nil ys h in rw e refl
  each-take (suc m) (x ∷ xs) ys h =
      let (z, zs, h0, h2, e) = each-cons x xs ys h in rw (e, h0) (rw (each-take m xs zs h2) refl)

  length-each : (xs : List A) (ys : List B) → each f xs ≡ ok ys → length ys ≡ length xs
  length-each [] ys h = ap length (each-nil ys h)
  length-each (x ∷ xs) ys h =
      let (z, zs, _, h2, e) = each-cons x xs ys h in ap length e ∙ ap suc (length-each xs zs h2)

-- The items of a response.
abbrev pub items_of : {A : Type 0} → Result (ListResponse A) → Result (List A)
items_of r = do response ← r; ok response.items

module _ (env : Env) (gs : GraphStore) (a : Answering) (t : Table) where
  -- Where the database answers each query in full, reads the rows in the same order for each page,
  -- and holds only modules that can be read, `deps get modules` without a URL writes each module that
  -- a row holds, once and in that order, and ends. A row that is marked as deleted counts. The rows
  -- are so few that their pages have an int32 number.
  pub modules_command-all :
      (managed : Bytes → Result (List Module)) (ms : List Module) (fuel : ℕ)
      → a.list_answers.query ≡ none
      → a.list_answers.interrupted ≡ none
      → ((r : Row) → a.list_answers.scan r ≡ none)
      → each
          (λ item. as_module (decode env item).0)
          (map item_of (a.list_answers.arrangement.order (of_type module_type t)))
        ≡ ok ms
      → length (of_type module_type t) + 200 < 2147483648
      → length (of_type module_type t) < fuel * 100
      → modules_command managed
          (λ page count. items_of (list_modules env (sql_client gs a) page count t))
          fuel
          []
        ≡ finished none ms
  unfolding list_modules
  modules_command-all managed ms fuel queried whole scanned read small enough =
      let rows = a.list_answers.arrangement.order (of_type module_type t) in
      let same : length ms ≡ length (of_type module_type t) =
        length-each _ _ ms read
        ∙ length-map item_of rows
        ∙ a.list_answers.arrangement.size (of_type module_type t) in
      let server : ℤ → ℤ → Result (List Module) =
        λ page count. items_of (list_modules env (sql_client gs a) page count t) in
      let page : (m : ℕ)
          → suc m * 100 < 2147483648
          → server (pos (suc m)) (pos 100) ≡ ok (take 100 (drop (m * 100) ms)) =
        λ m h.
          let items =
            list-page gs a.list_answers queried whole scanned module_type 100 m t (omega arith)
              (omega arith) h in
          let window : map item_of (take 100 (drop (m * 100) rows))
              ≡ take 100 (drop (m * 100) (map item_of rows)) =
            map-take item_of 100 (drop (m * 100) rows)
            ∙ ap (take 100) (map-drop item_of (m * 100) rows) in
          let modules =
            each-take _ 100 (drop (m * 100) (map item_of rows)) _
              (each-drop _ (m * 100) (map item_of rows) ms read) in
          rw (items, window) (rw modules refl) in
      modules_command-list managed server fuel
      ∙ pages_from-all server ms page fuel (omega arith) (omega arith)
