-- ===== src/Tracker/Beta/Listing/Pages.antt =====
-- The pages of `List` over the SQL driver, as a client sees them that hands each token back.
use depscloud.Tracker.Beta.Driver.{Table, Answers, Driver, live_of_kind}
use depscloud.Tracker.Beta.Listing.{list, ListRequest}
use depscloud.Base.{◌>>=◌, Result, panic, ok, List, [], list_eq}
use depscloud.Base.{nat_eq, option_eq, suc, zero, ℕ, ◌++◌, ◌∷◌}
use depscloud.Base.{◌≡◌, Bool, drop, none}
use depscloud.Base.Bytes.{Bytes}
use depscloud.Tracker.Beta.Types.{Edge, GraphData, Node}
use depscloud.Tracker.Alpha.Types.{key_eq}
use depscloud.Base.Int32.{pos, ℤ}
use depscloud.Tracker.Alpha.Store.Pages.{pages}

-- What is behind a page: nothing where there is no token.
unfoldable pub behind_page :
    (Bytes → Result (List Node × List Edge)) → Bytes → Result (List Node × List Edge)
behind_page pages [] = ok ([], [])
behind_page pages (c ∷ token) = pages (c ∷ token)

-- A client of `List` that asks for pages until a response has no token.
unfoldable pub list_pages :
    {S : Type 0} → Driver S → ℕ → Bytes → ℤ → Bytes → S → Result (List Node × List Edge)
unfolding behind_page list
list_pages driver zero kind page_size token s = panic
list_pages driver (suc fuel) kind page_size token s = do
  response ← list driver (record { kind = kind; page_token = token; page_size = page_size }) s
  rest ← behind_page (λ next. list_pages driver fuel kind page_size next s) response.next_page_token
  ok (response.nodes ++ rest.0, response.edges ++ rest.1)

module _ (writable : Bool) (answers : Answers) (kind : Bytes) (limit : ℕ) (t : Table)
    (queried : answers.query ≡ none) (scanned : (g : GraphData) → answers.scan_row g ≡ none)
    (whole : answers.interrupted ≡ none) where
  abbrev request : Bytes → ListRequest
  request token = record { kind = kind; page_token = token; page_size = pos limit }

  abbrev behind : ℕ → List GraphData
  behind offset = drop offset (live_of_kind kind t)
