-- ===== src/Indexer/Remotes/Generic.antt =====
-- indexer/internal/remotes/generic.go: a remote that pages through any JSON endpoint. The HTTP
-- client, the parser of JSON and the library of selectors are parameters.
pub mod Serves
pub mod Endless
use depscloud.Base.{◌>>=◌, Bool, List, Option, Result, [], err, false, if◌then◌else◌, length}
use depscloud.Base.{list_eq, ltb, nat_eq, none, ok, option_eq, panic, some, suc, true, zero, ℕ}
use depscloud.Base.{◌%◌, ◌++◌, ◌+◌, ◌/◌, ◌==◌, ◌∷◌, ◌≡◌}
use depscloud.Indexer.Remotes.{Clone, Repository}
use depscloud.Indexer.Remotes.Bitbucket.{Json, Items, nil, cons, as_array, as_text}
use depscloud.Codec.Int64.{add64, decimal}
use depscloud.Base.Int32.{ℤ, pos, negsuc, gtb, of_bits}
use depscloud.Base.Bytes.{Bytes}
use depscloud.Tracker.Alpha.Types.{key_eq}
use depscloud.Tracker.Alpha.Store.Pages.{pages}

-- The fields of `config.Generic` that are read.
pub record GenericConfig : Type 0 where
  pub base_url : Bytes
  pub path : Bytes
  pub page_parameter : Bytes
  pub per_page_parameter : Bytes
  pub page_size : ℤ
  pub selector : Bytes
  pub clone : Option Clone

-- `http.Response`, with what reading its body yields.
pub record Response : Type 0 where
  pub status_code : ℕ
  pub body : Result Bytes

-- The library `jee`, `http.Get` and `json.Unmarshal`.
pub record Endpoint (Tokens Tree : Type 0) : Type 0 where
  pub lexer : Bytes → Result Tokens
  pub parser : Tokens → Result Tree
  pub eval : Tree → Json → Result Json
  pub get : Bytes → Result Response
  pub unmarshal : Bytes → Result Json

-- `fullURL`
unfoldable pub full_url : GenericConfig → ℤ → Bytes
unfolding decimal
full_url config page =
    config.base_url
    ++ (config.path
        ++ (63 ∷ config.page_parameter
            ++ (61 ∷ decimal page
                ++ (38 ∷ config.per_page_parameter ++ (61 ∷ decimal config.page_size)))))

-- The loop over `resultArray`.
unfoldable pub entries : Option Clone → Items → Result (List Repository)
entries clone nil = ok []
entries clone (cons entry items) = do
  url ← as_text entry
  rest ← entries clone items
  ok (record { repository_url = url; clone = clone } ∷ rest)

module _ {Tokens Tree : Type 0} (endpoint : Endpoint Tokens Tree) (config : GenericConfig) where
  -- One round of the loop, up to the repositories of the page. A 404 is none.
  unfoldable pub ask_page : Tree → ℤ → Result (Option (List Repository))
  unfolding full_url entries
  ask_page tree page = do
    response ← endpoint.get (full_url config page)
    if response.status_code == 404 then ok none else (do
      body ← response.body
      umsg ← endpoint.unmarshal body
      result ← endpoint.eval tree umsg
      result_array ← as_array result
      repositories ← entries config.clone result_array
      ok (some repositories))

  -- `int32(len(resultArray)) < r.config.PageSize`
  abbrev pub is_incomplete : List Repository → Bool
  is_incomplete page = gtb config.page_size (of_bits (length page % 4294967296))

  -- `for page := 1; true; page++`. The result `none` is out of fuel.
  unfoldable pub generic_pages : Tree → ℕ → ℤ → List Repository → Option (Result (List Repository))
  unfolding ask_page add64
  generic_pages tree zero page repositories = none
  generic_pages tree (suc fuel) page repositories = elim (ask_page tree page) [
    | err e ↦ some (err e)
    | panic ↦ some panic
    | ok none ↦ some (ok repositories)
    | ok (some found) ↦ elim (is_incomplete found) [
      | true ↦ some (ok (repositories ++ found))
      | false ↦ generic_pages tree fuel (add64 page (pos 1)) (repositories ++ found)
    ]
  ]

  -- `genericRemote.FetchRepositories`
  unfoldable pub generic_fetch : ℕ → Option (Result (List Repository))
  unfolding generic_pages
  generic_fetch fuel = elim (do tokens ← endpoint.lexer config.selector; endpoint.parser tokens) [
    | ok tree ↦ generic_pages tree fuel (pos 1) []
    | err e ↦ some (err e)
    | panic ↦ some panic
  ]
