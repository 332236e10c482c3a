-- ===== src/Indexer/Remotes/Generic/Endless.antt =====
-- The generic remote without a page size.
use depscloud.Indexer.Remotes.Generic.{Endpoint, GenericConfig, generic_pages, generic_fetch}
use depscloud.Indexer.Remotes.Generic.Serves.{HasUrls, ask_page-urls, generic_fetch-pages}
use depscloud.Indexer.Remotes.Generic.Serves.{generic_pages-next, is_incomplete-full}
use depscloud.Indexer.Remotes.Generic.Serves.{repositories_at}
use depscloud.Base.Bytes.{Bytes}
use depscloud.Base.{List, [], arith, length, none, ok, refl, suc, zero, ℕ, ◌++◌, ◌<◌, ◌∙◌, ◌≡◌}
use depscloud.Indexer.Remotes.{Repository}
use depscloud.Codec.Int64.{add64}
use depscloud.Base.Int32.{pos, ℤ}

module _ {Tokens Tree : Type 0} (endpoint : Endpoint Tokens Tree) (config : GenericConfig)
    (tree : Tree) (urls_at : ℤ → List Bytes) (unset : config.page_size ≡ pos 0)
    (serves : (page : ℤ) → HasUrls endpoint config tree page (urls_at page))
    (fits : (page : ℤ) → length (urls_at page) < 2147483648) where
  generic_pages-unset :
      (fuel : ℕ) (page : ℤ) (found : List Repository)
      → generic_pages endpoint config tree fuel page found ≡ none
  unfolding generic_pages
  generic_pages-unset zero page found = refl
  generic_pages-unset (suc fuel) page found =
      let more = repositories_at config.clone (urls_at page) in
      let full =
        is_incomplete-full endpoint config tree 0 unset (omega arith) (urls_at page) (omega arith)
          (fits page) in
      generic_pages-next endpoint config tree fuel page found more
        (ask_page-urls endpoint config tree page (urls_at page) (serves page)) full
      ∙ generic_pages-unset fuel (add64 page (pos 1)) (found ++ more)

-- Without a page size in its configuration the generic remote never ends on an endpoint that answers
-- every page, if with no URLs: no fuel is enough.
pub generic_fetch-unset :
    {Tokens Tree : Type 0} (endpoint : Endpoint Tokens Tree) (config : GenericConfig)
    (tokens : Tokens) (tree : Tree) (urls_at : ℤ → List Bytes)
    → endpoint.lexer config.selector ≡ ok tokens
    → endpoint.parser tokens ≡ ok tree
    → config.page_size ≡ pos 0
    → ((page : ℤ) → HasUrls endpoint config tree page (urls_at page))
    → ((page : ℤ) → length (urls_at page) < 2147483648)
    → (fuel : ℕ) → generic_fetch endpoint config fuel ≡ none
generic_fetch-unset endpoint config tokens tree urls_at lexed built unset serves fits fuel =
    generic_fetch-pages endpoint config tokens tree fuel lexed built
    ∙ generic_pages-unset endpoint config tree urls_at unset serves fits fuel (pos 1) []
