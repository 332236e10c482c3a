-- ===== src/Indexer/Remotes/Generic/Serves.antt =====
-- What the generic remote lists from an endpoint that serves pages of URLs.
use depscloud.Base.{List, Option, [], arith, false, inl, inr, length, list_eq, map, nat_eq, none}
use depscloud.Base.{ok, option_eq, refl, some, suc, true, zero, ℕ, ◌%◌, ◌++◌, ◌+◌, ◌<◌, ◌==◌}
use depscloud.Base.{◌∷◌, ◌≡◌, ◌≢◌, ◌≤◌, ◌⊎◌, ap, length-map, sym, ℕ_discrete, ◌∙◌, ◌>>=◌}
use depscloud.Indexer.Remotes.{Clone, Repository}
use depscloud.Indexer.Remotes.Bitbucket.{Json, Items, nil, cons, json_array, json_text}
use depscloud.Indexer.Remotes.Generic.{Endpoint, GenericConfig, Response, full_url, entries}
use depscloud.Indexer.Remotes.Generic.{ask_page, is_incomplete, generic_pages, generic_fetch}
use depscloud.Indexer.Remotes.Pages.{flatten}
use depscloud.Codec.Int64.{add64-pos, add64}
use depscloud.Base.Int32.{ℤ, pos, gtb, of_bits}
use depscloud.Base.Bytes.{Bytes}
use depscloud.Tracker.Alpha.Types.{key_eq}
use depscloud.Tracker.Alpha.Store.Pages.{pages}
use mathlib.Core.List.{append-nil, append_assoc, map-append}

abbrev pub texts : List Bytes → Items
texts [] = nil
texts (url ∷ urls) = cons (json_text url) (texts urls)

abbrev pub repositories_at : Option Clone → List Bytes → List Repository
repositories_at clone = map (λ url. record { repository_url = url; clone = clone })

entries-texts :
    (clone : Option Clone) (urls : List Bytes)
    → entries clone (texts urls) ≡ ok (repositories_at clone urls)
unfolding entries
entries-texts clone [] = refl
entries-texts clone (url ∷ urls) = rw (entries-texts clone urls) refl

module _ {Tokens Tree : Type 0} (endpoint : Endpoint Tokens Tree) (config : GenericConfig)
    (tree : Tree) where
  -- The endpoint has no page of this number.
  pub record IsGone (page : ℤ) : Type 0 where
    pub response : Response
    pub got : endpoint.get (full_url config page) ≡ ok response
    pub missing : response.status_code ≡ 404

  -- The selector finds these URLs on the page of this number.
  pub record HasUrls (page : ℤ) (urls : List Bytes) : Type 0 where
    pub response : Response
    pub text : Bytes
    pub message : Json
    pub got : endpoint.get (full_url config page) ≡ ok response
    pub found : response.status_code ≢ 404
    pub read : response.body ≡ ok text
    pub parsed : endpoint.unmarshal text ≡ ok message
    pub selected : endpoint.eval tree message ≡ ok (json_array (texts urls))

  -- The pages from one number on, of a size: full ones, then one with fewer URLs or none at all.
  abbrev pub ServesUrls : ℕ → ℕ → List (List Bytes) → Type 0
  ServesUrls size n [] = IsGone (pos n)
  ServesUrls size n (urls ∷ pages) =
      HasUrls (pos n) urls
      × (((length urls < size) × (pages ≡ []))
          ⊎ ((size ≤ length urls) × (length urls < 2147483648) × ServesUrls size (suc n) pages))

  ask_page-gone : (page : ℤ) → IsGone page → ask_page endpoint config tree page ≡ ok none
  unfolding ask_page nat_eq ℕ_discrete
  ask_page-gone page g = rw (g.got, g.missing) refl

  pub ask_page-urls :
      (page : ℤ) (urls : List Bytes)
      → HasUrls page urls
      → ask_page endpoint config tree page ≡ ok (some (repositories_at config.clone urls))
  unfolding ask_page
  ask_page-urls page urls h =
      let there : (h.response.status_code == 404) ≡ false =
        eq-false h.response.status_code h.found in
      rw (h.got, there)
        (rw (h.read, h.parsed) (rw (h.selected, entries-texts config.clone urls) refl))
    where
      eq-false : (c : ℕ) → c ≢ 404 → (c == 404) ≡ false
      eq-false c h = ground arith

  incomplete :
      (size count : ℕ)
      → size < 2147483648
      → count < size
      → gtb (pos size) (of_bits (count % 4294967296)) ≡ true
  incomplete size count small few = ground arith

  complete :
      (size count : ℕ)
      → size ≤ count
      → count < 2147483648
      → gtb (pos size) (of_bits (count % 4294967296)) ≡ false
  complete size count full small = ground arith

  -- The three ways in which a round goes on.
  module _ (fuel : ℕ) (page : ℤ) (found : List Repository) where
    generic_pages-gone :
        ask_page endpoint config tree page ≡ ok none
        → generic_pages endpoint config tree (suc fuel) page found ≡ some (ok found)
    unfolding generic_pages
    generic_pages-gone gone = ground (arith, gone)

    generic_pages-last :
        (more : List Repository)
        → ask_page endpoint config tree page ≡ ok (some more)
        → is_incomplete endpoint config more ≡ true
        → generic_pages endpoint config tree (suc fuel) page found ≡ some (ok (found ++ more))
    unfolding generic_pages
    generic_pages-last more asked short = rw (asked, generic_pages) (rw short refl)

    pub generic_pages-next :
        (more : List Repository)
        → ask_page endpoint config tree page ≡ ok (some more)
        → is_incomplete endpoint config more ≡ false
        → generic_pages endpoint config tree (suc fuel) page found
          ≡ generic_pages endpoint config tree fuel (add64 page (pos 1)) (found ++ more)
    unfolding generic_pages
    generic_pages-next more asked full = rw (asked, generic_pages) (rw full refl)

  module _ (size : ℕ) (sized : config.page_size ≡ pos size) (small : size < 2147483648) where
    abbrev repositories : List Bytes → List Repository
    repositories = repositories_at config.clone

    is_incomplete-short :
        (urls : List Bytes)
        → length urls < size
        → is_incomplete endpoint config (repositories urls) ≡ true
    is_incomplete-short urls few =
        rw (sized, length-map _ urls) (incomplete size (length urls) small few)

    pub is_incomplete-full :
        (urls : List Bytes)
        → size ≤ length urls
        → length urls < 2147483648
        → is_incomplete endpoint config (repositories urls) ≡ false
    is_incomplete-full urls full fits =
        rw (sized, length-map _ urls) (complete size (length urls) full fits)

    generic_pages-ServesUrls :
        (listing : List (List Bytes)) (fuel n : ℕ) (found : List Repository)
        → ServesUrls size n listing
        → length listing < fuel
        → n + length listing < 9223372036854775807
        → generic_pages endpoint config tree fuel (pos n) found
          ≡ some (ok (found ++ repositories (flatten listing)))
    generic_pages-ServesUrls listing zero n found s enough within = absurd (omega arith)
    generic_pages-ServesUrls [] (suc fuel) n found gone enough within =
        generic_pages-gone fuel (pos n) found (ask_page-gone (pos n) gone)
        ∙ ap (λ l. some (ok l)) (sym (append-nil found))
    generic_pages-ServesUrls (urls ∷ listing) (suc fuel) n found (h, inl (few, last)) enough
          within =
        generic_pages-last fuel (pos n) found (repositories urls) (ask_page-urls (pos n) urls h)
          (is_incomplete-short urls few)
        ∙ ap (λ l. some (ok (found ++ repositories l)))
            (sym (ap (λ l. urls ++ flatten l) last ∙ append-nil urls))
    generic_pages-ServesUrls (urls ∷ listing) (suc fuel) n found (h, inr (full, fits, s)) enough
          within =
        let next : add64 (pos n) (pos 1) ≡ pos (suc n) =
          add64-pos n 1 (omega arith) ∙ ap pos (omega arith) in
        let joined = map-append _ urls (flatten listing) in
        generic_pages-next fuel (pos n) found (repositories urls) (ask_page-urls (pos n) urls h)
          (is_incomplete-full urls full fits)
        ∙ ap (λ p. generic_pages endpoint config tree fuel p (found ++ repositories urls)) next
        ∙ generic_pages-ServesUrls listing fuel (suc n) (found ++ repositories urls) s (omega arith)
            (omega arith)
        ∙ ap (λ l. some (ok l))
            (append_assoc found (repositories urls) (repositories (flatten listing))
              ∙ ap (λ l. found ++ l) (sym joined))

-- A selector that is read starts the loop over pages.
pub generic_fetch-pages :
    {Tokens Tree : Type 0} (endpoint : Endpoint Tokens Tree) (config : GenericConfig)
    (tokens : Tokens) (tree : Tree) (fuel : ℕ)
    → endpoint.lexer config.selector ≡ ok tokens
    → endpoint.parser tokens ≡ ok tree
    → generic_fetch endpoint config fuel ≡ generic_pages endpoint config tree fuel (pos 1) []
unfolding generic_fetch
generic_fetch-pages endpoint config tokens tree fuel lexed built =
    let compiled : (endpoint.lexer config.selector >>= λ ts. endpoint.parser ts) ≡ ok tree =
      rw lexed built in
    rw (compiled, generic_fetch) refl

-- From an endpoint whose pages from 1 on hold as many URLs as the configured size, or more, up to
-- one that holds fewer or that is missing: the generic remote ends, and lists the URLs of every
-- page in order. The selector has to be one that the library reads.
pub generic_fetch-ServesUrls :
    {Tokens Tree : Type 0} (endpoint : Endpoint Tokens Tree) (config : GenericConfig)
    (tokens : Tokens) (tree : Tree) (size fuel : ℕ) (listing : List (List Bytes))
    → endpoint.lexer config.selector ≡ ok tokens
    → endpoint.parser tokens ≡ ok tree
    → config.page_size ≡ pos size
    → size < 2147483648
    → ServesUrls endpoint config tree size 1 listing
    → length listing < fuel
    → 1 + length listing < 9223372036854775807
    → generic_fetch endpoint config fuel
      ≡ some (ok (repositories_at config.clone (flatten listing)))
generic_fetch-ServesUrls endpoint config tokens tree size fuel listing lexed built sized small s
      enough within =
    generic_fetch-pages endpoint config tokens tree fuel lexed built
    ∙ generic_pages-ServesUrls endpoint config tree size sized small listing fuel 1 [] s enough
        within
