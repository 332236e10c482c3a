-- ===== src/Indexer/Remotes/Bitbucket.antt =====
-- indexer/internal/remotes/bitbucket.go.
use depscloud.Base.{◌>>=◌, list_eq, nat_eq, Bool, List, Option, Result, [], arith, false}
use depscloud.Base.{if◌then◌else◌, length, ltb, none, ok, option_eq, panic, refl, some, suc}
use depscloud.Base.{true, zero, ℕ, ◌%◌, ◌++◌, ◌+◌, ◌==◌, ◌∷◌, ◌≡◌, Bool-cases, In}
use depscloud.Base.{In-append_left, Option-cases, inl, inr, ◌⊎◌}
use depscloud.Indexer.Remotes.{Clone, CloneStrategy, Repository, http, ssh, or_strategy}
use depscloud.Indexer.Remotes.{unskipped}
use depscloud.Base.Bytes.{Bytes, bytes}
use depscloud.Tracker.Alpha.Types.{key_eq}
use depscloud.Tracker.Beta.Manifests.Edges.{names}
use depscloud.Base.Dict.{values}
use mathlib.Core.Path.{subst}

-- A value of `encoding/json` behind `interface{}`.
mutual
  pub data Json : Type 0 where
    json_null : Json
    json_bool : Bool → Json
    json_number : ℕ → Json
    json_text : Bytes → Json
    json_array : Items → Json
    json_object : Fields → Json

  pub data Items : Type 0 where
    nil : Items
    cons : Json → Items → Items

  pub data Fields : Type 0 where
    end : Fields
    field : Bytes → Json → Fields → Fields

-- Type assertions, which panic.
abbrev pub as_object : Json → Result Fields
as_object (json_object fields) = ok fields
as_object _ = panic

abbrev pub as_array : Json → Result Items
as_array (json_array items) = ok items
as_array _ = panic

abbrev pub as_text : Json → Result Bytes
as_text (json_text t) = ok t
as_text _ = panic

-- `fields[key]`, nil for a key that is missing.
unfoldable pub get_field : Bytes → Fields → Json
get_field key end = json_null
get_field key (field k value fields) =
    let rest = get_field key fields in if key == k then value else rest

-- The loop over `cloneURLs`.
unfoldable pub matching_urls : Bytes → Clone → Items → Result (List Repository)
unfolding get_field
matching_urls strategy clone nil = ok []
matching_urls strategy clone (cons url urls) = do
  curl ← as_object url
  name ← as_text (get_field (bytes "name") curl)
  here ←
      if name == strategy
      then (do
        href ← as_text (get_field (bytes "href") curl)
        ok (record { repository_url = href; clone = some clone } ∷ []))
      else ok []
  rest ← matching_urls strategy clone urls
  ok (here ++ rest)

-- The loop over `values`.
unfoldable pub convert_values : Bytes → Clone → Items → Result (List Repository)
unfolding matching_urls
convert_values strategy clone nil = ok []
convert_values strategy clone (cons value values) = do
  val ← as_object value
  links ← as_object (get_field (bytes "links") val)
  urls ← as_array (get_field (bytes "clone") links)
  here ← matching_urls strategy clone urls
  rest ← convert_values strategy clone values
  ok (here ++ rest)

-- `strategy`
abbrev pub strategy_name : CloneStrategy → Bytes
strategy_name http = bytes "https"
strategy_name ssh = bytes "ssh"

-- `convertRepositoriesResponse`
unfoldable pub convert_repositories_response : Json → Clone → Result (List Repository)
unfolding convert_values
convert_repositories_response response clone = do
  rdata ← as_object response
  values ← as_array (get_field (bytes "values") rdata)
  convert_values (strategy_name clone.strategy) clone values

-- How a fetch ends.
pub data Fetch : Type 0 where
  fetched : List Repository → Fetch
  panicked : Fetch
  out_of_fuel : Fetch

-- The fields of `config.Bitbucket` that are read.
pub record BitbucketConfig : Type 0 where
  pub users : List Bytes
  pub teams : List Bytes
  pub strategy : CloneStrategy
  pub clone : Option Clone
  pub skip_teams : List Bytes

-- `Repositories.List` of the client answers to a name and a page, `none` for an error.
module _ (call : Bytes → ℕ → Option Json) (clone : Clone) where
  -- `for page := uint64(1); true; page++`, where `continue` goes on to the next page. A page with
  -- fewer than 10 repositories is the last one.
  unfoldable pub fetch_pages : ℕ → Bytes → ℕ → List Repository → Fetch
  fetch_pages zero name page found = out_of_fuel
  fetch_pages (suc fuel) name page found = elim (call name page) [
    | none ↦ fetch_pages fuel name ((page + 1) % 18446744073709551616) found
    | some repos ↦ elim (convert_repositories_response repos clone) [
      | ok rr ↦ elim (ltb (length rr) 10) [
        | true ↦ fetched (found ++ rr)
        | false ↦ fetch_pages fuel name ((page + 1) % 18446744073709551616) (found ++ rr)
      ]
      | _ ↦ panicked
    ]
  ]

  -- The loops over users and over teams.
  unfoldable pub fetch_all : ℕ → List Bytes → List Repository → Fetch
  unfolding fetch_pages
  fetch_all fuel [] found = fetched found
  fetch_all fuel (name ∷ names) found = elim (fetch_pages fuel name 1 found) [
    | fetched found' ↦ fetch_all fuel names found'
    | panicked ↦ panicked
    | out_of_fuel ↦ out_of_fuel
  ]

-- `bitbucketRemote.FetchRepositories`
unfoldable pub bitbucket_fetch : (Bytes → ℕ → Option Json) → BitbucketConfig → ℕ → Fetch
unfolding fetch_all
bitbucket_fetch call config fuel =
    let clone = or_strategy config.clone config.strategy in
    fetch_all call clone fuel (config.users ++ unskipped config.skip_teams config.teams) []

fetch_pages-none :
    (call : Bytes → ℕ → Option Json) (clone : Clone) (fuel : ℕ) (name : Bytes) (page : ℕ)
    (found : List Repository)
    → ((page : ℕ) → call name page ≡ none)
    → fetch_pages call clone fuel name page found ≡ out_of_fuel
unfolding fetch_pages
fetch_pages-none call clone zero name page found down = refl
fetch_pages-none call clone (suc fuel) name page found down = ground (
  arith,
  down page,
  fetch_pages-none call clone fuel name ((page + 1) % 18446744073709551616) found down,
)

-- Every response has the form that the conversion asserts.
abbrev pub AreConverted : (Bytes → ℕ → Option Json) → Clone → Type 0
AreConverted call clone =
    (user : Bytes) (page : ℕ) (repos : Json)
    → call user page ≡ some repos
    → (rr : List Repository) × (convert_repositories_response repos clone ≡ ok rr)

-- Pages that are followed to an end, or for ever.
abbrev HasNoPanic : Fetch → Type 0
HasNoPanic result = ((found : List Repository) × (result ≡ fetched found)) ⊎ (result ≡ out_of_fuel)

fetch_pages-HasNoPanic :
    (call : Bytes → ℕ → Option Json) (clone : Clone)
    → AreConverted call clone
    → (fuel : ℕ) (name : Bytes) (page : ℕ) (found : List Repository)
    → HasNoPanic (fetch_pages call clone fuel name page found)
unfolding fetch_pages
fetch_pages-HasNoPanic call clone forms zero name page found = inr refl
fetch_pages-HasNoPanic call clone forms (suc fuel) name page found =
    let next = (page + 1) % 18446744073709551616 in
    elim (Option-cases (call name page)) [
      | inl none_here ↦
          rw (none_here, fetch_pages) (fetch_pages-HasNoPanic call clone forms fuel name next found)
      | inr (repos, here) ↦
          let (rr, converts) = forms name page repos here in
          elim (Bool-cases (ltb (length rr) 10)) [
            | inl short ↦ inl (found ++ rr, ground (arith, here, converts, short))
            | inr long ↦
                rw (here, fetch_pages)
                  (rw (converts, long)
                    (fetch_pages-HasNoPanic call clone forms fuel name next (found ++ rr)))
          ]
    ]

fetch_all-none :
    (call : Bytes → ℕ → Option Json) (clone : Clone)
    → AreConverted call clone
    → (fuel : ℕ) (name : Bytes) (names : List Bytes) → In name names
    → ((page : ℕ) → call name page ≡ none)
    → (found : List Repository) → fetch_all call clone fuel names found ≡ out_of_fuel
unfolding fetch_all
fetch_all-none call clone forms fuel name [] configured down found = absurd configured
fetch_all-none call clone forms fuel name (n ∷ names) (inl here) down found = ground (
  arith,
  fetch_pages-none call clone fuel n 1 found
      (λ page. subst (λ m. call m page ≡ none) here (down page)),
)
fetch_all-none call clone forms fuel name (n ∷ names) (inr there) down found =
    elim (fetch_pages-HasNoPanic call clone forms fuel n 1 found) [
      | inl (found', e) ↦
          rw (e, fetch_all) (fetch_all-none call clone forms fuel name names there down found')
      | inr e ↦ ground (arith, e)
    ]

-- Where every response has the form that the conversion asserts, a user whose repositories cannot be
-- listed keeps the Bitbucket remote in its loop for ever, whatever stands before it: no fuel is
-- enough.
pub bitbucket_fetch-none :
    (call : Bytes → ℕ → Option Json) (config : BitbucketConfig) (name : Bytes)
    → AreConverted call (or_strategy config.clone config.strategy)
    → In name config.users
    → ((page : ℕ) → call name page ≡ none)
    → (fuel : ℕ) → bitbucket_fetch call config fuel ≡ out_of_fuel
unfolding bitbucket_fetch
bitbucket_fetch-none call config name forms configured down fuel =
    fetch_all-none call (or_strategy config.clone config.strategy) forms fuel name
      (config.users ++ unskipped config.skip_teams config.teams)
      (In-append_left name config.users _ configured) down []
