-- ===== src/Indexer/Remotes.antt =====
-- indexer/internal/remotes/: the remotes that list repositories, with the set of
-- indexer/internal/set/ and the messages of indexer/internal/config/. This file has the types, the
-- static and the composite remote, and those of GitHub and GitLab.
pub mod Pages
pub mod Complete
pub mod Bitbucket
pub mod Generic
pub mod Configured
use depscloud.Base.Options.{◌>>=◌, is_some}
use depscloud.Base.{list_eq, nat_eq, Bool, List, Option, Result, [], err, keep, map, none, not}
use depscloud.Base.{ok, option_eq, panic, some, suc, zero, ℕ, ◌++◌, ◌∷◌}
use depscloud.Base.Bytes.{Bytes}
use depscloud.Base.Dict.{Dict, insert, lookup}
use depscloud.Tracker.Beta.Server.Groups.{group}
use depscloud.Tracker.Alpha.Types.{key_eq}
use depscloud.Tracker.Beta.Manifests.Edges.{names}

-- `config.CloneStrategy`
pub data CloneStrategy : Type 0 where
  ssh http : CloneStrategy

-- `config.Basic`
pub record Basic : Type 0 where
  pub username : Bytes
  pub password : Bytes

-- `config.PublicKey`
pub record PublicKey : Type 0 where
  pub user : Bytes
  pub private_key_path : Bytes
  pub private_key : Bytes
  pub password : Bytes

-- `config.Clone`
pub record Clone : Type 0 where
  pub strategy : CloneStrategy
  pub basic : Option Basic
  pub public_key : Option PublicKey

-- `Repository`
pub record Repository : Type 0 where
  pub repository_url : Bytes
  pub clone : Option Clone

-- `set.FromSlice`, whose values are all true, and `Contains`.
unfoldable pub from_slice : List Bytes → Dict Bytes (Unit {0})
from_slice [] = []
from_slice (item ∷ items) = insert item tt (from_slice items)

abbrev pub set_contains : Dict Bytes (Unit {0}) → Bytes → Bool
set_contains s item = is_some (lookup item s)

-- `staticRemote.FetchRepositories`, of its URLs and its `Clone`.
unfoldable pub static_fetch : List Bytes → Option Clone → List Repository
static_fetch urls clone = map (λ u. record { repository_url = u; clone = clone }) urls

-- `compositeRemote.FetchRepositories`, of what each remote answers. A panic goes on.
unfoldable pub composite_fetch : List (Result (List Repository)) → Result (List Repository)
composite_fetch [] = ok []
composite_fetch (panic ∷ answers) = panic
composite_fetch (err _ ∷ answers) = composite_fetch answers
composite_fetch (ok repos ∷ answers) = elim (composite_fetch answers) [
  | ok rest ↦ ok (repos ++ rest)
  | err e ↦ err e
  | panic ↦ panic
]

-- `if cloneConfig == nil`: a fallback with the strategy alone.
abbrev pub or_strategy : Option Clone → CloneStrategy → Clone
or_strategy (some clone) strategy = clone
or_strategy none strategy = record { strategy = strategy; basic = none; public_key = none }

-- A page of a listing, with the number of the next page, 0 behind the last one.
pub record Page (A : Type 0) : Type 0 where
  pub items : List A
  pub next : ℕ

-- `for page := 1; page != 0; { … }`, which ends at the first error: a call answers
-- `none` for one. The result `none` is out of fuel.
unfoldable pub follow : {A : Type 0} → (ℕ → Option (Page A)) → ℕ → ℕ → List A → Option (List A)
follow call zero page found = none
follow call (suc fuel) zero found = some found
follow call (suc fuel) (suc page) found = elim (call (suc page)) [
  | some response ↦ follow call fuel response.next (found ++ response.items)
  | none ↦ some found
]

-- A repository of a listing, with the two URLs that it is cloned from.
pub record Listed : Type 0 where
  pub http_url : Bytes
  pub ssh_url : Bytes

abbrev pub repository_of : Clone → Listed → Repository
repository_of clone l = record {
  repository_url = elim clone.strategy [ http ↦ l.http_url | ssh ↦ l.ssh_url ];
  clone = some clone;
}

-- The loops over users, organizations and groups, one listing after the other.
unfoldable pub follow_all :
    {A : Type 0} → (Bytes → ℕ → Option (Page A)) → ℕ → List Bytes → List A → Option (List A)
unfolding follow
follow_all call fuel [] found = some found
follow_all call fuel (name ∷ names) found = do
  found' ← follow (call name) fuel 1 found
  follow_all call fuel names found'

-- `if skip.Contains(name) { continue }`
abbrev pub unskipped : List Bytes → List Bytes → List Bytes
unskipped skip = keep (λ name. not (set_contains (from_slice skip) name))

-- The fields of `config.Github` that are read.
pub record GithubConfig : Type 0 where
  pub users : List Bytes
  pub organizations : List Bytes
  pub strategy : CloneStrategy
  pub clone : Option Clone
  pub skip_organizations : List Bytes

-- The three listings of the GitHub client, of a name and a page.
pub record GithubClient : Type 0 where
  pub list_organizations : Bytes → ℕ → Option (Page Bytes)
  pub list_repositories : Bytes → ℕ → Option (Page Listed)
  pub list_by_org : Bytes → ℕ → Option (Page Listed)

-- The two loops for each user, which are kept apart here: neither reads what the other adds to.
-- `githubRemote.FetchRepositories`
unfoldable pub github_fetch : GithubClient → GithubConfig → ℕ → Option (List Repository)
unfolding follow_all from_slice
github_fetch client config fuel = do
  organizations ← follow_all client.list_organizations fuel config.users config.organizations
  of_users ← follow_all client.list_repositories fuel config.users []
  all ←
      follow_all client.list_by_org fuel (unskipped config.skip_organizations organizations)
        of_users
  some (map (repository_of (or_strategy config.clone config.strategy)) all)

-- The fields of `config.Gitlab` that are read.
pub record GitlabConfig : Type 0 where
  pub users : List Bytes
  pub groups : List Bytes
  pub strategy : CloneStrategy
  pub clone : Option Clone
  pub skip_groups : List Bytes

-- The three listings of the GitLab client.
pub record GitlabClient : Type 0 where
  pub list_groups : ℕ → Option (Page Bytes)
  pub list_user_projects : Bytes → ℕ → Option (Page Listed)
  pub list_group_projects : Bytes → ℕ → Option (Page Listed)

-- The keys of the map `groups`, each once.
unfoldable pub group_keys : List Bytes → Dict Bytes (Unit {0}) → List Bytes
group_keys [] groups = map (λ (k, v). k) groups
group_keys (group ∷ more) groups = group_keys more (insert group tt groups)

-- `gitlabRemote.FetchRepositories`
unfoldable pub gitlab_fetch : GitlabClient → GitlabConfig → ℕ → Option (List Repository)
unfolding follow follow_all from_slice group_keys
gitlab_fetch client config fuel = do
  groups ← follow client.list_groups fuel 1 config.groups
  of_users ← follow_all client.list_user_projects fuel config.users []
  all ←
      follow_all client.list_group_projects fuel
        (unskipped config.skip_groups (group_keys groups [])) of_users
  some (map (repository_of (or_strategy config.clone config.strategy)) all)
