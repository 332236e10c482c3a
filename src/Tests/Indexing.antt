-- ===== src/Tests/Indexing.antt =====
-- The remotes of the indexer with small listings.
use mathlib.Core.List.{Perm}
use depscloud.Base.{ℕ_discrete, list_eq, nat_eq, List, Option, [], arith, none, refl, some}
use depscloud.Base.{ℕ, ◌++◌, ◌∷◌, ◌≡◌, if◌then◌else◌, ltb, ok, Bool-cases, inl, inr, option_eq}
use depscloud.Base.{◌==◌}
use depscloud.Indexer.Consumer.{Workshop, consume, walk, walk_level, split_infos, choose_auth}
use depscloud.Indexer.Consumer.{file_contents, after_extract, after_match, after_walk}
use depscloud.Indexer.Consumer.{after_clone, after_auth, after_chroot, after_temp_dir, made_dir}
use depscloud.Indexer.Consumer.{cloned, tracked, removed_dir, Event}
use depscloud.Indexer.Consumer.Walk.{Entries, file, dir, no_more, infos, walk-files}
use depscloud.Indexer.Consumer.Cleanup.{IsRun, consume-IsRun}
use depscloud.Indexer.Remotes.{Repository, GithubClient, GithubConfig, GitlabClient}
use depscloud.Indexer.Remotes.{GitlabConfig, Listed, Page, http}
use depscloud.Indexer.Remotes.{or_strategy}
use depscloud.Indexer.Remotes.Bitbucket.{field, BitbucketConfig, bitbucket_fetch}
use depscloud.Indexer.Remotes.Bitbucket.{bitbucket_fetch-none, out_of_fuel, AreConverted, Json}
use depscloud.Indexer.Remotes.Bitbucket.{convert_repositories_response, convert_values, end}
use depscloud.Indexer.Remotes.Bitbucket.{json_array, json_object, nil}
use depscloud.Base.Bytes.{Bytes, bytes}
use depscloud.Tracker.Alpha.Types.{key_eq}
use mathlib.Core.Path.{subst}

-- Two pages of one item each.
abbrev two_pages : {A : Type 0} → A → A → ℕ → Option (Page A)
two_pages a b n =
    if ltb n 2
    then some (record { items = a ∷ []; next = 2 })
    else if ltb n 3
    then some (record { items = b ∷ []; next = 0 })
    else none

abbrev two_items : {A : Type 0} → A → A → List A
two_items a b = a ∷ b ∷ []

abbrev repo : Bytes → Listed
repo name = record { http_url = name; ssh_url = 115 ∷ name }

abbrev client : GithubClient
client = record {
  list_organizations = λ n. two_pages (bytes "x") (bytes "y");
  list_repositories = λ n. two_pages (repo n) (repo (49 ∷ n));
  list_by_org = λ n. two_pages (repo n) (repo (50 ∷ n));
}

abbrev config : GithubConfig
config = record {
  users = bytes "u" ∷ [];
  organizations = bytes "o" ∷ [];
  strategy = http;
  clone = none;
  skip_organizations = bytes "x" ∷ [];
}

abbrev lab : GitlabClient
lab = record {
  list_groups = two_pages (bytes "x") (bytes "y");
  list_user_projects = λ n. two_pages (repo n) (repo (49 ∷ n));
  list_group_projects = λ n. two_pages (repo n) (repo (50 ∷ n));
}

abbrev lab_config : GitlabConfig
lab_config = record {
  users = bytes "u" ∷ [];
  groups = bytes "x" ∷ [];
  strategy = http;
  clone = none;
  skip_groups = bytes "y" ∷ [];
}

abbrev bucket_config : BitbucketConfig
bucket_config = record {
  users = bytes "u" ∷ bytes "v" ∷ [];
  teams = [];
  strategy = http;
  clone = none;
  skip_teams = [];
}

-- A client that answers for one user, and with no repositories.
abbrev no_values : Json
no_values = json_object (field (bytes "values") (json_array nil) end)

abbrev call_bucket : Bytes → ℕ → Option Json
call_bucket name page = if name == bytes "u" then some no_values else none

call_bucket-AreConverted : AreConverted call_bucket (or_strategy none http)
unfolding convert_repositories_response convert_values depscloud.Indexer.Remotes.Bitbucket.get_field
    list_eq nat_eq ℕ_discrete
call_bucket-AreConverted user page repos h = elim (Bool-cases (user == bytes "u")) [
  | inl known ↦
      let e : no_values ≡ repos = ground (arith, h, known) in
      subst
        (λ r.
          (rr : List Repository) × (convert_repositories_response r (or_strategy none http)
            ≡ ok rr))
        e ([], refl)
  | inr unknown ↦ absurd (ground (arith, h, unknown))
]

bitbucket_fetch-none_example : bitbucket_fetch call_bucket bucket_config 1000 ≡ out_of_fuel
unfolding list_eq nat_eq ℕ_discrete
bitbucket_fetch-none_example =
    bitbucket_fetch-none call_bucket bucket_config (bytes "v") call_bucket-AreConverted
      (inr (inl refl)) (λ p. refl) 1000

-- A repository with a file, and a directory with another.
abbrev tree : Entries
tree = file (bytes "a") (dir (bytes "d") (file (bytes "b") no_more) no_more)

abbrev workshop : Workshop
workshop = record {
  temp_dir = none;
  chroot = none;
  keys_from_file = λ u p s. none;
  keys = λ u k s. none;
  clone = λ url auth. none;
  read_dir = λ p. elim p [ [] ↦ infos tree | _ ∷ _ ↦ infos (file (bytes "b") no_more) ];
  join = λ p n. elim p [ [] ↦ n | x ∷ xs ↦ (x ∷ xs) ++ (47 ∷ n) ];
  match_ = λ paths. ok paths;
  read_file = λ p. some p;
  extract = λ url contents. ok [];
  head = some (bytes "main");
  track = λ request. none;
}

walk-files_example :
    (found : List Bytes) × (walk workshop 2 ([] ∷ []) [] ≡ some found)
    × Perm found (bytes "a" ∷ bytes "d/b" ∷ [])
walk-files_example = walk-files workshop tree 2 refl (refl, tt, tt) (omega arith)

abbrev repository : Repository
repository = record { repository_url = bytes "r"; clone = none }

abbrev events : List Event
events =
    made_dir
    ∷ cloned (bytes "r") none
    ∷ tracked (record {
      source = record { url = bytes "r"; kind = bytes "repository"; ref = bytes "main" };
      management_files = [];
    })
    ∷ removed_dir
    ∷ []

consumes : consume workshop none repository 2 ≡ some events
unfolding consume after_temp_dir after_chroot choose_auth after_auth after_clone walk walk_level
    split_infos after_walk after_match after_extract file_contents depscloud.Base.Dict.insert
    list_eq nat_eq ℕ_discrete
consumes = refl

consume-IsRun_example : IsRun workshop none repository events
consume-IsRun_example = consume-IsRun workshop none repository 2 events consumes
