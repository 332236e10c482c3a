-- ===== src/Indexer/Consumer.antt =====
-- indexer/internal/consumer/consumer.go: how a repository is cloned, read and tracked. The scratch
-- directory, git, the file system and the two services are the parameters of `Workshop`.
pub mod Walk
pub mod Cleanup
use depscloud.Base.{◌>>=◌, list_eq, nat_eq, Bool, Error, List, Option, Result, [], if◌then◌else◌}
use depscloud.Base.{none, not, ok, option_eq, some, suc, zero, ℕ, ◌++◌, ◌==◌, ◌∷◌}
use depscloud.Indexer.Remotes.{Basic, PublicKey, Clone, Repository}
use depscloud.Tracker.Alpha.Track.{SourceRequest, ManagementFile}
use depscloud.Base.Bytes.{Bytes, bytes}
use depscloud.Base.Dict.{Dict, insert}
use depscloud.Tracker.Alpha.Types.{key_eq}

-- `os.FileInfo`
pub record FileInfo : Type 0 where
  pub name : Bytes
  pub is_dir : Bool

-- The `transport.AuthMethod` of a clone: a name with a password, or a user with keys.
pub data Auth : Type 0 where
  basic_auth : (username password : Bytes) → Auth
  public_keys : (user key password : Bytes) → Auth

-- What the code takes from elsewhere. A directory is read with what `ReadDir` finds and its error,
-- which is only logged. `keys_from_file` and `keys` are `ssh.NewPublicKeysFromFile` and
-- `ssh.NewPublicKeys`, with `none` for an error or no keys.
pub record Workshop : Type 0 where
  pub temp_dir : Option Error
  pub chroot : Option Error
  pub keys_from_file : (user path password : Bytes) → Option Auth
  pub keys : (user key password : Bytes) → Option Auth
  pub clone : Bytes → Option Auth → Option Error
  pub read_dir : Bytes → List FileInfo
  pub join : Bytes → Bytes → Bytes
  pub match_ : List Bytes → Result (List Bytes)
  pub read_file : Bytes → Option Bytes
  pub extract : Bytes → Dict Bytes Bytes → Result (List ManagementFile)
  pub head : Option Bytes
  pub track : SourceRequest → Option Error

-- What a run of `Consume` did outside of its own memory, in order.
pub data Event : Type 0 where
  made_dir : Event
  cloned : Bytes → Option Auth → Event
  tracked : SourceRequest → Event
  removed_dir : Event

-- `if user == "" { user = "git" }`
abbrev pub or_git : Bytes → Bytes
or_git user = if user == [] then bytes "git" else user

-- The keys of a `PublicKey`: from its path, or else from its text.
unfoldable pub keys_of : Workshop → PublicKey → Option Auth
keys_of w k =
    if not (k.private_key_path == [])
    then w.keys_from_file (or_git k.user) k.private_key_path k.password
    else if not (k.private_key == [])
    then w.keys (or_git k.user) k.private_key k.password
    else none

-- `options.Auth`, where `none` gives the repository up. The method of the consumer is for a
-- repository without a `Clone`.
unfoldable pub choose_auth : Workshop → Option Auth → Option Clone → Option (Option Auth)
unfolding keys_of
choose_auth w method none = some method
choose_auth w method (some clone) = elim clone.basic [
  | some b ↦ some (some (basic_auth b.username b.password))
  | none ↦ elim clone.public_key [
    | none ↦ some none
    | some k ↦ elim (keys_of w k) [ none ↦ none | some keys ↦ some (some keys) ]
  ]
]

-- `for _, finfo := range finfos`: the directories and the other paths.
unfoldable pub split_infos : Workshop → Bytes → List FileInfo → List Bytes × List Bytes
split_infos w path [] = ([], [])
split_infos w path (info ∷ infos) =
    let (dirs, files) = split_infos w path infos in
    let fpath = w.join path info.name in
    if info.is_dir then (fpath ∷ dirs, files) else (dirs, fpath ∷ files)

-- `for i := 0; i < size; i++`
unfoldable pub walk_level : Workshop → List Bytes → List Bytes × List Bytes
unfolding split_infos
walk_level w [] = ([], [])
walk_level w (path ∷ queue) =
    let (dirs, files) = split_infos w path (w.read_dir path) in
    let (more_dirs, more_files) = walk_level w queue in (dirs ++ more_dirs, files ++ more_files)

-- `for len(queue) > 0`. `none` is out of fuel.
unfoldable pub walk : Workshop → ℕ → List Bytes → List Bytes → Option (List Bytes)
unfolding walk_level
walk w fuel [] paths = some paths
walk w zero (path ∷ queue) paths = none
walk w (suc fuel) (path ∷ queue) paths =
    let (new_queue, files) = walk_level w (path ∷ queue) in walk w fuel new_queue (paths ++ files)

-- `fileContents`, without the files that cannot be read.
unfoldable pub file_contents : Workshop → List Bytes → Dict Bytes Bytes → Dict Bytes Bytes
file_contents w [] contents = contents
file_contents w (matched ∷ paths) contents =
    file_contents w paths
      (elim (w.read_file matched) [ some data_ ↦ insert matched data_ contents | none ↦ contents ])

-- `ref`
abbrev pub ref_of : Option Bytes → Bytes
ref_of none = []
ref_of (some ref) = ref

-- What follows the answer of the extractor: the call of the tracker, whose error is only logged.
unfoldable pub after_extract : Workshop → Bytes → Result (List ManagementFile) → List Event
after_extract w url (ok files) =
    tracked (record {
      source = record { url = url; kind = bytes "repository"; ref = ref_of w.head };
      management_files = files;
    })
    ∷ []
after_extract w url _ = []

-- What follows the match of the paths.
unfoldable pub after_match : Workshop → Bytes → Result (List Bytes) → List Event
unfolding file_contents after_extract
after_match w url (ok matched) = after_extract w url (w.extract url (file_contents w matched []))
after_match w url _ = []

-- What follows the walk over the files.
unfoldable pub after_walk :
    Workshop → Bytes → Option Auth → Option (List Bytes) → Option (List Event)
unfolding after_match
after_walk w url auth none = none
after_walk w url auth (some paths) = some (cloned url auth ∷ after_match w url (w.match_ paths))

-- What follows the clone.
unfoldable pub after_clone : Workshop → Bytes → ℕ → Option Auth → Option Error → Option (List Event)
unfolding walk after_walk
after_clone w url fuel auth (some _) = some (cloned url auth ∷ [])
after_clone w url fuel auth none = after_walk w url auth (walk w fuel ([] ∷ []) [])

-- What follows the choice of `options.Auth`.
unfoldable pub after_auth : Workshop → Bytes → ℕ → Option (Option Auth) → Option (List Event)
unfolding after_clone
after_auth w url fuel none = some []
after_auth w url fuel (some auth) = after_clone w url fuel auth (w.clone url auth)

-- What follows `fs.Chroot`.
unfoldable pub after_chroot :
    Workshop → Option Auth → Repository → ℕ → Option Error → Option (List Event)
unfolding choose_auth after_auth
after_chroot w method repository fuel (some _) = some []
after_chroot w method repository fuel none =
    after_auth w repository.repository_url fuel (choose_auth w method repository.clone)

-- `defer`: the directory is removed whatever happens behind.
abbrev pub with_cleanup : Option (List Event) → Option (List Event)
with_cleanup none = none
with_cleanup (some events) = some (made_dir ∷ (events ++ (removed_dir ∷ [])))

-- What follows `ioutil.TempDir`.
unfoldable pub after_temp_dir :
    Workshop → Option Auth → Repository → ℕ → Option Error → Option (List Event)
unfolding after_chroot
after_temp_dir w method repository fuel (some _) = some []
after_temp_dir w method repository fuel none =
    with_cleanup (after_chroot w method repository fuel w.chroot)

-- `Consume`
unfoldable pub consume : Workshop → Option Auth → Repository → ℕ → Option (List Event)
unfolding after_temp_dir
consume w method repository fuel = after_temp_dir w method repository fuel w.temp_dir
