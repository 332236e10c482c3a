-- ===== src/Indexer/Consumer/Cleanup.antt =====
-- What a run of `Consume` in indexer/internal/consumer/consumer.go leaves behind.
use depscloud.Indexer.Remotes.{Repository}
use depscloud.Indexer.Consumer.{Auth, Event, Workshop, cloned, made_dir, removed_dir, tracked}
use depscloud.Indexer.Consumer.{choose_auth, after_auth, after_chroot}
use depscloud.Indexer.Consumer.{after_clone, after_extract, after_match, after_temp_dir}
use depscloud.Indexer.Consumer.{after_walk, consume, walk, with_cleanup}
use depscloud.Base.Bytes.{Bytes}
use depscloud.Base.{List, Option, Result, [], err, none, ok, panic, refl, some, ◌++◌, ◌∷◌, ◌≡◌}
use depscloud.Base.{Error, ℕ}
use depscloud.Tracker.Alpha.Track.{ManagementFile, SourceRequest}
use mathlib.Core.Path.{subst}

module _ (w : Workshop) (method : Option Auth) (repository : Repository) where
  -- The work within the scratch directory: none, or a clone, and then at most one call of `Track`,
  -- for the URL that was cloned, and only if the clone succeeded.
  pub data IsWork : List Event → Type 0 where
    nothing : IsWork []
    clone_only :
        (auth : Option Auth)
        → choose_auth w method repository.clone ≡ some auth
        → IsWork (cloned repository.repository_url auth ∷ [])
    clone_and_track :
        (auth : Option Auth) (request : SourceRequest)
        → choose_auth w method repository.clone ≡ some auth
        → w.clone repository.repository_url auth ≡ none
        → request.source.url ≡ repository.repository_url
        → IsWork (cloned repository.repository_url auth ∷ tracked request ∷ [])

  -- A run: nothing, or work between the making and the removal of the directory.
  pub data IsRun : List Event → Type 0 where
    no_dir : IsRun []
    in_dir : (work : List Event) → IsWork work → IsRun (made_dir ∷ (work ++ (removed_dir ∷ [])))

  abbrev url : Bytes
  url = repository.repository_url

  after_extract-IsWork :
      (auth : Option Auth) (files : Result (List ManagementFile))
      → choose_auth w method repository.clone ≡ some auth
      → w.clone url auth ≡ none
      → IsWork (cloned url auth ∷ after_extract w url files)
  unfolding after_extract
  after_extract-IsWork auth (ok files) a c = clone_and_track auth _ a c refl
  after_extract-IsWork auth (err _) a c = clone_only auth a
  after_extract-IsWork auth panic a c = clone_only auth a

  after_match-IsWork :
      (auth : Option Auth) (matched : Result (List Bytes))
      → choose_auth w method repository.clone ≡ some auth
      → w.clone url auth ≡ none
      → IsWork (cloned url auth ∷ after_match w url matched)
  unfolding after_match
  after_match-IsWork auth (ok matched) a c = after_extract-IsWork auth _ a c
  after_match-IsWork auth (err _) a c = clone_only auth a
  after_match-IsWork auth panic a c = clone_only auth a

  after_walk-IsWork :
      (auth : Option Auth) (paths : Option (List Bytes)) (events : List Event)
      → choose_auth w method repository.clone ≡ some auth
      → w.clone url auth ≡ none
      → after_walk w url auth paths ≡ some events
      → IsWork events
  unfolding after_walk
  after_walk-IsWork auth none events a c h = absurd (cc h)
  after_walk-IsWork auth (some paths) events a c h =
      let e : cloned url auth ∷ after_match w url (w.match_ paths) ≡ events = cc h in
      subst IsWork e (after_match-IsWork auth (w.match_ paths) a c)

  after_clone-IsWork :
      (fuel : ℕ) (auth : Option Auth) (failed : Option Error) (events : List Event)
      → choose_auth w method repository.clone ≡ some auth
      → w.clone url auth ≡ failed
      → after_clone w url fuel auth failed ≡ some events
      → IsWork events
  unfolding after_clone
  after_clone-IsWork fuel auth (some _) events a c h =
      let e : cloned url auth ∷ [] ≡ events = cc h in subst IsWork e (clone_only auth a)
  after_clone-IsWork fuel auth none events a c h =
      after_walk-IsWork auth (walk w fuel ([] ∷ []) []) events a c h

  after_auth-IsWork :
      (fuel : ℕ) (chosen : Option (Option Auth)) (events : List Event)
      → choose_auth w method repository.clone ≡ chosen
      → after_auth w url fuel chosen ≡ some events
      → IsWork events
  unfolding after_auth
  after_auth-IsWork fuel none events a h = let e : [] ≡ events = cc h in subst IsWork e nothing
  after_auth-IsWork fuel (some auth) events a h =
      after_clone-IsWork fuel auth (w.clone url auth) events a refl h

  after_chroot-IsWork :
      (fuel : ℕ) (failed : Option Error) (events : List Event)
      → after_chroot w method repository fuel failed ≡ some events
      → IsWork events
  unfolding after_chroot
  after_chroot-IsWork fuel (some _) events h = let e : [] ≡ events = cc h in subst IsWork e nothing
  after_chroot-IsWork fuel none events h =
      after_auth-IsWork fuel (choose_auth w method repository.clone) events refl h

  with_cleanup-IsRun :
      (work : Option (List Event)) (events : List Event)
      → ((done : List Event) → work ≡ some done → IsWork done)
      → with_cleanup work ≡ some events
      → IsRun events
  with_cleanup-IsRun none events f h = absurd (cc h)
  with_cleanup-IsRun (some done) events f h =
      let e : made_dir ∷ (done ++ (removed_dir ∷ [])) ≡ events = cc h in
      subst IsRun e (in_dir done (f done refl))

  after_temp_dir-IsRun :
      (fuel : ℕ) (failed : Option Error) (events : List Event)
      → after_temp_dir w method repository fuel failed ≡ some events
      → IsRun events
  unfolding after_temp_dir
  after_temp_dir-IsRun fuel (some _) events h = let e : [] ≡ events = cc h in subst IsRun e no_dir
  after_temp_dir-IsRun fuel none events h =
      with_cleanup-IsRun (after_chroot w method repository fuel w.chroot) events
        (after_chroot-IsWork fuel w.chroot) h

  -- A run of `Consume` that ends does nothing, or makes a directory, works in it and removes it; and
  -- its work is nothing, or a clone with the chosen credentials and, only if that succeeds, at most
  -- one call of `Track`, for the URL that was cloned.
  pub consume-IsRun :
      (fuel : ℕ) (events : List Event)
      → consume w method repository fuel ≡ some events
      → IsRun events
  unfolding consume
  consume-IsRun fuel events h = after_temp_dir-IsRun fuel w.temp_dir events h
