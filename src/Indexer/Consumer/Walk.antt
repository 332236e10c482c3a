-- ===== src/Indexer/Consumer/Walk.antt =====
-- The walk over the files of a clone in indexer/internal/consumer/consumer.go.
use mathlib.Core.List.Perm
use Prim.Native.Nat.{max}
use mathlib.Core.List.{Perm, perm_append_comm, append_assoc, map-append, append-nil}
use depscloud.Indexer.Consumer.{FileInfo, Workshop, split_infos, walk, walk_level}
use depscloud.Base.{All, All-append, List, [], ap, arith, false, map, refl, suc, sym, true, ℕ}
use depscloud.Base.{◌++◌, ◌-◌, ◌∙◌, ◌∷◌, ◌≡◌, ◌≤◌, some, zero, ◌<◌}
use depscloud.Base.Bytes.{Bytes}
use mathlib.Core.Path.{subst}

-- What a directory holds.
pub data Entries : Type 0 where
  no_more : Entries
  file : Bytes → Entries → Entries
  dir : Bytes → Entries → Entries → Entries

abbrev pub infos : Entries → List FileInfo
infos no_more = []
infos (file name rest) = record { name = name; is_dir = false } ∷ infos rest
infos (dir name sub rest) = record { name = name; is_dir = true } ∷ infos rest

-- The most directories that lie within one another.
abbrev pub depth : Entries → ℕ
depth no_more = 0
depth (file name rest) = depth rest
depth (dir name sub rest) = max (suc (depth sub)) (depth rest)

module _ (w : Workshop) where
  -- What the directories below a path are read as.
  abbrev pub Inside : Bytes → Entries → Type 0
  Inside path no_more = Unit
  Inside path (file name rest) = Inside path rest
  Inside path (dir name sub rest) =
      (w.read_dir (w.join path name) ≡ infos sub) × Inside (w.join path name) sub × Inside path rest

  -- The paths of all files, directory by directory.
  abbrev pub all_files : Bytes → Entries → List Bytes
  all_files path no_more = []
  all_files path (file name rest) = w.join path name ∷ all_files path rest
  all_files path (dir name sub rest) = all_files (w.join path name) sub ++ all_files path rest

  abbrev here : Bytes → Entries → List Bytes
  here path no_more = []
  here path (file name rest) = w.join path name ∷ here path rest
  here path (dir name sub rest) = here path rest

  abbrev below : Bytes → Entries → List (Bytes × Entries)
  below path no_more = []
  below path (file name rest) = below path rest
  below path (dir name sub rest) = (w.join path name, sub) ∷ below path rest

  abbrev Mounted : Bytes × Entries → Type 0
  Mounted (path, es) = (w.read_dir path ≡ infos es) × Inside path es

  abbrev files_of : List (Bytes × Entries) → List Bytes
  files_of [] = []
  files_of ((path, es) ∷ forest) = all_files path es ++ files_of forest

  abbrev here_all : List (Bytes × Entries) → List Bytes
  here_all [] = []
  here_all ((path, es) ∷ forest) = here path es ++ here_all forest

  abbrev below_all : List (Bytes × Entries) → List (Bytes × Entries)
  below_all [] = []
  below_all ((path, es) ∷ forest) = below path es ++ below_all forest

  abbrev height : List (Bytes × Entries) → ℕ
  height [] = 0
  height ((path, es) ∷ forest) = max (suc (depth es)) (height forest)

  abbrev roots : List (Bytes × Entries) → List Bytes
  roots = map (λ (path, es). path)

  split_infos-infos :
      (path : Bytes) (es : Entries)
      → split_infos w path (infos es) ≡ (roots (below path es), here path es)
  unfolding split_infos
  split_infos-infos path no_more = refl
  split_infos-infos path (file name rest) = rw (split_infos-infos path rest) refl
  split_infos-infos path (dir name sub rest) = rw (split_infos-infos path rest) refl

  walk_level-roots :
      (forest : List (Bytes × Entries))
      → All Mounted forest
      → walk_level w (roots forest) ≡ (roots (below_all forest), here_all forest)
  unfolding walk_level
  walk_level-roots [] ms = refl
  walk_level-roots ((path, es) ∷ forest) ((e, i), ms) = rw e (
      rw (split_infos-infos path es) (
        rw (walk_level-roots forest ms)
          (rw (map-append (λ (path, es). path) (below path es) (below_all forest)) refl)))

  below-Mounted : (path : Bytes) (es : Entries) → Inside path es → All Mounted (below path es)
  below-Mounted path no_more i = tt
  below-Mounted path (file name rest) i = below-Mounted path rest i
  below-Mounted path (dir name sub rest) (e, j, i) = ((e, j), below-Mounted path rest i)

  below_all-Mounted :
      (forest : List (Bytes × Entries)) → All Mounted forest → All Mounted (below_all forest)
  below_all-Mounted [] ms = tt
  below_all-Mounted ((path, es) ∷ forest) ((e, i), ms) =
      All-append Mounted (below path es) (below_all forest) (below-Mounted path es i)
        (below_all-Mounted forest ms)

  height-append : (f g : List (Bytes × Entries)) → height (f ++ g) ≡ max (height f) (height g)
  height-append [] g = omega arith
  height-append ((path, es) ∷ f) g = omega (arith, height-append f g)

  height-below : (path : Bytes) (es : Entries) → height (below path es) ≤ depth es
  height-below path no_more = omega arith
  height-below path (file name rest) = height-below path rest
  height-below path (dir name sub rest) = omega (arith, height-below path rest)

  height-below_all :
      (forest : List (Bytes × Entries)) → height (below_all forest) ≤ height forest - 1
  height-below_all [] = omega arith
  height-below_all ((path, es) ∷ forest) = omega (
    arith,
    height-append (below path es) (below_all forest),
    height-below path es,
    height-below_all forest,
  )

  files_of-append : (f g : List (Bytes × Entries)) → files_of (f ++ g) ≡ files_of f ++ files_of g
  files_of-append [] g = refl
  files_of-append ((path, es) ∷ f) g =
      ap (λ l. all_files path es ++ l) (files_of-append f g)
      ∙ sym (append_assoc (all_files path es) (files_of f) (files_of g))

  swap_middle : (a b c d : List Bytes) → Perm ((a ++ b) ++ (c ++ d)) ((a ++ c) ++ (b ++ d))
  swap_middle a b c d =
      let inner : Perm (b ++ (c ++ d)) (c ++ (b ++ d)) =
        rw (← append_assoc b c d)
          (rw (← append_assoc c b d) (Perm.append_right d (perm_append_comm b c))) in
      rw (append_assoc a b (c ++ d)) (rw (append_assoc a c (b ++ d)) (Perm.append_left a inner))

  all_files-Perm :
      (path : Bytes) (es : Entries)
      → Perm (here path es ++ files_of (below path es)) (all_files path es)
  all_files-Perm path no_more = Perm.refl []
  all_files-Perm path (file name rest) = Perm.cons (w.join path name) (all_files-Perm path rest)
  all_files-Perm path (dir name sub rest) =
      let sub_ = all_files (w.join path name) sub in
      let front : Perm (here path rest ++ (sub_ ++ files_of (below path rest)))
          (sub_ ++ (here path rest ++ files_of (below path rest))) =
        rw (← append_assoc (here path rest) sub_ (files_of (below path rest))) (
          rw (← append_assoc sub_ (here path rest) (files_of (below path rest))) (
            Perm.append_right (files_of (below path rest))
              (perm_append_comm (here path rest) sub_))) in
      Perm.trans front (Perm.append_left sub_ (all_files-Perm path rest))

  files_of-Perm :
      (forest : List (Bytes × Entries))
      → Perm (here_all forest ++ files_of (below_all forest)) (files_of forest)
  files_of-Perm [] = Perm.refl []
  files_of-Perm ((path, es) ∷ forest) =
      let split = files_of-append (below path es) (below_all forest) in
      let mixed : Perm
          ((here path es ++ here_all forest) ++ files_of (below path es ++ below_all forest))
          ((here path es ++ files_of (below path es))
            ++ (here_all forest ++ files_of (below_all forest))) =
        rw split (
          swap_middle (here path es) (here_all forest) (files_of (below path es))
            (files_of (below_all forest))) in
      Perm.trans mixed (Perm.append (all_files-Perm path es) (files_of-Perm forest))

  walk-Perm :
      (fuel : ℕ) (forest : List (Bytes × Entries)) (paths : List Bytes)
      → All Mounted forest
      → height forest ≤ fuel
      → (found : List Bytes) × (walk w fuel (roots forest) paths ≡ some found)
        × Perm found (paths ++ files_of forest)
  unfolding walk
  walk-Perm fuel [] paths ms h =
      (paths, refl, subst (Perm paths) (sym (append-nil paths)) (Perm.refl paths))
  walk-Perm zero ((path, es) ∷ forest) paths ms h = absurd (omega arith)
  walk-Perm (suc fuel) ((path, es) ∷ forest) paths ms h =
      let f = (path, es) ∷ forest in
      let (found, e, p) =
        walk-Perm fuel (below_all f) (paths ++ here_all f) (below_all-Mounted f ms)
          (omega (arith, height-below_all f)) in
      (
        found,
        ap (λ (dirs, files). walk w fuel dirs (paths ++ files)) (walk_level-roots f ms) ∙ e,
        Perm.trans p (
            rw (append_assoc paths (here_all f) (files_of (below_all f)))
              (Perm.append_left paths (files_of-Perm f))),
      )

  -- Where the clone holds a tree of files, with fuel for one round more than directories lie within
  -- one another, the walk from its root ends, and finds each file of the tree once.
  pub walk-files :
      (es : Entries) (fuel : ℕ)
      → w.read_dir [] ≡ infos es
      → Inside [] es
      → depth es < fuel
      → (found : List Bytes) × (walk w fuel ([] ∷ []) [] ≡ some found)
        × Perm found (all_files [] es)
  walk-files es fuel e i h =
      let (found, walked, p) = walk-Perm fuel (([], es) ∷ []) [] ((e, i), tt) (omega arith) in
      (found, walked, subst (Perm found) (append-nil (all_files [] es)) p)
