-- ===== src/Indexer/Remotes/Pages.antt =====
-- Listings over their pages, as the loops of indexer/internal/remotes/github.go and gitlab.go
-- follow them.
use depscloud.Base.Options.{◌>>=◌}
use depscloud.Indexer.Remotes.{Page, follow, follow_all}
use depscloud.Base.{All, List, Option, [], ap, arith, length, map, refl, some, suc, sym, zero, ℕ}
use depscloud.Base.{◌++◌, ◌+◌, ◌∙◌, ◌∷◌, ◌≡◌, ◌≤◌}
use depscloud.Base.Bytes.{Bytes}
use mathlib.Core.List.{append-nil, append_assoc}
use depscloud.Tracker.Beta.Manifests.Edges.{names}

module _ {A : Type 0} where
  abbrev pub flatten : List (List A) → List A
  flatten [] = []
  flatten (xs ∷ xss) = xs ++ flatten xss

  -- A listing from the page `n` on: each page leads to the one behind it, the last one to none.
  abbrev pub Serves : (ℕ → Option (Page A)) → ℕ → List A → List (List A) → Type 0
  Serves call n xs [] = call n ≡ some (record { items = xs; next = 0 })
  Serves call n xs (ys ∷ yss) =
      (call n ≡ some (record { items = xs; next = suc n })) × Serves call (suc n) ys yss

  follow-stop :
      (call : ℕ → Option (Page A)) (fuel : ℕ) (found : List A)
      → follow call (suc fuel) 0 found ≡ some found
  unfolding follow
  follow-stop call fuel found = refl

  follow-step :
      (call : ℕ → Option (Page A)) (fuel n next : ℕ) (xs found : List A)
      → call (suc n) ≡ some (record { items = xs; next = next })
      → follow call (suc fuel) (suc n) found ≡ follow call fuel next (found ++ xs)
  unfolding follow
  follow-step call fuel n next xs found e = ground (arith, e)

  -- Two rounds more than there are pages behind the first are enough.
  pub follow-Serves :
      (call : ℕ → Option (Page A)) (fuel n : ℕ) (xs : List A) (yss : List (List A)) (found : List A)
      → Serves call (suc n) xs yss
      → length yss + 2 ≤ fuel
      → follow call fuel (suc n) found ≡ some (found ++ (xs ++ flatten yss))
  follow-Serves call zero n xs yss found s enough = absurd (omega arith)
  follow-Serves call (suc zero) n xs yss found s enough = absurd (omega arith)
  follow-Serves call (suc (suc fuel)) n xs [] found s enough =
      follow-step call (suc fuel) n 0 xs found s
      ∙ follow-stop call fuel (found ++ xs)
      ∙ ap (λ l. some (found ++ l)) (sym (append-nil xs))
  follow-Serves call (suc (suc fuel)) n xs (ys ∷ yss) found (e, s) enough =
      follow-step call (suc fuel) n (suc (suc n)) xs found e
      ∙ follow-Serves call (suc fuel) (suc n) ys yss (found ++ xs) s (omega arith)
      ∙ ap some (append_assoc found xs (ys ++ flatten yss))

  -- A listing of a name from its first page: all its items, on as many pages as the fuel allows.
  pub record Lists (call : Bytes → ℕ → Option (Page A)) (fuel : ℕ) (all : Bytes → List A)
      (name : Bytes) : Type 0 where
    pub first : List A
    pub others : List (List A)
    pub served : Serves (call name) 1 first others
    pub short : length others + 2 ≤ fuel
    pub items : all name ≡ first ++ flatten others

  pub follow_all-Lists :
      (call : Bytes → ℕ → Option (Page A)) (fuel : ℕ) (all : Bytes → List A) (names : List Bytes)
      (found : List A)
      → All (Lists call fuel all) names
      → follow_all call fuel names found ≡ some (found ++ flatten (map all names))
  unfolding follow_all
  follow_all-Lists call fuel all [] found tt = ap some (sym (append-nil found))
  follow_all-Lists call fuel all (name ∷ names) found (l, ls) =
      let one : follow (call name) fuel 1 found ≡ some (found ++ all name) =
        follow-Serves (call name) fuel 0 l.first l.others found l.served l.short
        ∙ ap (λ x. some (found ++ x)) (sym l.items) in
      ap (λ o. o >>= follow_all call fuel names) one
      ∙ follow_all-Lists call fuel all names (found ++ all name) ls
      ∙ ap some (append_assoc found (all name) (flatten (map all names)))
