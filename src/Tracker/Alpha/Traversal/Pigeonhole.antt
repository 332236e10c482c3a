-- ===== src/Tracker/Alpha/Traversal/Pigeonhole.antt =====
-- Distinct keys from a list are at most as many as the list is long: the bound on the tiers of a
-- search.
use depscloud.Base.{All, List, [], arith, contains, false, if◌then◌else◌, length, list_eq}
use depscloud.Base.{nat_eq, option_eq, suc, true, ◌==◌, ◌∷◌, ◌≡◌, ◌≢◌, ◌≤◌}
use depscloud.Base.Bytes.{Bytes}
use depscloud.Tracker.Alpha.Traversal.Tier.{Distinct}
use depscloud.Tracker.Alpha.Types.{key_eq}

remove : Bytes → List Bytes → List Bytes
remove k [] = []
remove k (u ∷ us) = if k == u then us else u ∷ remove k us

length-remove :
    (k : Bytes) (us : List Bytes) → contains us k ≡ true → suc (length (remove k us)) ≡ length us
unfolding remove
length-remove k [] h = cc
length-remove k (u ∷ us) h = ground (arith, length-remove k us)

contains-remove :
    (k j : Bytes) (us : List Bytes) → j ≢ k → contains us j ≡ true → contains (remove k us) j ≡ true
unfolding remove
contains-remove k j [] ne h = h
contains-remove k j (u ∷ us) ne h = ground (arith, contains-remove k j us ne)

All-remove :
    (k : Bytes) (us xs : List Bytes)
    → contains xs k ≡ false
    → All (λ x. contains us x ≡ true) xs
    → All (λ x. contains (remove k us) x ≡ true) xs
All-remove k us [] h a = tt
All-remove k us (x ∷ xs) h (m, a) =
    (contains-remove k x us (ground arith) m, All-remove k us xs (ground arith) a)

pub length-le-of_Distinct :
    (xs us : List Bytes) → Distinct xs → All (λ x. contains us x ≡ true) xs → length xs ≤ length us
length-le-of_Distinct [] us d a = omega arith
length-le-of_Distinct (x ∷ xs) us (fresh, d) (m, a) = omega (
  arith,
  length-le-of_Distinct xs (remove x us) d (All-remove x us xs fresh a),
  length-remove x us m,
)
