-- ===== src/Base/Results.antt =====
-- Go's `(value, error)` results, with the panics that a call can end in.
use mathlib.Core.Path.{◌≡◌, refl}
use mathlib.Core.Option.{Option, none, some}
use Prim.Native.Nat.{ℕ}
use Prim.Native.String.{String}

-- The sentinel errors of the `api` package, a `status.Error` of two codes, a `fmt.Errorf` by its
-- format, and an error that a library or the database returned.
pub data Error : Type 0 where
  unsupported partial_insertion partial_deletion module_not_found unimplemented : Error
  invalid_argument internal : Error
  errorf : String → Error
  external : ℕ → Error

pub data Result {ℓ} (A : Type ℓ) : Type ℓ where
  ok : A → Result A
  err : Error → Result A
  panic : Result A

infixl 5 ◌>>=◌ ◌>>◌
abbrev pub ◌>>=◌ {ℓ κ} :
    {Val : Type ℓ} {Out : Type κ} → Result Val → (Val → Result Out) → Result Out
panic >>= rest = panic
err e >>= rest = err e
ok val >>= rest = rest val

abbrev pub ◌>>◌ {ℓ κ} : {A : Type ℓ} {B : Type κ} → Result A → Result B → Result B
m >> k = m >>= λ _. k

-- A call that returns only an error, or nil.
abbrev pub check : Option Error → Result (Unit {0})
check none = ok tt
check (some e) = err e

-- A chain that succeeds has a first step that succeeds, with a value from which the rest goes on.
pub >>=-eq-ok {ℓ κ} :
    {Val : Type ℓ} {Out : Type κ} (first : Result Val) (rest : Val → Result Out) {out : Out}
    → (first >>= rest) ≡ ok out
    → (val : Val) × (first ≡ ok val) × (rest val ≡ ok out)
>>=-eq-ok panic rest ends = cc
>>=-eq-ok (err _) rest ends = cc
>>=-eq-ok (ok val) rest ends = (val, refl, ends)

-- Two successes with the same pair.
pub ok_snd {ℓ κ} :
    {A : Type ℓ} {B : Type κ} {a c : A} {b d : B}
    → ◌≡◌ {A = Result (A × B)} (ok (a, b)) (ok (c, d))
    → b ≡ d
ok_snd h = cc h
