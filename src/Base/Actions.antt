-- ===== src/Base/Actions.antt =====
-- Calls that return a Go result and change the state of what they are made on.
use mathlib.Core.Path.{◌≡◌, refl}
use depscloud.Base.Results.{Result, Error, ok, err, panic}

abbrev pub Action : Type 0 → Type 0 → Type 0
Action S A = S → Result A × S

module _ {S A B : Type 0} where
  -- What a call does after the one whose outcome is given.
  abbrev pub after : Result A × S → (A → Action S B) → Result B × S
  after (ok a, s) rest = rest a s
  after (err e, s) rest = (err e, s)
  after (panic, s) rest = (panic, s)

  infixl 5 ◌>>=◌ ◌>>◌
  abbrev pub ◌>>=◌ : Action S A → (A → Action S B) → Action S B
  first >>= rest = λ s. after (first s) rest

  abbrev pub ◌>>◌ : Action S A → Action S B → Action S B
  first >> rest = first >>= λ _. rest

-- A result without a call.
abbrev pub lift : {S A : Type 0} → Result A → Action S A
lift r = λ s. (r, s)

-- `if err != nil { return nil, e }`
abbrev pub with_error : {S A : Type 0} → Error → Result A × S → Result A × S
with_error e (ok a, s) = (ok a, s)
with_error e (err _, s) = (err e, s)
with_error e (panic, s) = (panic, s)

abbrev pub or_error : {S A : Type 0} → Error → Action S A → Action S A
or_error e action = λ s. with_error e (action s)

-- `defer`: a call that is made whatever the outcome is, with its own result left aside.
abbrev pub finally : {S A : Type 0} → (S → S) → Action S A → Action S A
finally last action = λ s. let out = action s in (out.0, last out.1)

-- A chain that succeeds has a first call that succeeds.
pub after-ok :
    {S A B : Type 0} (first : Result A × S) (rest : A → Action S B) {b : B} {s' : S}
    → after first rest ≡ (ok b, s')
    → (a : A) × (s : S) × (first ≡ (ok a, s)) × (rest a s ≡ (ok b, s'))
after-ok (ok a, s) rest h = (a, s, refl, h)
after-ok (err _, s) rest h = cc
after-ok (panic, s) rest h = cc

pub with_error-ok :
    {S A : Type 0} (e : Error) (out : Result A × S) {a : A} {s : S}
    → with_error e out ≡ (ok a, s)
    → out ≡ (ok a, s)
with_error-ok e (ok a, s) h = h
with_error-ok e (err _, s) h = cc
with_error-ok e (panic, s) h = cc
