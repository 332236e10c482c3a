-- ===== src/Codec/Query/RoundTrip.antt =====
-- What `QueryEscape` writes is read back, and has none of the bytes that separate a query.
use depscloud.Base.Options.{◌>>=◌}
use depscloud.Base.Bytes.{Bytes, AreBytes}
use depscloud.Codec.Query.{escape_byte, hex, unhex, query_escape, unescape, nothing}
use depscloud.Codec.Query.{split, cut, is_plain, cons_first}
use depscloud.Base.{Bool-cases, [], arith, inl, inr, list_eq, nat_eq, option_eq, refl, some}
use depscloud.Base.{true, ℕ, ◌%◌, ◌++◌, ◌/◌, ◌<◌, ◌==◌, ◌∷◌, ◌≡◌, ◌⊎◌, All, All-append, ap}
use depscloud.Base.{false, if◌then◌else◌, ℕ_discrete, ◌*◌, ◌+◌, ◌∙◌, ◌≢◌}
use depscloud.Tracker.Alpha.Types.{key_eq}

unhex-hex : (n : ℕ) → n < 16 → unhex (hex n) ≡ some n
unfolding unhex hex
unhex-hex n h = ground arith

hex-plain : (n : ℕ) → n < 16 → is_plain (hex n) ≡ true
unfolding hex
hex-plain n h = ground arith

is_plain-ne : (c : ℕ) → is_plain c ≡ true → ((c == 37) ≡ false) × ((c == 43) ≡ false)
is_plain-ne c h = ground arith

escape-cases :
    (c : ℕ)
    → ((is_plain c ≡ true) × (escape_byte c ≡ c ∷ []))
      ⊎ (((c ≡ 32) × (escape_byte c ≡ 43 ∷ []))
          ⊎ (escape_byte c ≡ 37 ∷ hex (c / 16) ∷ hex (c % 16) ∷ []))
unfolding escape_byte
escape-cases c = elim (Bool-cases (is_plain c)) [
  | inl plain ↦ inl (plain, rw plain refl)
  | inr marked ↦ elim (Bool-cases (c == 32)) [
    | inl space ↦ inr (inl (ground arith, rw (marked, space) refl))
    | inr strange ↦ inr (inr (rw (marked, strange) refl))
  ]
]

unescape-one :
    (c : ℕ) (text : Bytes)
    → (c == 37) ≡ false
    → unescape nothing (c ∷ text)
      ≡ (unescape nothing text >>= λ rest. some ((if c == 43 then 32 else c) ∷ rest))
unfolding unescape
unescape-one c text h = rw (h, unescape) refl

unescape-hex :
    (p q h l : ℕ) (text : Bytes)
    → unhex p ≡ some h
    → unhex q ≡ some l
    → unescape nothing (37 ∷ p ∷ q ∷ text)
      ≡ (unescape nothing text >>= λ rest. some ((h * 16 + l) ∷ rest))
unfolding unescape nat_eq ℕ_discrete
unescape-hex p q h l text eh el = rw (eh, el) refl

unescape-escape_byte :
    (c : ℕ) (text : Bytes)
    → c < 256
    → unescape nothing (escape_byte c ++ text) ≡ (unescape nothing text >>= λ rest. some (c ∷ rest))
unfolding nat_eq ℕ_discrete
unescape-escape_byte c text h = elim (escape-cases c) [
  | inl (plain, e) ↦
      let (here, same) = is_plain-ne c plain in rw (e, unescape-one c text here, same) refl
  | inr (inl (space, e)) ↦ rw (e, space, unescape-one 43 text refl) refl
  | inr (inr e) ↦
      let whole : c / 16 * 16 + c % 16 ≡ c = omega arith in
      rw e (
        unescape-hex (hex (c / 16)) (hex (c % 16)) (c / 16) (c % 16) text
          (unhex-hex (c / 16) (omega arith)) (unhex-hex (c % 16) (omega arith))
        ∙ ap (λ n. unescape nothing text >>= λ rest. some (n ∷ rest)) whole)
]

pub unescape-query_escape :
    (text : Bytes) → AreBytes text → unescape nothing (query_escape text) ≡ some text
unfolding query_escape unescape
unescape-query_escape [] h = refl
unescape-query_escape (c ∷ text) (h, hs) =
    unescape-escape_byte c (query_escape text) h ∙ rw (unescape-query_escape text hs) refl

-- A byte that separates: & or =.
abbrev pub Separates : ℕ → Type 0
Separates d = (d ≡ 38) ⊎ (d ≡ 61)

plain-apart : (c d : ℕ) → is_plain c ≡ true → Separates d → c ≢ d
plain-apart c d h s = ground arith

apart_of : (c d : ℕ) → (c ≡ 37) ⊎ (c ≡ 43) → Separates d → c ≢ d
apart_of c d e s = ground arith

escape_byte-apart : (c d : ℕ) → c < 256 → Separates d → All (λ x. x ≢ d) (escape_byte c)
escape_byte-apart c d h s = elim (escape-cases c) [
  | inl (plain, e) ↦ rw e (plain-apart c d plain s, tt)
  | inr (inl (space, e)) ↦ rw e (apart_of 43 d (inr refl) s, tt)
  | inr (inr e) ↦
      let high = plain-apart (hex (c / 16)) d (hex-plain (c / 16) (omega arith)) s in
      let low = plain-apart (hex (c % 16)) d (hex-plain (c % 16) (omega arith)) s in
      rw e (apart_of 37 d (inl refl) s, (high, (low, tt)))
]

pub query_escape-apart :
    (text : Bytes) (d : ℕ) → AreBytes text → Separates d → All (λ x. x ≢ d) (query_escape text)
unfolding query_escape
query_escape-apart [] d h s = tt
query_escape-apart (c ∷ text) d (h, hs) s =
    All-append (λ x. x ≢ d) (escape_byte c) (query_escape text) (escape_byte-apart c d h s)
      (query_escape-apart text d hs s)

eq-true : (d : ℕ) → (d == d) ≡ true
eq-true d = ground arith

eq-apart : (c d : ℕ) → c ≢ d → (c == d) ≡ false
eq-apart c d h = ground arith

-- The text before a separator that it does not hold.
module _ (d : ℕ) where
  pub split-apart : (x : Bytes) → All (λ c. c ≢ d) x → split d x ≡ x ∷ []
  unfolding split
  split-apart [] h = refl
  split-apart (c ∷ x) (h, hs) = rw (eq-apart c d h) (ap (cons_first c) (split-apart x hs))

  pub split-append :
      (x rest : Bytes) → All (λ c. c ≢ d) x → split d (x ++ (d ∷ rest)) ≡ x ∷ split d rest
  unfolding split
  split-append [] rest h = rw (eq-true d) refl
  split-append (c ∷ x) rest (h, hs) =
      rw (eq-apart c d h) (ap (cons_first c) (split-append x rest hs))

  pub cut-append : (x rest : Bytes) → All (λ c. c ≢ d) x → cut d (x ++ (d ∷ rest)) ≡ (x, rest)
  unfolding cut
  cut-append [] rest h = rw (eq-true d) refl
  cut-append (c ∷ x) rest (h, hs) = rw (eq-apart c d h, cut-append x rest hs) refl
