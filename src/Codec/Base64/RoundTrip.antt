-- ===== src/Codec/Base64/RoundTrip.antt =====
-- What `encode` writes, the decoders read back.
use depscloud.Base.Options.{◌>>=◌}
use depscloud.Base.{ℕ, ◌<◌, ◌≡◌, Bool, true, false, some, ◌==◌, nat_eq, option_eq, arith, not}
use depscloud.Base.{◌||◌, list_eq, [], ◌%◌, ◌*◌, ◌+◌, ◌/◌, ◌∷◌, refl, if◌then◌else◌, ℕ_discrete}
use depscloud.Base.{◌∙◌, All, ◌≢◌}
use depscloud.Codec.Base64.{digit, undigit, quad, raw_groups, std_groups, std_last, strip}
use depscloud.Codec.Base64.{encode, pair, raw_decode, raw_encode, std_decode, std_encode, triple}
use depscloud.Base.Bytes.{Bytes, AreBytes}
use depscloud.Tracker.Alpha.Types.{key_eq}

undigit-digit : (n : ℕ) → n < 64 → undigit (digit n) ≡ some n
unfolding undigit digit
undigit-digit n h = ground arith

-- A digit is no line break and no padding.
digit-plain :
    (n : ℕ) → n < 64 → (not (digit n == 10 || digit n == 13) ≡ true) × ((digit n == 61) ≡ false)
unfolding digit
digit-plain n h = ground arith

pair-digit : (a : ℕ) → a < 256 → pair (digit (a / 4)) (digit (a % 4 * 16)) ≡ some a
unfolding pair
pair-digit a ha =
    rw (undigit-digit (a / 4) (omega arith), undigit-digit (a % 4 * 16) (omega arith))
      (ground arith)

triple-digit :
    (a b : ℕ)
    → a < 256
    → b < 256
    → triple (digit (a / 4)) (digit (a % 4 * 16 + b / 16)) (digit (b % 16 * 4)) ≡ some (a, b)
unfolding triple
triple-digit a b ha hb =
    rw (undigit-digit (a / 4) (omega arith), undigit-digit (a % 4 * 16 + b / 16) (omega arith))
      (rw (undigit-digit (b % 16 * 4) (omega arith)) (ground arith))

-- The groups that `encode` writes, read back.
module _ (a b c : ℕ) (ha : a < 256) (hb : b < 256) (hc : c < 256) where
  abbrev d0 : ℕ
  d0 = digit (a / 4)

  abbrev d1 : ℕ
  d1 = digit (a % 4 * 16 + b / 16)

  abbrev d2 : ℕ
  d2 = digit (b % 16 * 4 + c / 64)

  quad-digit : quad d0 d1 d2 (digit (c % 64)) ≡ some (a, b, c)
  unfolding quad
  quad-digit =
      rw (undigit-digit (a / 4) (omega arith), undigit-digit (a % 4 * 16 + b / 16) (omega arith))
        (rw
          (undigit-digit (b % 16 * 4 + c / 64) (omega arith), undigit-digit (c % 64) (omega arith))
          (ground arith))

  raw_groups-quad :
      (rest : Bytes)
      → raw_groups (d0 ∷ d1 ∷ d2 ∷ digit (c % 64) ∷ rest)
        ≡ (a ∷ b ∷ c ∷ (raw_groups rest).0, (raw_groups rest).1)
  unfolding raw_groups
  raw_groups-quad rest = rw (quad-digit, raw_groups)

  std_groups-quad :
      (rest : Bytes)
      → std_groups (d0 ∷ d1 ∷ d2 ∷ digit (c % 64) ∷ rest)
        ≡ (std_groups rest >>= λ more. some (a ∷ b ∷ c ∷ more))
  unfolding std_groups std_last
  std_groups-quad [] = rw ((digit-plain (c % 64) (omega arith)).1, quad-digit)
  std_groups-quad (t ∷ rest) = rw (quad-digit, std_groups)

strip-digit : (n : ℕ) (rest : Bytes) → n < 64 → strip (digit n ∷ rest) ≡ digit n ∷ strip rest
unfolding strip
strip-digit n rest h = rw (digit-plain n h).0

strip-pads :
    (padded : Bool)
    → (strip (if padded then 61 ∷ 61 ∷ [] else []) ≡ (if padded then 61 ∷ 61 ∷ [] else []))
      × (strip (if padded then 61 ∷ [] else []) ≡ (if padded then 61 ∷ [] else []))
unfolding strip nat_eq ℕ_discrete
strip-pads true = (refl, refl)
strip-pads false = (refl, refl)

-- Nothing that `encode` writes is skipped.
strip-encode : (padded : Bool) (x : Bytes) → AreBytes x → strip (encode padded x) ≡ encode padded x
unfolding encode
strip-encode padded [] h = strip-nil
  where
    strip-nil : strip [] ≡ []
    strip-nil = (strip-pads false).0
strip-encode padded (a ∷ []) (ha, _) =
    rw (strip-digit (a / 4) _ (omega arith), strip-digit (a % 4 * 16) _ (omega arith))
      (rw (strip-pads padded).0)
strip-encode padded (a ∷ b ∷ []) (ha, (hb, _)) =
    rw (strip-digit (a / 4) _ (omega arith), strip-digit (a % 4 * 16 + b / 16) _ (omega arith))
      (rw (strip-digit (b % 16 * 4) _ (omega arith), (strip-pads padded).1))
strip-encode padded (a ∷ b ∷ c ∷ rest) (ha, (hb, (hc, h))) =
    rw (strip-digit (a / 4) _ (omega arith), strip-digit (a % 4 * 16 + b / 16) _ (omega arith))
      (rw (
        strip-digit (b % 16 * 4 + c / 64) _ (omega arith),
        strip-digit (c % 64) _ (omega arith),
        strip-encode padded rest h,
      ))

raw_groups-encode : (x : Bytes) → AreBytes x → raw_groups (encode false x) ≡ (x, false)
unfolding encode raw_groups
raw_groups-encode [] h = refl
raw_groups-encode (a ∷ []) (ha, _) = rw (pair-digit a ha, raw_groups)
raw_groups-encode (a ∷ b ∷ []) (ha, (hb, _)) = rw (triple-digit a b ha hb, raw_groups)
raw_groups-encode (a ∷ b ∷ c ∷ rest) (ha, (hb, (hc, h))) =
    raw_groups-quad a b c ha hb hc (encode false rest) ∙ rw (raw_groups-encode rest h)

std_groups-encode : (x : Bytes) → AreBytes x → std_groups (encode true x) ≡ some x
unfolding encode std_groups std_last nat_eq ℕ_discrete
std_groups-encode [] h = refl
std_groups-encode (a ∷ []) (ha, _) = rw (pair-digit a ha)
std_groups-encode (a ∷ b ∷ []) (ha, (hb, _)) =
    rw ((digit-plain (b % 16 * 4) (omega arith)).1, triple-digit a b ha hb)
std_groups-encode (a ∷ b ∷ c ∷ rest) (ha, (hb, (hc, h))) =
    std_groups-quad a b c ha hb hc (encode true rest) ∙ rw (std_groups-encode rest h)

-- A key that was written as text by `Base64encode` is read back whole by `Base64decode`, with no
-- error.
pub raw_decode-raw_encode : (x : Bytes) → AreBytes x → raw_decode (raw_encode x) ≡ (x, false)
unfolding raw_decode raw_encode
raw_decode-raw_encode x h = rw (strip-encode false x h) (raw_groups-encode x h)

pub std_decode-std_encode : (x : Bytes) → AreBytes x → std_decode (std_encode x) ≡ some x
unfolding std_decode std_encode
std_decode-std_encode x h = rw (strip-encode true x h) (std_groups-encode x h)

digit-ne-dash : (n : ℕ) → digit n ≢ 45
unfolding digit
digit-ne-dash n = ground arith

encode-plain : (x : Bytes) → All (λ c. c ≢ 45) (encode false x)
unfolding encode
encode-plain [] = tt
encode-plain (a ∷ []) = (digit-ne-dash (a / 4), (digit-ne-dash (a % 4 * 16), tt))
encode-plain (a ∷ b ∷ []) =
    (digit-ne-dash (a / 4), (digit-ne-dash (a % 4 * 16 + b / 16), (digit-ne-dash (b % 16 * 4), tt)))
encode-plain (a ∷ b ∷ c ∷ rest) = (
  digit-ne-dash (a / 4),
  (
    digit-ne-dash (a % 4 * 16 + b / 16),
    (digit-ne-dash (b % 16 * 4 + c / 64), (digit-ne-dash (c % 64), encode-plain rest)),
  ),
)

-- The unpadded text has no dash.
pub raw_encode-plain : (x : Bytes) → All (λ c. c ≢ 45) (raw_encode x)
unfolding raw_encode
raw_encode-plain x = encode-plain x
