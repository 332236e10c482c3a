-- ===== src/Codec/Base64.antt =====
-- `encoding/base64`: `RawStdEncoding` behind `Base64encode` and `Base64decode` of
-- tracker/internal/graphstore/v1alpha/base64.go, and `StdEncoding`, which `encode` and `decode` of
-- tracker/internal/graphstore/v1beta/transforms.go use. A text is the list of its bytes.
pub mod RoundTrip
use depscloud.Base.Options.{◌>>=◌}
use depscloud.Base.Bytes.{Bytes}
use mathlib.Core.Option.{Option, some}
use depscloud.Base.{Bool, [], false, if◌then◌else◌, keep, leb, list_eq, ltb, nat_eq, none, not}
use depscloud.Base.{option_eq, true, ℕ, ◌%◌, ◌&&◌, ◌*◌, ◌+◌, ◌-◌, ◌/◌, ◌==◌, ◌||◌, ◌∷◌}

-- The alphabet A-Z a-z 0-9 + /.
unfoldable pub digit : ℕ → ℕ
digit n =
    if ltb n 26
    then n + 65
    else if ltb n 52
    then n + 71
    else if ltb n 62
    then n - 52 + 48
    else if leb n 62
    then 43
    else 47

unfoldable pub undigit : ℕ → Option ℕ
undigit c =
    if leb 65 c && leb c 90
    then some (c - 65)
    else if leb 97 c && leb c 122
    then some (c - 71)
    else if leb 48 c && leb c 57
    then some (c + 4)
    else if c == 43
    then some 62
    else if c == 47
    then some 63
    else none

abbrev pad : ℕ
pad = 61

abbrev pub b0 : ℕ → ℕ → ℕ
b0 p q = p * 4 + q / 16

abbrev pub b1 : ℕ → ℕ → ℕ
b1 q r = q % 16 * 16 + r / 4

abbrev pub b2 : ℕ → ℕ → ℕ
b2 r s = r % 4 * 64 + s

-- `EncodeToString`, with padding or without.
unfoldable pub encode : Bool → Bytes → Bytes
encode padded [] = []
encode padded (a ∷ []) =
    digit (a / 4) ∷ digit (a % 4 * 16) ∷ (if padded then pad ∷ pad ∷ [] else [])
encode padded (a ∷ b ∷ []) =
    digit (a / 4)
    ∷ digit (a % 4 * 16 + b / 16)
    ∷ digit (b % 16 * 4)
    ∷ (if padded then pad ∷ [] else [])
encode padded (a ∷ b ∷ c ∷ rest) =
    digit (a / 4)
    ∷ digit (a % 4 * 16 + b / 16)
    ∷ digit (b % 16 * 4 + c / 64)
    ∷ digit (c % 64)
    ∷ encode padded rest

-- Line feeds and carriage returns are skipped.
unfoldable pub strip : Bytes → Bytes
strip = keep (λ c. not (c == 10 || c == 13))

-- The digits of one group as bytes. `none` is a byte outside of the alphabet, as padding is.
unfoldable pub pair : ℕ → ℕ → Option ℕ
pair p q = do p' ← undigit p; q' ← undigit q; some (b0 p' q')

unfoldable pub triple : ℕ → ℕ → ℕ → Option (ℕ × ℕ)
triple p q r = do p' ← undigit p; q' ← undigit q; r' ← undigit r; some (b0 p' q', b1 q' r')

unfoldable pub quad : ℕ → ℕ → ℕ → ℕ → Option (ℕ × ℕ × ℕ)
quad p q r s = do
  p' ← undigit p
  q' ← undigit q
  r' ← undigit r
  s' ← undigit s
  some (b0 p' q', b1 q' r', b2 r' s')

-- `RawStdEncoding.DecodeString`: the bytes of the groups before the first bad one, and whether
-- there was one.
unfoldable pub raw_groups : Bytes → Bytes × Bool
raw_groups [] = ([], false)
raw_groups (_ ∷ []) = ([], true)
raw_groups (p ∷ q ∷ []) = elim (pair p q) [ none ↦ ([], true) | some x ↦ (x ∷ [], false) ]
raw_groups (p ∷ q ∷ r ∷ []) = elim (triple p q r) [
  | none ↦ ([], true)
  | some (x, y) ↦ (x ∷ y ∷ [], false)
]
raw_groups (p ∷ q ∷ r ∷ s ∷ rest) =
    let more = raw_groups rest in
    elim (quad p q r s) [ none ↦ ([], true) | some (x, y, z) ↦ (x ∷ y ∷ z ∷ more.0, more.1) ]

unfoldable pub raw_decode : Bytes → Bytes × Bool
unfolding raw_groups strip pair triple quad undigit nat_eq
raw_decode text = raw_groups (strip text)

-- The last group of a padded text.
unfoldable pub std_last : ℕ → ℕ → ℕ → ℕ → Option Bytes
std_last p q r s =
    if s == pad
    then (if r == pad
        then (do x ← pair p q; some (x ∷ []))
        else (do (x, y) ← triple p q r; some (x ∷ y ∷ [])))
    else (do (x, y, z) ← quad p q r s; some (x ∷ y ∷ z ∷ []))

-- `StdEncoding.DecodeString`, where the callers use no bytes of a text that is refused.
unfoldable pub std_groups : Bytes → Option Bytes
std_groups [] = some []
std_groups (p ∷ q ∷ r ∷ s ∷ []) = std_last p q r s
std_groups (p ∷ q ∷ r ∷ s ∷ t ∷ rest) = do
  (x, y, z) ← quad p q r s
  more ← std_groups (t ∷ rest)
  some (x ∷ y ∷ z ∷ more)
std_groups _ = none

unfoldable pub std_decode : Bytes → Option Bytes
unfolding std_groups std_last strip pair triple quad undigit nat_eq
std_decode text = std_groups (strip text)

unfoldable pub raw_encode : Bytes → Bytes
unfolding encode digit
raw_encode = encode false

unfoldable pub std_encode : Bytes → Bytes
unfolding encode digit
std_encode = encode true
