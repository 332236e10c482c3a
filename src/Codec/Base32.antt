-- ===== src/Codec/Base32.antt =====
-- `encoding/base32`: `StdEncoding`, which `paginate` of
-- tracker/internal/graphstore/v1beta/server.go uses. A text is the list of its bytes.
pub mod RoundTrip
use depscloud.Base.Options.{◌>>=◌}
use depscloud.Base.Bytes.{Bytes}
use depscloud.Base.{Bool, List, Option, [], if◌then◌else◌, keep, leb, length, list_eq, ltb, map}
use depscloud.Base.{nat_eq, none, not, option_eq, some, suc, take, true, zero, ℕ, ◌%◌, ◌&&◌, ◌*◌}
use depscloud.Base.{◌++◌, ◌+◌, ◌-◌, ◌/◌, ◌==◌, ◌||◌, ◌∷◌}
use depscloud.Tracker.Alpha.Types.{key_eq}

-- The alphabet A-Z 2-7.
unfoldable pub digit : ℕ → ℕ
digit n = if ltb n 26 then n + 65 else n + 24

unfoldable pub undigit : ℕ → Option ℕ
undigit c =
    if leb 65 c && leb c 90
    then some (c - 65)
    else if leb 50 c && leb c 55
    then some (c - 24)
    else none

abbrev pub pad : ℕ
pad = 61

-- The first four digits of a group of five bytes, and the digit that each further byte completes.
abbrev pub e1 : ℕ → ℕ → ℕ
e1 a b = a % 8 * 4 + b / 64

abbrev pub e3 : ℕ → ℕ → ℕ
e3 b c = b % 2 * 16 + c / 16

abbrev pub e4 : ℕ → ℕ → ℕ
e4 c d = c % 16 * 2 + d / 128

abbrev pub e6 : ℕ → ℕ → ℕ
e6 d e = d % 4 * 8 + e / 32

-- The digits of at most five bytes, less those that are all padding.
abbrev pub digits : Bytes → List ℕ
digits [] = []
digits (a ∷ []) = a / 8 ∷ a % 8 * 4 ∷ []
digits (a ∷ b ∷ []) = a / 8 ∷ e1 a b ∷ b / 2 % 32 ∷ b % 2 * 16 ∷ []
digits (a ∷ b ∷ c ∷ []) = a / 8 ∷ e1 a b ∷ b / 2 % 32 ∷ e3 b c ∷ c % 16 * 2 ∷ []
digits (a ∷ b ∷ c ∷ d ∷ []) =
    a / 8 ∷ e1 a b ∷ b / 2 % 32 ∷ e3 b c ∷ e4 c d ∷ d / 4 % 32 ∷ d % 4 * 8 ∷ []
digits (a ∷ b ∷ c ∷ d ∷ e ∷ _) =
    a / 8 ∷ e1 a b ∷ b / 2 % 32 ∷ e3 b c ∷ e4 c d ∷ d / 4 % 32 ∷ e6 d e ∷ e % 32 ∷ []

abbrev pub pads : ℕ → Bytes
pads zero = []
pads (suc n) = pad ∷ pads n

-- `EncodeToString`
unfoldable pub encode : Bytes → Bytes
unfolding digit
encode [] = []
encode (a ∷ []) = map digit (digits (a ∷ [])) ++ pads 6
encode (a ∷ b ∷ []) = map digit (digits (a ∷ b ∷ [])) ++ pads 4
encode (a ∷ b ∷ c ∷ []) = map digit (digits (a ∷ b ∷ c ∷ [])) ++ pads 3
encode (a ∷ b ∷ c ∷ d ∷ []) = map digit (digits (a ∷ b ∷ c ∷ d ∷ [])) ++ pads 1
encode (a ∷ b ∷ c ∷ d ∷ e ∷ rest) = map digit (digits (a ∷ b ∷ c ∷ d ∷ e ∷ [])) ++ encode rest

-- Line feeds and carriage returns are skipped.
unfoldable pub strip : Bytes → Bytes
strip = keep (λ c. not (c == 10 || c == 13))

abbrev pub all_pads : Bytes → Bool
all_pads [] = true
all_pads (c ∷ text) = c == pad && all_pads text

abbrev pub p0 : ℕ → ℕ → ℕ
p0 p q = p * 8 + q / 4

abbrev pub p1 : ℕ → ℕ → ℕ → ℕ
p1 q r s = q % 4 * 64 + r * 2 + s / 16

abbrev pub p2 : ℕ → ℕ → ℕ
p2 s t = s % 16 * 16 + t / 2

abbrev pub p3 : ℕ → ℕ → ℕ → ℕ
p3 t u v = t % 2 * 128 + u * 4 + v / 8

abbrev pub p4 : ℕ → ℕ → ℕ
p4 v w = v % 8 * 32 + w

-- The bytes of the digits of a group, as `<<`, `>>` and `|` put them together.
unfoldable pub pack : List ℕ → Bytes
pack (p ∷ q ∷ []) = p0 p q ∷ []
pack (p ∷ q ∷ r ∷ s ∷ []) = p0 p q ∷ p1 q r s ∷ []
pack (p ∷ q ∷ r ∷ s ∷ t ∷ []) = p0 p q ∷ p1 q r s ∷ p2 s t ∷ []
pack (p ∷ q ∷ r ∷ s ∷ t ∷ u ∷ v ∷ []) = p0 p q ∷ p1 q r s ∷ p2 s t ∷ p3 t u v ∷ []
pack (p ∷ q ∷ r ∷ s ∷ t ∷ u ∷ v ∷ w ∷ []) = p0 p q ∷ p1 q r s ∷ p2 s t ∷ p3 t u v ∷ p4 v w ∷ []
pack _ = []

-- Padding behind the digits of the last group: as much as fills the group, and not behind 3 or 6
-- digits. What stands behind it is not looked at.
unfoldable pub padded : List ℕ → Bytes → Option Bytes
unfolding pack
padded read text =
    let missing = 7 - length read in
    if ltb (length text) missing || not (all_pads (take missing text))
    then none
    else if length read == 3 || length read == 6
    then none
    else some (pack read)

-- The digits of a group are read one after the other. Eight make five bytes.
unfoldable pub groups : List ℕ → Bytes → Option Bytes
unfolding padded pack undigit
groups read [] = if length read == 0 then some [] else none
groups read (c ∷ text) =
    if c == pad && (leb 2 (length read) && ltb (length text) 8) then padded read text else (do
      n ← undigit c
      let full = length read == 7
      let rest = groups (if full then [] else read ++ (n ∷ [])) text
      if full then (do more ← rest; some (pack (read ++ (n ∷ [])) ++ more)) else rest)

-- `DecodeString`, where the callers use no bytes of a text that is refused.
unfoldable pub decode : Bytes → Option Bytes
unfolding groups strip
decode text = groups [] (strip text)
