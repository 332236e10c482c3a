-- ===== src/Codec/Query.antt =====
-- `net/url`: `QueryEscape`, which the HTTP clients of deps/internal/client/ use, and how a server
-- takes a query apart.
pub mod RoundTrip
use depscloud.Base.Options.{◌>>=◌}
use depscloud.Base.Bytes.{Bytes}
use depscloud.Base.{Bool, List, Option, none, some, ℕ, [], false, if◌then◌else◌, leb, list_eq}
use depscloud.Base.{ltb, nat_eq, option_eq, true, ◌%◌, ◌&&◌, ◌*◌, ◌++◌, ◌+◌, ◌-◌, ◌/◌, ◌==◌}
use depscloud.Base.{◌||◌, ◌∷◌}
use depscloud.Tracker.Alpha.Types.{key_eq}

-- Letters, digits and - . _ ~ stand for themselves.
abbrev pub is_plain : ℕ → Bool
is_plain c =
    (leb 97 c && leb c 122)
    || ((leb 65 c && leb c 90)
        || ((leb 48 c && leb c 57) || ((c == 45 || c == 46) || (c == 95 || c == 126))))

unfoldable pub hex : ℕ → ℕ
hex n = if ltb n 10 then n + 48 else n + 55

unfoldable pub unhex : ℕ → Option ℕ
unhex c =
    if leb 48 c && leb c 57
    then some (c - 48)
    else if leb 65 c && leb c 70
    then some (c - 55)
    else if leb 97 c && leb c 102
    then some (c - 87)
    else none

unfoldable pub escape_byte : ℕ → Bytes
unfolding hex
escape_byte c =
    if is_plain c
    then c ∷ []
    else if c == 32
    then 43 ∷ []
    else 37 ∷ hex (c / 16) ∷ hex (c % 16) ∷ []

-- `QueryEscape`
unfoldable pub query_escape : Bytes → Bytes
unfolding escape_byte
query_escape [] = []
query_escape (c ∷ text) = escape_byte c ++ query_escape text

-- What has been read of a byte in hexadecimal.
pub data Pending : Type 0 where
  nothing percent : Pending
  digit : ℕ → Pending

-- `QueryUnescape`
unfoldable pub unescape : Pending → Bytes → Option Bytes
unfolding unhex
unescape nothing [] = some []
unescape percent [] = none
unescape (digit h) [] = none
unescape nothing (c ∷ text) = elim (c == 37) [
  | true ↦ unescape percent text
  | false ↦ (do rest ← unescape nothing text; some ((if c == 43 then 32 else c) ∷ rest))
]
unescape percent (c ∷ text) = do h ← unhex c; unescape (digit h) text
unescape (digit h) (c ∷ text) = do
  l ← unhex c
  rest ← unescape nothing text
  some ((h * 16 + l) ∷ rest)

abbrev pub cons_first : ℕ → List Bytes → List Bytes
cons_first c [] = (c ∷ []) ∷ []
cons_first c (part ∷ parts) = (c ∷ part) ∷ parts

-- `strings.Split` at a byte, and the parts before and behind its first occurrence.
unfoldable pub split : ℕ → Bytes → List Bytes
split d [] = [] ∷ []
split d (c ∷ text) = let rest = split d text in if c == d then [] ∷ rest else cons_first c rest

unfoldable pub cut : ℕ → Bytes → Bytes × Bytes
cut d [] = ([], [])
cut d (c ∷ text) = let rest = cut d text in if c == d then ([], text) else (c ∷ rest.0, rest.1)

-- One parameter of a query, and `url.ParseQuery` on a query of such parameters.
unfoldable pub parameter : Bytes → Option (Bytes × Bytes)
unfolding cut unescape
parameter part = do
  let (key, value) = cut 61 part
  key' ← unescape nothing key
  value' ← unescape nothing value
  some (key', value')

unfoldable pub parameters : List Bytes → Option (List (Bytes × Bytes))
unfolding parameter
parameters [] = some []
parameters (part ∷ parts) = do first ← parameter part; rest ← parameters parts; some (first ∷ rest)

unfoldable pub parse_query : Bytes → Option (List (Bytes × Bytes))
unfolding split parameters
parse_query query = parameters (split 38 query)
