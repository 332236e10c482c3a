-- ===== src/Base/Bytes.antt =====
-- Go strings and byte slices: both are sequences of bytes, so that `[]byte(s)` and `string(b)`
-- are the identity here.
use Prim.Native.Nat.{ℕ, ◌<◌}
use Prim.Native.Char.{code}
use Prim.Native.String.{String}
use mathlib.Core.List.{List, [], ◌∷◌}
use depscloud.Base.Lists.{All}

abbrev pub Bytes : Type 0
Bytes = List ℕ

-- A text of ASCII characters as its bytes.
abbrev pub bytes : String → Bytes
bytes String.[] = []
bytes (String.◌∷◌ c s) = code c ∷ bytes s

abbrev pub AreBytes : Bytes → Type 0
AreBytes = All (λ b. b < 256)
