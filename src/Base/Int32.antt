-- ===== src/Base/Int32.antt =====
-- Go's `int32`, as integers with the wrap-around written out.
use Prim.Native.Nat.{ℕ, ◌+◌, ◌-◌, ◌*◌, ◌%◌, ◌≤◌, ◌<◌}
use mathlib.Core.Path.{◌≡◌}
use mathlib.Core.Bool.{Bool, true, false}
use native.Mathlib.Omega.{arith}
use depscloud.Base.Equality.{if◌then◌else◌, ltb}

-- `negsuc n` is -(n + 1).
pub data ℤ : Type 0 where
  pos : ℕ → ℤ
  negsuc : ℕ → ℤ

-- 2 ^ 32
abbrev pub word : ℕ
word = 4294967296

-- The bit pattern of a value, and the value of a bit pattern.
abbrev pub to_bits : ℤ → ℕ
to_bits (pos n) = n % 4294967296
to_bits (negsuc n) = 4294967295 - n % 4294967296

abbrev pub of_bits : ℕ → ℤ
of_bits b = if ltb b 2147483648 then pos b else negsuc (4294967295 - b)

-- `a > b`
abbrev pub gtb : ℤ → ℤ → Bool
gtb (pos a) (pos b) = ltb b a
gtb (pos a) (negsuc b) = true
gtb (negsuc a) (pos b) = false
gtb (negsuc a) (negsuc b) = ltb a b

unfoldable pub sub32 : ℤ → ℤ → ℤ
sub32 a b = of_bits ((to_bits a + 4294967296 - to_bits b) % 4294967296)

unfoldable pub mul32 : ℤ → ℤ → ℤ
mul32 a b = of_bits ((to_bits a * to_bits b) % 4294967296)

pub sub32-one : (n : ℕ) → n < 2147483648 → 1 ≤ n → sub32 (pos n) (pos 1) ≡ pos (n - 1)
unfolding sub32
sub32-one n h p = ground arith

pub mul32-pos :
    (a b : ℕ)
    → a * b < 2147483648
    → a < 2147483648
    → b < 2147483648
    → mul32 (pos a) (pos b) ≡ pos (a * b)
unfolding mul32
mul32-pos a b h p q = ground arith

pub mul32-wraps :
    (a b : ℕ)
    → 2147483648 ≤ a * b
    → a * b < 4294967296
    → a < 2147483648
    → b < 2147483648
    → mul32 (pos a) (pos b) ≡ negsuc (4294967295 - a * b)
unfolding mul32
mul32-wraps a b h k p q = ground arith
