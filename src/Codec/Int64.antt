-- ===== src/Codec/Int64.antt =====
-- Go's `int` and `uint64` on 64 bits, as integers with the wrap-around written out, and
-- `binary.BigEndian` and `%d` for them.
use Prim.Native.Nat.pow
use depscloud.Base.Int32.{ℤ, pos, negsuc}
use mathlib.Core.Path.{subst}
use depscloud.Base.{ℕ, suc, zero, [], arith, if◌then◌else◌, ltb, ◌%◌, ◌*◌, ◌++◌, ◌+◌, ◌-◌, ◌/◌}
use depscloud.Base.{◌<◌, ◌∷◌, ◌≡◌, All-append, length, length-append, refl, ◌^◌, ◌∙◌, list_eq}
use depscloud.Base.{nat_eq, option_eq}
use depscloud.Base.Bytes.{Bytes, AreBytes}
use depscloud.Tracker.Alpha.Types.{key_eq}

-- The bit pattern of a value, and the value of a bit pattern, as `uint64(n)` and `int(b)` give.
abbrev pub to_bits64 : ℤ → ℕ
to_bits64 (pos n) = n % 18446744073709551616
to_bits64 (negsuc n) = 18446744073709551615 - n % 18446744073709551616

abbrev pub of_bits64 : ℕ → ℤ
of_bits64 b = if ltb b 9223372036854775808 then pos b else negsuc (18446744073709551615 - b)

unfoldable pub add64 : ℤ → ℤ → ℤ
add64 a b = of_bits64 ((to_bits64 a + to_bits64 b) % 18446744073709551616)

pub add64-pos : (a b : ℕ) → a + b < 9223372036854775808 → add64 (pos a) (pos b) ≡ pos (a + b)
unfolding add64
add64-pos a b h = ground arith

-- `%d` of a number: the digits from the last one, as many as the fuel allows.
unfoldable pub decimal_digits : ℕ → ℕ → Bytes → Bytes
decimal_digits zero n text = text
decimal_digits (suc fuel) n text =
    let text' = (n % 10 + 48) ∷ text in
    let rest = decimal_digits fuel (n / 10) text' in if ltb n 10 then text' else rest

-- `%d` of an int. A number of n has fewer than n + 1 digits.
unfoldable pub decimal : ℤ → Bytes
unfolding decimal_digits
decimal (pos n) = decimal_digits (n + 1) n []
decimal (negsuc n) = 45 ∷ decimal_digits (n + 2) (n + 1) []

-- `PutUint64` into 8 bytes, and `Uint64` of 8 bytes: the digits to the base 256.
unfoldable pub put_digits : ℕ → ℕ → Bytes
put_digits zero b = []
put_digits (suc k) b = put_digits k (b / 256) ++ (b % 256 ∷ [])

unfoldable pub put_uint64 : ℕ → Bytes
unfolding put_digits
put_uint64 = put_digits 8

unfoldable pub read_digits : ℕ → Bytes → ℕ
read_digits b [] = b
read_digits b (x ∷ xs) = read_digits (b * 256 + x) xs

unfoldable pub uint64 : Bytes → ℕ
unfolding read_digits
uint64 = read_digits 0

put_digits-AreBytes : (k b : ℕ) → AreBytes (put_digits k b)
unfolding put_digits
put_digits-AreBytes zero b = tt
put_digits-AreBytes (suc k) b =
    All-append (λ x. x < 256) (put_digits k (b / 256)) (b % 256 ∷ [])
      (put_digits-AreBytes k (b / 256)) (omega arith, tt)

length-put_digits : (k b : ℕ) → length (put_digits k b) ≡ k
unfolding put_digits
length-put_digits zero b = refl
length-put_digits (suc k) b =
    length-append (put_digits k (b / 256)) (b % 256 ∷ [])
    ∙ omega (arith, length-put_digits k (b / 256))

read_digits-append :
    (xs ys : Bytes) (b : ℕ) → read_digits b (xs ++ ys) ≡ read_digits (read_digits b xs) ys
unfolding read_digits
read_digits-append [] ys b = refl
read_digits-append (x ∷ xs) ys b = read_digits-append xs ys (b * 256 + x)

read_digits-put_digits : (k b : ℕ) → b < 256 ^ k → read_digits 0 (put_digits k b) ≡ b
unfolding put_digits read_digits
read_digits-put_digits zero b h = omega arith
read_digits-put_digits (suc k) b h =
    let small : b < 256 ^ k * 256 = subst (λ m. b < m) (pow.suc 256 k) h in
    let front : read_digits 0 (put_digits k (b / 256)) ≡ b / 256 =
      read_digits-put_digits k (b / 256) (omega arith) in
    read_digits-append (put_digits k (b / 256)) (b % 256 ∷ []) 0 ∙ rw front (omega arith)

pub uint64-put_uint64 : (b : ℕ) → b < 18446744073709551616 → uint64 (put_uint64 b) ≡ b
unfolding put_uint64 uint64
uint64-put_uint64 b h = read_digits-put_digits 8 b h

pub put_uint64-Word : (b : ℕ) → AreBytes (put_uint64 b) × (length (put_uint64 b) ≡ 8)
unfolding put_uint64
put_uint64-Word b = (put_digits-AreBytes 8 b, length-put_digits 8 b)
