-- ===== src/Codec/Crc32.antt =====
-- `binary.BigEndian.PutUint32(checksum, crc32.ChecksumIEEE(data))`: the CRC-32 of IEEE 802.3, bit
-- by bit, as four bytes.
use Prim.Native.Nat.{bit_xor}
use depscloud.Base.Bytes.{Bytes, bytes}
use depscloud.Base.{[], if◌then◌else◌, length, list_eq, nat_eq, option_eq, refl, suc, zero, ℕ}
use depscloud.Base.{ℕ_discrete, ◌%◌, ◌/◌, ◌==◌, ◌∷◌, ◌≡◌}
use depscloud.Tracker.Alpha.Types.{key_eq}

-- One bit of the division by the reversed polynomial 0xEDB88320.
shift : ℕ → ℕ
shift crc = if crc % 2 == 0 then crc / 2 else bit_xor (crc / 2) 3988292384

shifts : ℕ → ℕ → ℕ
shifts zero crc = crc
shifts (suc n) crc = shifts n (shift crc)

update : ℕ → Bytes → ℕ
update crc [] = crc
update crc (b ∷ rest) = update (shifts 8 (bit_xor crc b)) rest

big_endian : ℕ → Bytes
big_endian n = (n / 16777216 % 256) ∷ (n / 65536 % 256) ∷ (n / 256 % 256) ∷ (n % 256) ∷ []

unfoldable pub checksum : Bytes → Bytes
unfolding update shifts shift big_endian nat_eq
checksum x = big_endian (bit_xor (update 4294967295 x) 4294967295)

-- The check value of the standard, for the digits 1 to 9: 0xCBF43926.
checksum_of_digits : checksum (bytes "123456789") ≡ 203 ∷ 244 ∷ 57 ∷ 38 ∷ []
unfolding checksum ℕ_discrete
checksum_of_digits = refl

-- A checksum has four bytes.
pub length-checksum : (x : Bytes) → length (checksum x) ≡ 4
unfolding checksum
length-checksum x = refl
