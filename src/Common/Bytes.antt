-- ===== src/Common/Bytes.antt =====
-- Byte lists: `to_le_bytes` and `from_le_bytes` of the unsigned integers and of i64.
use raster_h.Common.Tests.{ltb, if◌then◌else◌}
use raster_h.Common.Int.{ℤ, pos, negsuc, IsI64}
use raster_h.Common.Lists.{length, All}
use Prim.Native.Nat.{ℕ, zero, suc, ◌+◌, ◌-◌, ◌*◌, ◌/◌, ◌%◌, ◌^◌, ◌<◌}
use mathlib.Core.Path.{◌≡◌, refl, ap}
use mathlib.Core.List.{List, [], ◌∷◌}
use native.Mathlib.Omega.{arith}

abbrev pub IsByte : ℕ → Type 0
IsByte b = b < 256

-- The low `n` bytes of `v`, least first.
abbrev pub to_le_bytes : ℕ → ℕ → List ℕ
to_le_bytes zero v = []
to_le_bytes (suc n) v = (v % 256) ∷ to_le_bytes n (v / 256)

abbrev pub from_le_bytes : List ℕ → ℕ
from_le_bytes [] = 0
from_le_bytes (b ∷ bs) = b + 256 * from_le_bytes bs

pub length-to_le_bytes : (n v : ℕ) → length (to_le_bytes n v) ≡ n
length-to_le_bytes zero v = refl
length-to_le_bytes (suc n) v = ap suc (length-to_le_bytes n (v / 256))

pub to_le_bytes-IsByte : (n v : ℕ) → All IsByte (to_le_bytes n v)
to_le_bytes-IsByte zero v = tt
to_le_bytes-IsByte (suc n) v = (omega arith, to_le_bytes-IsByte n (v / 256))

pub from_le_bytes-u32 : (v : ℕ) → v < 2 ^ 32 → from_le_bytes (to_le_bytes 4 v) ≡ v
from_le_bytes-u32 v h = omega arith

pub from_le_bytes-u64 : (v : ℕ) → v < 2 ^ 64 → from_le_bytes (to_le_bytes 8 v) ≡ v
from_le_bytes-u64 v h = omega arith

-- An i64 as its bit pattern, and back.
abbrev pub i64_bits : ℤ → ℕ
i64_bits (pos n) = n % 2 ^ 64
i64_bits (negsuc n) = 2 ^ 64 - 1 - n % 2 ^ 64

abbrev pub i64_of_bits : ℕ → ℤ
i64_of_bits w = if ltb w (2 ^ 63) then pos w else negsuc (2 ^ 64 - 1 - w)

pub i64_bits-lt : (z : ℤ) → i64_bits z < 2 ^ 64
i64_bits-lt (pos n) = omega arith
i64_bits-lt (negsuc n) = omega arith

pub i64_of_bits-i64_bits : (z : ℤ) → IsI64 z → i64_of_bits (i64_bits z) ≡ z
i64_of_bits-i64_bits (pos n) h = ground arith
i64_of_bits-i64_bits (negsuc n) h = ground arith
