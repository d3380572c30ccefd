-- ===== src/Base/Int.antt =====
-- C's signed integers and the conversions between them and the unsigned words.
use Prim.Native.Nat.{ℕ, zero, suc, ◌+◌, ◌-◌, ◌%◌, ◌^◌, ◌<◌}
use mathlib.Core.Path.{◌≡◌}
use native.Mathlib.Omega.{arith}
use lutf.Base.Tests.{ltb, if◌then◌else◌}

-- `negsuc n` is -(n + 1).
pub data ℤ : Type 0 where
  pos : ℕ → ℤ
  negsuc : ℕ → ℤ

-- the value of a word read as `int32_t`, and as `int16_t`
abbrev pub to_int32 : ℕ → ℤ
to_int32 x =
    if ltb (x % 2 ^ 32) (2 ^ 31) then pos (x % 2 ^ 32) else negsuc (2 ^ 32 - x % 2 ^ 32 - 1)

abbrev pub to_int16 : ℕ → ℤ
to_int16 x =
    if ltb (x % 2 ^ 16) (2 ^ 15) then pos (x % 2 ^ 16) else negsuc (2 ^ 16 - x % 2 ^ 16 - 1)

-- the word that a signed value is converted to
abbrev pub to_uint32 : ℤ → ℕ
to_uint32 (pos n) = n % 2 ^ 32
to_uint32 (negsuc n) = 2 ^ 32 - n % 2 ^ 32 - 1

pub to_int32-small : (n : ℕ) → n < 2 ^ 31 → to_int32 n ≡ pos n
to_int32-small n h = ground arith

pub to_int16-small : (n : ℕ) → n < 2 ^ 15 → to_int16 n ≡ pos n
to_int16-small n h = ground arith

-- `i++` and `i--` on an `int` that stays in range
abbrev pub inc : ℤ → ℤ
inc (pos n) = pos (n + 1)
inc (negsuc zero) = pos 0
inc (negsuc (suc n)) = negsuc n

abbrev pub dec : ℤ → ℤ
dec (pos zero) = negsuc 0
dec (pos (suc n)) = pos n
dec (negsuc n) = negsuc (n + 1)
