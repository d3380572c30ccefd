-- ===== src/Base/Bytes.antt =====
-- The bits of a byte, and what the masks of C do to them: checked over all 256 values.
use Prim.Native.Nat.{ℕ, zero, suc, ◌-◌, ◌/◌, ◌%◌, ◌^◌, ◌<◌, bit_and, bit_or}
use mathlib.Core.Path.{◌≡◌, refl}
use mathlib.Core.Bool.{Bool, true, false, not, ◌&&◌, ◌||◌}
use native.Mathlib.Omega.{arith}
use lutf.Base.Tests.{◌==◌, ==_iff, ltb}

-- bit `i` of a byte
unfoldable pub test_bit : ℕ → ℕ → Bool
test_bit b i = (b / 2 ^ i) % 2 == 1

abbrev same : Bool → Bool → Bool
same true b = b
same false b = not b

same-eq : (a b : Bool) → same a b ≡ true → a ≡ b
same-eq true b h = ground arith
same-eq false b h = ground arith

unfoldable pub holds_below : ℕ → (ℕ → Bool) → Bool
holds_below zero test = true
holds_below (suc top) test = holds_below top test && test top

pub holds_below_at :
    (bound : ℕ) (test : ℕ → Bool) (i : ℕ)
    → holds_below bound test ≡ true
    → i < bound
    → test i ≡ true
unfolding holds_below
holds_below_at zero test i every small = absurd (omega arith)
holds_below_at (suc top) test i every small = ground (holds_below_at top test i, arith)

holds_below₂ :
    (n k : ℕ) (p : ℕ → ℕ → Bool) (x y : ℕ)
    → holds_below n (λ a. holds_below k (p a)) ≡ true
    → x < n
    → y < k
    → p x y ≡ true
holds_below₂ n k p x y h hx hy =
    holds_below_at k (p x) y (holds_below_at n (λ a. holds_below k (p a)) x h hx) hy

-- `b & (1 << i)` as a condition
abbrev mask_row : ℕ → ℕ → Bool
mask_row b i = same (not (bit_and b (2 ^ i) == 0)) (test_bit b i)

mask_table : holds_below 256 (λ b. holds_below 8 (mask_row b)) ≡ true
unfolding holds_below test_bit
mask_table = refl

pub bit_and-test_bit : (b i : ℕ) → b < 256 → i < 8 → not (bit_and b (2 ^ i) == 0) ≡ test_bit b i
bit_and-test_bit b i hb hi = same-eq _ _ (holds_below₂ 256 8 mask_row b i mask_table hb hi)

-- `b | (1 << i)` sets bit `i` and keeps the others
abbrev or_row : ℕ → ℕ → Bool
or_row b i =
    ltb (bit_or b (2 ^ i)) 256
    && holds_below 8 (λ j. same (test_bit (bit_or b (2 ^ i)) j) (i == j || test_bit b j))

or_table : holds_below 256 (λ b. holds_below 8 (or_row b)) ≡ true
unfolding holds_below test_bit
or_table = refl

-- `b & ~(1 << i)` clears bit `i` and keeps the others
abbrev clear_row : ℕ → ℕ → Bool
clear_row b i =
    ltb (bit_and b (2 ^ 32 - 1 - 2 ^ i)) 256
    && holds_below 8
        (λ j. same (test_bit (bit_and b (2 ^ 32 - 1 - 2 ^ i)) j) (not (i == j) && test_bit b j))

clear_table : holds_below 256 (λ b. holds_below 8 (clear_row b)) ≡ true
unfolding holds_below test_bit
clear_table = refl

module _ (b i : ℕ) (hb : b < 256) (hi : i < 8) where
  pub bit_or-lt : bit_or b (2 ^ i) < 256
  bit_or-lt = ground (arith, holds_below₂ 256 8 or_row b i or_table hb hi)

  pub test_bit-bit_or : (j : ℕ) → j < 8 → test_bit (bit_or b (2 ^ i)) j ≡ (i == j || test_bit b j)
  test_bit-bit_or j hj = same-eq _ _ (
      holds_below_at 8 (λ k. same (test_bit (bit_or b (2 ^ i)) k) (i == k || test_bit b k)) j
        (ground (arith, holds_below₂ 256 8 or_row b i or_table hb hi)) hj)

  pub bit_clear-lt : bit_and b (2 ^ 32 - 1 - 2 ^ i) < 256
  bit_clear-lt = ground (arith, holds_below₂ 256 8 clear_row b i clear_table hb hi)

  pub test_bit-bit_clear :
      (j : ℕ) → j < 8 → test_bit (bit_and b (2 ^ 32 - 1 - 2 ^ i)) j ≡ (not (i == j) && test_bit b j)
  test_bit-bit_clear j hj = same-eq _ _ (
      holds_below_at 8
        (λ k. same (test_bit (bit_and b (2 ^ 32 - 1 - 2 ^ i)) k) (not (i == k) && test_bit b k)) j
        (ground (arith, holds_below₂ 256 8 clear_row b i clear_table hb hi)) hj)

zero_row : holds_below 8 (λ i. not (test_bit 0 i)) ≡ true
unfolding holds_below test_bit
zero_row = refl

pub test_bit-zero : (i : ℕ) → i < 8 → test_bit 0 i ≡ false
test_bit-zero i h = ground (arith, holds_below_at 8 (λ i. not (test_bit 0 i)) i zero_row h)

-- a byte below 255 has a clear bit; 255 has none
abbrev ones : ℕ → Bool
ones b = same (holds_below 8 (test_bit b)) (b == 255)

ones_table : holds_below 256 ones ≡ true
unfolding holds_below test_bit
ones_table = refl

holds_below_complete :
    (n : ℕ) (p : ℕ → Bool) → ((x : ℕ) → x < n → p x ≡ true) → holds_below n p ≡ true
unfolding holds_below
holds_below_complete zero p h = refl
holds_below_complete (suc n) p h =
    ground (arith, h n (omega arith), holds_below_complete n p (λ x hx. h x (omega arith)))

-- A byte is 0xff exactly when its eight bits are set.
pub eq_255_of_bits : (b : ℕ) → b < 256 → ((i : ℕ) → i < 8 → test_bit b i ≡ true) → b ≡ 255
eq_255_of_bits b hb h =
    ground (arith, holds_below_at 256 ones b ones_table hb, holds_below_complete 8 (test_bit b) h)

pub test_bit-255 : (i : ℕ) → i < 8 → test_bit 255 i ≡ true
test_bit-255 i h = holds_below_at 8 (test_bit 255) i full h
  where
    full : holds_below 8 (test_bit 255) ≡ true
    full = ground (arith, holds_below_at 256 ones 255 ones_table (omega arith))

pow_table : holds_below 8 (λ i. 2 ^ i % 256 == 2 ^ i) ≡ true
unfolding holds_below
pow_table = refl

-- `(uint8_t)(1 << i)` loses nothing for a bit of a byte
pub pow-mod-byte : (i : ℕ) → i < 8 → 2 ^ i % 256 ≡ 2 ^ i
pow-mod-byte i h = (==_iff _ _).0 (holds_below_at 8 (λ i. 2 ^ i % 256 == 2 ^ i) i pow_table h)
