-- ===== src/Bitmap.antt =====
-- The bitmap of src/lib/bitmap.c and src/include/bitmap.h. An access past the array is undefined
-- behaviour, a fault. A word is a number below its power of two; wrap-around is written out.
pub mod Bits
pub mod Update
pub mod Scan
pub mod Row
mod Tests
use Prim.Native.Nat.{bit_and, bit_or}
use lutf.Base.{
  ℕ, zero, suc, ◌+◌, ◌-◌, ◌*◌, ◌/◌, ◌%◌, ◌^◌, Bool, true, false, not, ◌&&◌, ◌||◌, Option, none,
  some, List, [], ◌∷◌, ◌==◌, ltb, if◌then◌else◌, length, get_elem?, set, Cmd, Unit₀, ok, fault,
  out_of_fuel, pure, assert, ◌>>=◌, ◌>>◌,
}
use lutf.Base.Int.{ℤ, negsuc, to_int32}

-- `bits` is the array that the field points to.
pub record Bitmap : Type 0 where
  pub btmp_bytes_len : ℕ
  pub bits : List ℕ

-- `memset` of the first `n` bytes to 0
abbrev pub zero_bytes : ℕ → List ℕ → List ℕ
zero_bytes zero bs = bs
zero_bytes (suc n) [] = []
zero_bytes (suc n) (b ∷ bs) = 0 ∷ zero_bytes n bs

unfoldable pub bitmap_init : Cmd Bitmap Unit₀
bitmap_init m =
    if ltb (length m.bits) m.btmp_bytes_len
    then fault
    else ok tt (record m { bits = zero_bytes m.btmp_bytes_len m.bits })

-- `btmp->bits[i]`, read and written
unfoldable pub read_byte : ℕ → Cmd Bitmap ℕ
read_byte i m = elim (get_elem? m.bits i) [ none ↦ fault | some b ↦ ok b m ]

unfoldable pub write_byte : ℕ → ℕ → Cmd Bitmap Unit₀
write_byte i b m =
    if ltb i (length m.bits) then ok tt (record m { bits = set m.bits i b }) else fault

unfoldable pub bitmap_scan_test : ℕ → Cmd Bitmap Bool
bitmap_scan_test bit_idx = do
  let byte_idx = bit_idx / 8
  let bit_odd = bit_idx % 8
  b ← read_byte byte_idx
  pure (not (bit_and b (2 ^ bit_odd) == 0))

-- the first loop of `bitmap_scan`: over the bytes that are full
unfoldable pub scan_bytes : ℕ → (idx_byte len : ℕ) → Cmd Bitmap ℕ
scan_bytes zero idx_byte len = λ _. out_of_fuel
scan_bytes (suc k) idx_byte len = do
  b ← read_byte idx_byte
  if b == 0xff && ltb idx_byte len
      then scan_bytes k ((idx_byte + 1) % 2 ^ 32) len
      else pure idx_byte

-- the second loop: over the bits of the byte, with `(uint8_t)(BITMAP_MASK << idx_bit)`
unfoldable pub scan_bits : ℕ → (idx_byte idx_bit : ℕ) → Cmd Bitmap ℕ
scan_bits zero idx_byte idx_bit = λ _. out_of_fuel
scan_bits (suc k) idx_byte idx_bit = do
  b ← read_byte idx_byte
  if bit_and b (2 ^ idx_bit % 256) == 0 then pure idx_bit else scan_bits k idx_byte (idx_bit + 1)

-- the third loop: `bit_left` more bits, in search of `cnt` free ones in a row
unfoldable pub scan_run : (bit_left next_bit count cnt : ℕ) → Cmd Bitmap ℤ
scan_run zero next_bit count cnt = pure (negsuc 0)
scan_run (suc bit_left) next_bit count cnt = do
  used ← bitmap_scan_test next_bit
  let count' = if used then 0 else (count + 1) % 2 ^ 32
  if count' == cnt
      then pure (to_int32 (next_bit + 2 ^ 32 - cnt + 1))
      else scan_run bit_left ((next_bit + 1) % 2 ^ 32) count' cnt

-- what is left of `bitmap_scan` when a free bit is found
unfoldable pub scan_from : (cnt start len : ℕ) → Cmd Bitmap ℤ
scan_from cnt start len =
    if cnt == 1
    then pure (to_int32 start)
    else scan_run ((len * 8 + 2 ^ 32 - start) % 2 ^ 32) ((start + 1) % 2 ^ 32) 1 cnt

abbrev bytes_len : Cmd Bitmap ℕ
bytes_len m = ok m.btmp_bytes_len m

-- One round for each byte and one more end the first loop, nine end the second.
unfoldable pub bitmap_scan : ℕ → Cmd Bitmap ℤ
bitmap_scan cnt = do
  len ← bytes_len
  idx_byte ← scan_bytes (len + 1) 0 len
  assert (ltb idx_byte len)
  if idx_byte == len then pure (negsuc 0) else do
    idx_bit ← scan_bits 9 idx_byte 0
    scan_from cnt ((idx_byte * 8 + idx_bit) % 2 ^ 32) len

-- `value` is the bit pattern of an `int8_t`.
unfoldable pub bitmap_set : (bit_idx value : ℕ) → Cmd Bitmap Unit₀
bitmap_set bit_idx value = do
  assert (value == 0 || value == 1)
  let byte_idx = bit_idx / 8
  let bit_odd = bit_idx % 8
  b ← read_byte byte_idx
  if value == 0
      then write_byte byte_idx (bit_and b (2 ^ 32 - 1 - 2 ^ bit_odd))
      else write_byte byte_idx (bit_or b (2 ^ bit_odd))
