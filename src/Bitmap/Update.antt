-- ===== src/Bitmap/Update.antt =====
-- `bitmap_init` and `bitmap_set` on the bits that the bitmap stands for.
use Prim.Native.Nat.{bit_and, bit_or}
use lutf.Base.{
  ℕ, zero, suc, ◌-◌, ◌*◌, ◌/◌, ◌%◌, ◌^◌, ◌≤◌, ◌<◌, ◌≡◌, refl, Bool, true, false, List, [], ◌∷◌,
  arith, fault, length, length-set, set, ◌==◌, ltb, if◌then◌else◌, Returns, returns, spin,
}
use lutf.Base.Bytes.{
  test_bit, test_bit-zero, bit_or-lt, test_bit-bit_or, bit_clear-lt, test_bit-bit_clear,
}
use lutf.Bitmap.{Bitmap, zero_bytes, bitmap_init, bitmap_set}
use lutf.Bitmap.Bits.{
  byte, bit, IsBytes, IsBitmap, byte-lt, byte-set, IsBytes-set, read_byte-byte, read_byte-fault,
  write_byte-set,
}

byte-zero_bytes :
    (n : ℕ) (bs : List ℕ) (k : ℕ) → byte (zero_bytes n bs) k ≡ (if ltb k n then 0 else byte bs k)
byte-zero_bytes zero bs k = ground arith
byte-zero_bytes (suc n) [] k = ground arith
byte-zero_bytes (suc n) (b ∷ bs) zero = ground arith
byte-zero_bytes (suc n) (b ∷ bs) (suc k) = ground (arith, byte-zero_bytes n bs k)

length-zero_bytes : (n : ℕ) (bs : List ℕ) → length (zero_bytes n bs) ≡ length bs
length-zero_bytes zero bs = refl
length-zero_bytes (suc n) [] = refl
length-zero_bytes (suc n) (b ∷ bs) = omega (arith, length-zero_bytes n bs)

IsBytes-zero_bytes : (n : ℕ) (bs : List ℕ) → IsBytes bs → IsBytes (zero_bytes n bs)
IsBytes-zero_bytes zero bs h = h
IsBytes-zero_bytes (suc n) [] h = tt
IsBytes-zero_bytes (suc n) (b ∷ bs) h = (omega arith, IsBytes-zero_bytes n bs h.1)

-- `m'` has the shape of `m`, and the bits that `f` gives.
pub record HasBits (m : Bitmap) (f : ℕ → Bool) (m' : Bitmap) : Type 0 where
  pub valid : IsBitmap m'
  pub same_len : m'.btmp_bytes_len ≡ m.btmp_bytes_len
  pub same_size : length m'.bits ≡ length m.bits
  pub bits : (j : ℕ) → bit m'.bits j ≡ f j

-- After `bitmap_init` every bit of the declared length is clear, and no other bit of the array has
-- changed.
pub bitmap_init-clear :
    (m : Bitmap)
    → IsBitmap m
    → Returns
        (λ _. HasBits m (λ j. if ltb j (m.btmp_bytes_len * 8) then false else bit m.bits j))
        (bitmap_init m)
unfolding bitmap_init
bitmap_init-clear m h =
    let fits : ltb (length m.bits) m.btmp_bytes_len ≡ false = ground (arith, h.holds) in
    rw fits (
      returns (record {
        valid = record {
          bytes = IsBytes-zero_bytes m.btmp_bytes_len m.bits h.bytes;
          holds = omega (arith, h.holds, length-zero_bytes m.btmp_bytes_len m.bits);
          small = h.small;
        };
        same_len = refl;
        same_size = length-zero_bytes m.btmp_bytes_len m.bits;
        bits = λ j.
            ground (arith, byte-zero_bytes m.btmp_bytes_len m.bits (j / 8), test_bit-zero (j % 8));
      }))

-- One byte is written: its bits are new, the others stay.
bit-set :
    (bs : List ℕ) (i j v : ℕ)
    → i / 8 < length bs
    → bit (set bs (i / 8) v) j ≡ (if i / 8 == j / 8 then test_bit v (j % 8) else bit bs j)
bit-set bs i j v h = ground (arith, byte-set bs (i / 8) (j / 8) v h)

written-IsBitmap :
    (m : Bitmap) (k v : ℕ) → IsBitmap m → v < 256 → IsBitmap (record m { bits = set m.bits k v })
written-IsBitmap m k v h hv = record {
  bytes = IsBytes-set m.bits k v hv h.bytes;
  holds = omega (arith, length-set m.bits k v, h.holds);
  small = h.small;
}

module _ (m : Bitmap) (i : ℕ) (h : IsBitmap m) (hi : i < length m.bits * 8) where
  bitmap_set-one :
      Returns (λ _. HasBits m (λ j. if i == j then true else bit m.bits j)) (bitmap_set i 1 m)
  unfolding bitmap_set
  bitmap_set-one =
      let b = byte m.bits (i / 8) in
      let hb = byte-lt m.bits (i / 8) h.bytes in
      let lt : i / 8 < length m.bits = omega arith in
      rw (read_byte-byte m (i / 8) lt, write_byte-set m (i / 8) (bit_or b (2 ^ (i % 8))) lt)
        (returns (record {
          valid = written-IsBitmap m (i / 8) _ h (bit_or-lt b (i % 8) hb (omega arith));
          same_len = refl;
          same_size = length-set m.bits (i / 8) _;
          bits = λ j. ground (
            arith,
            bit-set m.bits i j (bit_or b (2 ^ (i % 8))) lt,
            test_bit-bit_or b (i % 8) hb (omega arith) (j % 8) (omega arith),
          );
        }))

  bitmap_set-zero :
      Returns (λ _. HasBits m (λ j. if i == j then false else bit m.bits j)) (bitmap_set i 0 m)
  unfolding bitmap_set
  bitmap_set-zero =
      let b = byte m.bits (i / 8) in
      let hb = byte-lt m.bits (i / 8) h.bytes in
      let w = bit_and b (2 ^ 32 - 1 - 2 ^ (i % 8)) in
      let lt : i / 8 < length m.bits = omega arith in
      rw (read_byte-byte m (i / 8) lt, write_byte-set m (i / 8) w lt)
        (returns (record {
          valid = written-IsBitmap m (i / 8) _ h (bit_clear-lt b (i % 8) hb (omega arith));
          same_len = refl;
          same_size = length-set m.bits (i / 8) _;
          bits = λ j. ground (
            arith,
            bit-set m.bits i j w lt,
            test_bit-bit_clear b (i % 8) hb (omega arith) (j % 8) (omega arith),
          );
        }))

-- `bitmap_set` of a bit of the array to 0 or 1 writes that bit, and no other bit.
pub bitmap_set-bit :
    (m : Bitmap) (i value : ℕ)
    → IsBitmap m
    → i < length m.bits * 8
    → value < 2
    → Returns
        (λ _. HasBits m (λ j. if i == j then value == 1 else bit m.bits j))
        (bitmap_set i value m)
bitmap_set-bit m i zero h hi hv = bitmap_set-zero m i h hi
bitmap_set-bit m i (suc zero) h hi hv = bitmap_set-one m i h hi
bitmap_set-bit m i (suc (suc v)) h hi hv = absurd (omega arith)

-- It stops at its assertion on any other value.
pub bitmap_set_refused : (m : Bitmap) (i value : ℕ) → 2 ≤ value → bitmap_set i value m ≡ spin m
unfolding bitmap_set
bitmap_set_refused m i value h = ground arith

-- Past the array it is undefined.
pub bitmap_set_outside :
    (m : Bitmap) (i value : ℕ) → value < 2 → length m.bits * 8 ≤ i → bitmap_set i value m ≡ fault
unfolding bitmap_set
bitmap_set_outside m i value h k = ground (arith, read_byte-fault m (i / 8) (omega arith))
