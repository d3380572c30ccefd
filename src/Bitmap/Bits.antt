-- ===== src/Bitmap/Bits.antt =====
-- What a bitmap stands for: a sequence of bits. `bitmap_scan_test` reads one of them.
use lutf.Base.{
  ℕ, zero, suc, ◌*◌, ◌/◌, ◌%◌, ◌^◌, ◌≤◌, ◌<◌, ◌≡◌, refl, Bool, none, List, [], ◌∷◌, some, arith, ok,
  fault, length, get_elem?, set, ◌==◌, if◌then◌else◌,
}
use lutf.Base.Bytes.{test_bit, bit_and-test_bit}
use lutf.Bitmap.{Bitmap, read_byte, write_byte, bitmap_scan_test}

-- byte `k` of the array, 0 past its end
abbrev pub byte : List ℕ → ℕ → ℕ
byte [] k = 0
byte (b ∷ bs) zero = b
byte (b ∷ bs) (suc k) = byte bs k

-- bit `i` of the array
abbrev pub bit : List ℕ → ℕ → Bool
bit bs i = test_bit (byte bs (i / 8)) (i % 8)

abbrev pub IsBytes : List ℕ → Type 0
IsBytes [] = Unit
IsBytes (b ∷ bs) = (b < 256) × IsBytes bs

-- An array of bytes that holds the length that is declared, which stays within an `int` of bits.
pub record IsBitmap (m : Bitmap) : Type 0 where
  pub bytes : IsBytes m.bits
  pub holds : m.btmp_bytes_len ≤ length m.bits
  pub small : m.btmp_bytes_len * 8 < 2 ^ 31

pub byte-lt : (bs : List ℕ) (k : ℕ) → IsBytes bs → byte bs k < 256
byte-lt [] k h = omega arith
byte-lt (b ∷ bs) zero h = h.0
byte-lt (b ∷ bs) (suc k) h = byte-lt bs k h.1

get_elem?-byte : (bs : List ℕ) (k : ℕ) → k < length bs → get_elem? bs k ≡ some (byte bs k)
get_elem?-byte [] k h = absurd (omega arith)
get_elem?-byte (b ∷ bs) zero h = refl
get_elem?-byte (b ∷ bs) (suc k) h = get_elem?-byte bs k (omega arith)

get_elem?-none : (bs : List ℕ) (k : ℕ) → length bs ≤ k → get_elem? bs k ≡ none
get_elem?-none [] k h = refl
get_elem?-none (b ∷ bs) zero h = absurd (omega arith)
get_elem?-none (b ∷ bs) (suc k) h = get_elem?-none bs k (omega arith)

pub byte-set :
    (bs : List ℕ) (k j v : ℕ)
    → k < length bs
    → byte (set bs k v) j ≡ (if k == j then v else byte bs j)
byte-set [] k j v h = absurd (omega arith)
byte-set (b ∷ bs) zero zero v h = refl
byte-set (b ∷ bs) zero (suc j) v h = ground arith
byte-set (b ∷ bs) (suc k) zero v h = ground arith
byte-set (b ∷ bs) (suc k) (suc j) v h = ground (arith, byte-set bs k j v (omega arith))

pub IsBytes-set : (bs : List ℕ) (k v : ℕ) → v < 256 → IsBytes bs → IsBytes (set bs k v)
IsBytes-set [] k v hv h = tt
IsBytes-set (b ∷ bs) zero v hv h = (hv, h.1)
IsBytes-set (b ∷ bs) (suc k) v hv h = (h.0, IsBytes-set bs k v hv h.1)

module _ (m : Bitmap) (k : ℕ) where
  pub read_byte-byte : k < length m.bits → read_byte k m ≡ ok (byte m.bits k) m
  unfolding read_byte
  read_byte-byte h = rw (get_elem?-byte m.bits k h, read_byte)

  pub read_byte-fault : length m.bits ≤ k → read_byte k m ≡ fault
  unfolding read_byte
  read_byte-fault h = rw (get_elem?-none m.bits k h, read_byte)

  pub write_byte-set :
      (v : ℕ) → k < length m.bits → write_byte k v m ≡ ok tt (record m { bits = set m.bits k v })
  unfolding write_byte
  write_byte-set v h = ground arith

-- `bitmap_scan_test` of a bit of the array returns it, and does not change the bitmap.
pub bitmap_scan_test-bit :
    (m : Bitmap) (i : ℕ)
    → IsBytes m.bits
    → i < length m.bits * 8
    → bitmap_scan_test i m ≡ ok (bit m.bits i) m
unfolding bitmap_scan_test
bitmap_scan_test-bit m i hb hi = rw (
  read_byte-byte m (i / 8) (omega arith),
  bit_and-test_bit (byte m.bits (i / 8)) (i % 8) (byte-lt m.bits (i / 8) hb) (omega arith),
)
