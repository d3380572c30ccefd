-- ===== src/Bitmap/Scan.antt =====
-- `bitmap_scan`: the search for the first free bit, and for a row of free bits.
use lutf.Base.{
  ℕ, zero, suc, ◌+◌, ◌*◌, ◌/◌, ◌%◌, ◌^◌, ◌≤◌, ◌<◌, ◌≡◌, ◌≢◌, refl, true, false, List, arith, ok,
  fault, spin, length, ◌==◌, ltb, Bool-cases, inl, inr, ◌∙◌, ap, sym,
}
use lutf.Base.Bytes.{test_bit, bit_and-test_bit, eq_255_of_bits, test_bit-255, pow-mod-byte}
use lutf.Base.Int.{pos, to_int32-small}
use lutf.Bitmap.{Bitmap, scan_bytes, scan_bits, scan_from, bitmap_scan}
use lutf.Bitmap.Bits.{byte, bit, IsBytes, IsBitmap, byte-lt, read_byte-byte, read_byte-fault}

-- bit `i` of byte `k`, among the bits of the array
bit-byte : (bs : List ℕ) (k i : ℕ) → i < 8 → bit bs (k * 8 + i) ≡ test_bit (byte bs k) i
bit-byte bs k i h =
    let q : (k * 8 + i) / 8 ≡ k = omega arith in
    let r : (k * 8 + i) % 8 ≡ i = omega arith in rw (q, r)

-- `n` is the first clear bit.
pub record FirstClear (m : Bitmap) (n : ℕ) : Type 0 where
  pub clear : bit m.bits n ≡ false
  pub used : (j : ℕ) → j < n → bit m.bits j ≡ true
  pub within : n < m.btmp_bytes_len * 8

-- a byte of set bits is 0xff
byte-full :
    (bs : List ℕ) (k n : ℕ)
    → IsBytes bs
    → ((j : ℕ) → j < n → bit bs j ≡ true)
    → k * 8 + 8 ≤ n
    → byte bs k ≡ 255
byte-full bs k n hb used h =
    eq_255_of_bits (byte bs k) (byte-lt bs k hb)
      λ i hi. sym (bit-byte bs k i hi) ∙ used (k * 8 + i) (omega arith)

byte-not_full : (bs : List ℕ) (n : ℕ) → bit bs n ≡ false → byte bs (n / 8) ≢ 255
byte-not_full bs n h e = cc (test_bit-255 (n % 8) (omega arith), ap (λ b. test_bit b (n % 8)) e)

-- The first loop steps over the full bytes, and stops at the byte `q` that is not full, or at the
-- length.
scan_bytes-stop :
    (m : Bitmap) (k i q len : ℕ)
    → ((j : ℕ) → j < q → byte m.bits j ≡ 255)
    → (byte m.bits q ≡ 255 → q ≡ len)
    → q < length m.bits
    → q ≤ len
    → len < 2 ^ 31
    → i ≤ q
    → q < k + i
    → scan_bytes k i len m ≡ ok q m
unfolding scan_bytes
scan_bytes-stop m zero i q len full stop hq hl small hi hk = absurd (omega arith)
scan_bytes-stop m (suc k) i q len full stop hq hl small hi hk =
    rw (read_byte-byte m i (omega arith)) (elim (Bool-cases (i == q)) [
      | inl at ↦ ground arith
      | inr before ↦ ground (
        arith,
        full i,
        scan_bytes-stop m k ((i + 1) % 2 ^ 32) q len full stop hq hl small (ground arith)
            (ground arith),
      )
    ])

scan_bytes-fault :
    (m : Bitmap) (k i len : ℕ)
    → ((j : ℕ) → j < len → byte m.bits j ≡ 255)
    → length m.bits ≡ len
    → len < 2 ^ 31
    → i ≤ len
    → len < k + i
    → scan_bytes k i len m ≡ fault
unfolding scan_bytes
scan_bytes-fault m zero i len full e small hi hk = absurd (omega arith)
scan_bytes-fault m (suc k) i len full e small hi hk = elim (Bool-cases (i == len)) [
  | inl at ↦ rw (read_byte-fault m i (ground arith))
  | inr before ↦ rw (read_byte-byte m i (ground arith)) (
      ground (
        arith,
        full i,
        scan_bytes-fault m k ((i + 1) % 2 ^ 32) len full e small (ground arith) (ground arith),
      ))
]

-- The second loop finds the first clear bit of its byte.
scan_bits-stop :
    (m : Bitmap) (k q i r : ℕ)
    → q < length m.bits
    → IsBytes m.bits
    → test_bit (byte m.bits q) r ≡ false
    → ((j : ℕ) → j < r → test_bit (byte m.bits q) j ≡ true)
    → r < 8
    → i ≤ r
    → r < k + i
    → scan_bits k q i m ≡ ok r m
unfolding scan_bits
scan_bits-stop m zero q i r hq hb clear used hr hi hk = absurd (omega arith)
scan_bits-stop m (suc k) q i r hq hb clear used hr hi hk =
    rw (read_byte-byte m q hq, pow-mod-byte i (omega arith))
      (elim (Bool-cases (i == r)) [
        | inl at ↦ ground (arith, bit_and-test_bit (byte m.bits q) r (byte-lt m.bits q hb) hr)
        | inr before ↦ ground (
          arith,
          bit_and-test_bit (byte m.bits q) i (byte-lt m.bits q hb) (omega arith),
          used i,
          scan_bits-stop m k q (i + 1) r hq hb clear used hr (ground arith) (ground arith),
        )
      ])

-- The search for one bit: what is left runs from the first clear bit.
pub bitmap_scan-FirstClear :
    (m : Bitmap) (cnt n : ℕ)
    → IsBitmap m
    → FirstClear m n
    → bitmap_scan cnt m ≡ scan_from cnt n m.btmp_bytes_len m
unfolding bitmap_scan
bitmap_scan-FirstClear m cnt n h first = rw (bytes_stop, not_end, not_len, bits_stop, index)
  where
    len : ℕ
    len = m.btmp_bytes_len

    bytes_stop : scan_bytes (len + 1) 0 len m ≡ ok (n / 8) m
    bytes_stop =
        scan_bytes-stop m (len + 1) 0 (n / 8) len
          (λ j hj. byte-full m.bits j n h.bytes first.used (omega arith))
          (λ e. absurd (byte-not_full m.bits n first.clear e))
          (omega (arith, first.within, h.holds)) (omega (arith, first.within))
          (omega (arith, h.small)) (omega arith) (omega (arith, first.within))

    not_end : ltb (n / 8) len ≡ true
    not_end = ground (arith, first.within)

    not_len : (n / 8 == len) ≡ false
    not_len = ground (arith, first.within)

    bits_stop : scan_bits 9 (n / 8) 0 m ≡ ok (n % 8) m
    bits_stop =
        scan_bits-stop m 9 (n / 8) 0 (n % 8) (omega (arith, first.within, h.holds)) h.bytes
          first.clear
          (λ j hj.
            sym (bit-byte m.bits (n / 8) j (omega arith))
            ∙ first.used (n / 8 * 8 + j) (omega arith))
          (omega arith) (omega arith) (omega arith)

    index : (n / 8 * 8 + n % 8) % 2 ^ 32 ≡ n
    index = omega (arith, first.within, h.small)

-- `bitmap_scan` for one bit returns the first clear bit, where there is one, and does not change the
-- bitmap.
pub bitmap_scan-first :
    (m : Bitmap) (n : ℕ) → IsBitmap m → FirstClear m n → bitmap_scan 1 m ≡ ok (pos n) m
bitmap_scan-first m n h first = bitmap_scan-FirstClear m 1 n h first ∙ one
  where
    one : scan_from 1 n m.btmp_bytes_len m ≡ ok (pos n) m
    one =
        unfold scan_from in
        ap (λ z. ok z m) (to_int32-small n (omega (arith, first.within, h.small)))

-- all the bytes of the declared length are full
bytes_full :
    (m : Bitmap)
    → IsBitmap m
    → ((j : ℕ) → j < m.btmp_bytes_len * 8 → bit m.bits j ≡ true)
    → (j : ℕ) → j < m.btmp_bytes_len
    → byte m.bits j ≡ 255
bytes_full m h used j hj = byte-full m.bits j (m.btmp_bytes_len * 8) h.bytes used (omega arith)

-- A full bitmap is not answered by -1: where the array ends with the bitmap, the first loop of
-- `bitmap_scan` reads the byte behind it, whatever number of bits is asked for.
pub bitmap_scan_full :
    (m : Bitmap) (cnt : ℕ)
    → IsBitmap m
    → ((j : ℕ) → j < m.btmp_bytes_len * 8 → bit m.bits j ≡ true)
    → length m.bits ≡ m.btmp_bytes_len
    → bitmap_scan cnt m ≡ fault
unfolding bitmap_scan
bitmap_scan_full m cnt h used e = rw (
    scan_bytes-fault m (m.btmp_bytes_len + 1) 0 m.btmp_bytes_len (bytes_full m h used) e
      (omega (arith, h.small)) (omega arith) (omega arith))

-- Where the array goes on behind the bitmap, the task stops at the assertion in front of the -1.
pub bitmap_scan_full_slack :
    (m : Bitmap) (cnt : ℕ)
    → IsBitmap m
    → ((j : ℕ) → j < m.btmp_bytes_len * 8 → bit m.bits j ≡ true)
    → m.btmp_bytes_len < length m.bits
    → bitmap_scan cnt m ≡ spin m
unfolding bitmap_scan
bitmap_scan_full_slack m cnt h used lt =
    let len = m.btmp_bytes_len in
    let fails : ltb len len ≡ false = ground arith in
    rw (
      scan_bytes-stop m (len + 1) 0 len len (bytes_full m h used) (λ _. refl) lt (omega arith)
          (omega (arith, h.small)) (omega arith) (omega arith),
      fails,
    )
