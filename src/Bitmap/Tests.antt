-- ===== src/Bitmap/Tests.antt =====
-- Runs of the bitmap on small arrays.
use lutf.Base.{ℕ, ◌≡◌, refl, true, List, [], ◌∷◌, ok, fault, spin, Returns, arith}
use lutf.Base.Bytes.{test_bit, holds_below, holds_below_at}
use lutf.Bitmap.Bits.{bit, IsBitmap}
use lutf.Bitmap.Scan.{FirstClear, bitmap_scan_full}
use lutf.Bitmap.Row.{FirstRow, bitmap_scan-FirstRow}
use lutf.Base.Int.{pos}
use lutf.Bitmap.{
  Bitmap, read_byte, write_byte, bitmap_scan_test, scan_bytes, scan_bits, scan_run, scan_from,
  bitmap_scan, bitmap_set,
}

abbrev small : List ℕ → Bitmap
small bs = record { btmp_bytes_len = 2; bits = bs }

scan_second : bitmap_scan 1 (small (255 ∷ 7 ∷ [])) ≡ ok (pos 11) (small (255 ∷ 7 ∷ []))
unfolding bitmap_scan scan_bytes scan_bits scan_from read_byte
scan_second = refl

scan_full : bitmap_scan 1 (small (255 ∷ 255 ∷ [])) ≡ fault
unfolding bitmap_scan scan_bytes read_byte
scan_full = refl

scan_full_slack : bitmap_scan 1 (small (255 ∷ 255 ∷ 0 ∷ [])) ≡ spin (small (255 ∷ 255 ∷ 0 ∷ []))
unfolding bitmap_scan scan_bytes read_byte
scan_full_slack = refl

scan_three :
    bitmap_scan 3 (small (0b1110_1111 ∷ 7 ∷ [])) ≡ ok (pos 11) (small (0b1110_1111 ∷ 7 ∷ []))
unfolding bitmap_scan scan_bytes scan_bits scan_from scan_run bitmap_scan_test read_byte
scan_three = refl

set_then_clear : bitmap_set 9 1 (small (0 ∷ 0 ∷ [])) ≡ ok tt (small (0 ∷ 2 ∷ []))
unfolding bitmap_set read_byte write_byte
set_then_clear = refl

abbrev example : Bitmap
example = record { btmp_bytes_len = 2; bits = 255 ∷ 7 ∷ 0 ∷ [] }

example-IsBitmap : IsBitmap example
example-IsBitmap = omega arith

abbrev full : Bitmap
full = record { btmp_bytes_len = 1; bits = 255 ∷ [] }

full-IsBitmap : IsBitmap full
full-IsBitmap = omega arith

used_row : holds_below 11 (bit example.bits) ≡ true
unfolding holds_below test_bit
used_row = refl

full_row : holds_below 8 (bit full.bits) ≡ true
unfolding holds_below test_bit
full_row = refl

first_clear : FirstClear example 11
unfolding test_bit
first_clear = record {
  clear = refl;
  used = λ j h. holds_below_at 11 (bit example.bits) j used_row h;
  within = omega arith;
}

bitmap_scan-FirstRow_example :
    Returns (λ r m'. (m' ≡ example) × FirstRow example 3 17 r) (bitmap_scan 3 example)
bitmap_scan-FirstRow_example =
    bitmap_scan-FirstRow example 3 11 example-IsBitmap (omega arith) first_clear (omega arith)

bitmap_scan_full_example : bitmap_scan 1 full ≡ fault
bitmap_scan_full_example =
    bitmap_scan_full full 1 full-IsBitmap (λ j h. holds_below_at 8 (bit full.bits) j full_row h)
      refl
