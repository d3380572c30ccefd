-- ===== src/Tids/Tests.antt =====
-- The theorems about tids at a small store.
use lutf.Base.{refl, ◌≡◌, true, arith, fault, Returns, ◌>>=◌}
use lutf.Base.Int.{negsuc}
use lutf.Base.Bytes.{test_bit, holds_below, holds_below_at}
use lutf.Bitmap.Bits.{bit, IsBitmap}
use lutf.Bitmap.Scan.{FirstClear}
use lutf.Samples.{quiet_links, a_store, quiet_waiting}
use lutf.Store.{Store}
use lutf.Sync.Acquire.{free_lock}
use lutf.Tids.{allocate_tid, release_tid}
use lutf.Tids.Allocate.{Idle, Marked}
use lutf.Tids.Release.{allocate_tid-release_tid, release_tid_negative}

abbrev quiet : Store
quiet = a_store quiet_links free_lock

quiet-Idle : Idle quiet
quiet-Idle = record { free = refl; nobody = quiet_waiting; running = omega arith }

tids-IsBitmap : IsBitmap quiet.tid_bitmap
tids-IsBitmap = omega arith

low_row : holds_below 4 (bit quiet.tid_bitmap.bits) ≡ true
unfolding holds_below test_bit
low_row = refl

tids-FirstClear : FirstClear quiet.tid_bitmap 4
unfolding test_bit
tids-FirstClear = record {
  clear = refl;
  used = λ j h. holds_below_at 4 (bit quiet.tid_bitmap.bits) j low_row h;
  within = omega arith;
}

allocate_tid-release_tid_example :
    Returns
      (λ _. Marked quiet (bit quiet.tid_bitmap.bits))
      ((allocate_tid 5 >>= release_tid 5) quiet)
allocate_tid-release_tid_example =
    allocate_tid-release_tid 5 quiet 4 quiet-Idle tids-IsBitmap tids-FirstClear (omega arith)

release_tid_negative_example : release_tid 5 (negsuc 0) quiet ≡ fault
release_tid_negative_example =
    release_tid_negative 5 quiet 0 quiet-Idle (omega arith) (omega arith) (omega arith)
