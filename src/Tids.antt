-- ===== src/Tids.antt =====
-- The tids of src/task/task.c: a bitmap says which are in use, under the lock `tid_lock`.
pub mod Allocate
pub mod Release
mod Tests
use lutf.Base.{ℕ, ◌+◌, ◌-◌, ◌%◌, ◌^◌, Cmd, Unit₀, ok, pure, ◌>>=◌, ◌>>◌, List, []}
use lutf.Base.Int.{ℤ, to_int16, to_uint32}
use lutf.Bitmap.{Bitmap, bitmap_init, bitmap_scan, bitmap_set}
use lutf.Store.{Store, tid_lock}
use lutf.Store.Access.{on_bitmap}
use lutf.Sync.{lock_init, lock_acquire, lock_release}

-- the number of bytes of `tid_bitmap_bits`
abbrev pub tid_bytes : ℕ
tid_bytes = 125100

abbrev get_start : Cmd Store ℕ
get_start s = ok s.tid_start s

-- `tid_bitmap_bits` is the array that the bitmap is laid over.
unfoldable pub tid_pool_init : (tid_bitmap_bits : List ℕ) → Cmd Store Unit₀
tid_pool_init tid_bitmap_bits = do
  (λ s. ok tt (record s {
    tid_start = 1;
    tid_bitmap = record { btmp_bytes_len = tid_bytes; bits = tid_bitmap_bits };
  }))
  on_bitmap bitmap_init
  lock_init tid_lock

-- A `tid_t` has 16 bits.
unfoldable pub allocate_tid : ℕ → Cmd Store ℤ
allocate_tid rounds = do
  lock_acquire rounds tid_lock
  bit_idx ← on_bitmap (bitmap_scan 1)
  on_bitmap (bitmap_set (to_uint32 bit_idx) 1)
  lock_release rounds tid_lock
  start ← get_start
  pure (to_int16 (to_uint32 bit_idx + start))

-- the bit of a tid: the difference of two words
abbrev pub tid_index : ℤ → ℕ → ℕ
tid_index tid start = (to_uint32 tid + (2 ^ 32 - start % 2 ^ 32)) % 2 ^ 32

unfoldable pub release_tid : ℕ → ℤ → Cmd Store Unit₀
release_tid rounds tid = do
  lock_acquire rounds tid_lock
  start ← get_start
  on_bitmap (bitmap_set (tid_index tid start) 0)
  lock_release rounds tid_lock
