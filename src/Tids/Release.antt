-- ===== src/Tids/Release.antt =====
-- A tid is given back.
use lutf.Base.{
  sym, refl, ℕ, ◌+◌, ◌*◌, ◌^◌, ◌<◌, ◌≤◌, ◌≡◌, ◌==◌, Bool, true, false, if◌then◌else◌, arith, fault,
  Returns, bind, mono, ap, ◌∙◌, length, Returns-eq, ◌>>=◌, Bool-cases, inl, inr, ==_iff,
}
use lutf.Base.Int.{pos, negsuc, to_int16-small}
use lutf.Bitmap.{bitmap_set}
use lutf.Bitmap.Bits.{bit, IsBitmap}
use lutf.Bitmap.Update.{bitmap_set-bit, bitmap_set_outside}
use lutf.Bitmap.Scan.{FirstClear}
use lutf.Store.{Store, tid_lock}
use lutf.Sync.Acquire.{lock_acquire_free}
use lutf.Tids.{allocate_tid, release_tid, tid_index}
use lutf.Tids.Allocate.{Idle, Marked, unlock-Marked, Marked-trans, Marked-same, allocate_tid-Marked}

-- `release_tid` of a tid that is not negative, and whose bit is in the array, clears that bit and no
-- other; the lock of the tids is free again, SIGALRM is let through, and nothing else changes. The
-- lock is free before, and nobody waits for it.
pub release_tid-Marked :
    (rounds : ℕ) (s : Store) (n : ℕ)
    → Idle s
    → IsBitmap s.tid_bitmap
    → n < length s.tid_bitmap.bits * 8
    → n + s.tid_start < 2 ^ 15
    → Returns
        (λ _. Marked s (λ j. if n == j then false else bit s.tid_bitmap.bits j))
        (release_tid rounds (pos (n + s.tid_start)) s)
unfolding release_tid
release_tid-Marked rounds s n h hb inside small =
    let (_, s₁, eq, set) =
      Returns-eq (lock_acquire_free rounds s tid_lock (omega arith) h.running h.free) in
    let same : s₁.tid_bitmap ≡ s.tid_bitmap = ap (λ (x : Store). x.tid_bitmap) set.0.rest in
    let start : s₁.tid_start ≡ s.tid_start = ap (λ (x : Store). x.tid_start) set.0.rest in
    let (_, b, put, bits) = Returns-eq (bitmap_set-bit s.tid_bitmap n 0 hb inside (omega arith)) in
    let index : tid_index (pos (n + s.tid_start)) s.tid_start ≡ n = omega arith in
    rw (eq, same, start, index, put) (unlock-Marked rounds s s₁ b _ h bits set.0)

-- A tid that is taken and given back leaves the bits of the bitmap as they were, where the first clear
-- bit stands for a tid that fits 15 bits.
pub allocate_tid-release_tid :
    (rounds : ℕ) (s : Store) (n : ℕ)
    → Idle s
    → IsBitmap s.tid_bitmap
    → FirstClear s.tid_bitmap n
    → n + s.tid_start < 2 ^ 15
    → Returns
        (λ _. Marked s (bit s.tid_bitmap.bits))
        ((allocate_tid rounds >>= release_tid rounds) s)
allocate_tid-release_tid rounds s n h hb first small =
    bind (allocate_tid-Marked rounds s n h hb first) λ tid s₁ (e, m).
      let start : s₁.tid_start ≡ s.tid_start = ap (λ (x : Store). x.tid_start) m.rest in
      let name : tid ≡ pos (n + s₁.tid_start) =
        e ∙ to_int16-small (n + s.tid_start) small ∙ ap (λ k. pos (n + k)) (sym start) in
      rw name (
        mono
          (release_tid-Marked rounds s₁ n m.idle m.bits.valid
            (omega (arith, first.within, hb.holds, m.bits.same_size)) (omega (arith, start, small)))
          λ _ s₂ k. Marked-same (λ j. back j (m.bits.bits j)) (Marked-trans m k))
  where
    back :
        {b : Bool} (j : ℕ)
        → b ≡ (if n == j then true else bit s.tid_bitmap.bits j)
        → (if n == j then false else b) ≡ bit s.tid_bitmap.bits j
    back j e = elim (Bool-cases (n == j)) [
      | inl same ↦
          rw (same, sym (ap (bit s.tid_bitmap.bits) ((==_iff n j).0 same)), first.clear) refl
      | inr other ↦ rw (e, other) refl
    ]

-- `release_tid` of a negative tid writes past the array, where the array has at most 2^31 bits and
-- the tids start at one below 2^15: the tids from 2^15 on, which are cut to negative ones, are never
-- given back.
pub release_tid_negative :
    (rounds : ℕ) (s : Store) (k : ℕ)
    → Idle s
    → length s.tid_bitmap.bits * 8 ≤ 2 ^ 31
    → k < 2 ^ 15
    → s.tid_start < 2 ^ 15
    → release_tid rounds (negsuc k) s ≡ fault
unfolding release_tid
release_tid_negative rounds s k h size small early =
    let (_, s₁, eq, set) =
      Returns-eq (lock_acquire_free rounds s tid_lock (omega arith) h.running h.free) in
    let same : s₁.tid_bitmap ≡ s.tid_bitmap = ap (λ (x : Store). x.tid_bitmap) set.0.rest in
    let start : s₁.tid_start ≡ s.tid_start = ap (λ (x : Store). x.tid_start) set.0.rest in
    let far : bitmap_set (tid_index (negsuc k) s.tid_start) 0 s.tid_bitmap ≡ fault =
      bitmap_set_outside s.tid_bitmap _ 0 (omega arith) (omega arith) in
    rw (eq, same, start, far) refl
