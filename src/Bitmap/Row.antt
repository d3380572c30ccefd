-- ===== src/Bitmap/Row.antt =====
-- The third loop of `bitmap_scan`: the search for several free bits in a row.
use lutf.Base.{
  ℕ, zero, suc, ◌+◌, ◌-◌, ◌*◌, ◌%◌, ◌^◌, ◌≤◌, ◌<◌, ◌≡◌, refl, true, false, arith, length, ◌==◌,
  Returns, returns, Bool-cases, inl, inr,
}
use lutf.Base.Int.{ℤ, pos, negsuc, to_int32}
use lutf.Bitmap.{Bitmap, scan_from, scan_run, bitmap_scan}
use lutf.Bitmap.Bits.{bit, IsBytes, IsBitmap, bitmap_scan_test-bit}
use lutf.Bitmap.Scan.{FirstClear, bitmap_scan-FirstClear}

-- a used bit among the `cnt` bits from `s` on
abbrev pub Taken : Bitmap → ℕ → ℕ → Type 0
Taken m cnt s = (j : ℕ) × (s ≤ j) × (j < s + cnt) × (bit m.bits j ≡ true)

-- What an answer means where the bits below `limit` are searched: the first row of `cnt` clear bits,
-- or -1, which is `negsuc 0`, and that there is none.
abbrev pub FirstRow : Bitmap → (cnt limit : ℕ) → ℤ → Type 0
FirstRow m cnt limit (pos s) =
    (s + cnt ≤ limit)
    × ((j : ℕ) → s ≤ j → j < s + cnt → bit m.bits j ≡ false)
    × ((t : ℕ) → t < s → Taken m cnt t)
FirstRow m cnt limit (negsuc k) = (k ≡ 0) × ((s : ℕ) → s + cnt ≤ limit → Taken m cnt s)

-- Before the round at `next`: the `count` bits in front of it are clear, the one in front of those
-- is used, and every row that ends in front of it is taken.
record Searched (m : Bitmap) (cnt next count : ℕ) : Type 0 where
  short : count < cnt
  within : count ≤ next
  clear : (j : ℕ) → next ≤ j + count → j < next → bit m.bits j ≡ false
  edge : (p : ℕ) → suc p + count ≡ next → bit m.bits p ≡ true
  taken : (s : ℕ) → s + cnt ≤ next → Taken m cnt s

Searched-used :
    (m : Bitmap) (cnt next count : ℕ)
    → Searched m cnt next count
    → bit m.bits next ≡ true
    → Searched m cnt (next + 1) 0
Searched-used m cnt next count h used = record {
  short = omega (arith, h.short);
  within = omega arith;
  clear = λ j a b. absurd (omega arith);
  edge = λ p e. let q : p ≡ next = omega arith in rw q used;
  taken = λ s hs. elim (Bool-cases (s + cnt == next + 1)) [
    | inl at ↦ (next, ground (arith, h.short), ground arith, used)
    | inr before ↦ h.taken s (ground arith)
  ];
}

Searched-clear :
    (m : Bitmap) (cnt next count : ℕ)
    → Searched m cnt next count
    → bit m.bits next ≡ false
    → count + 1 < cnt
    → Searched m cnt (next + 1) (count + 1)
Searched-clear m cnt next count h clear lt = record {
  short = lt;
  within = omega (arith, h.within);
  clear = λ j a b. elim (Bool-cases (j == next)) [
    | inl at ↦ let q : j ≡ next = ground arith in rw q clear
    | inr before ↦ h.clear j (omega arith) (ground arith)
  ];
  edge = λ p e. h.edge p (omega arith);
  taken = λ s hs. elim (Bool-cases (s + cnt == next + 1)) [
    | inl at ↦
        let last = next - count - 1 in
        (
          last,
          ground (arith, h.within),
          ground (arith, h.within),
          h.edge last (ground (arith, h.within)),
        )
    | inr before ↦ h.taken s (ground arith)
  ];
}

-- The row is complete with the bit at `next`.
row_found :
    (m : Bitmap) (cnt next count limit : ℕ)
    → Searched m cnt next count
    → bit m.bits next ≡ false
    → count + 1 ≡ cnt
    → next < limit
    → FirstRow m cnt limit (pos (next + 1 - cnt))
row_found m cnt next count limit h clear done lt = (
  omega (arith, h.within),
  λ j a b. elim (Bool-cases (j == next)) [
    | inl at ↦ let q : j ≡ next = ground arith in rw q clear
    | inr before ↦ h.clear j (omega arith) (ground (arith, h.within))
  ],
  λ t ht. h.taken t (omega arith),
)

scan_run-FirstRow :
    (m : Bitmap) (k next count cnt limit : ℕ)
    → IsBytes m.bits
    → next + k ≡ limit
    → limit ≤ length m.bits * 8
    → limit < 2 ^ 31
    → Searched m cnt next count
    → Returns (λ r m'. (m' ≡ m) × FirstRow m cnt limit r) (scan_run k next count cnt m)
unfolding scan_run
scan_run-FirstRow m zero next count cnt limit hb e room small h =
    returns (refl, (refl, λ s hs. h.taken s (omega arith)))
scan_run-FirstRow m (suc k) next count cnt limit hb e room small h =
    let test = bitmap_scan_test-bit m next hb (omega arith) in
    let step : (next + 1) % 2 ^ 32 ≡ next + 1 = omega arith in
    let wrap : (count + 1) % 2 ^ 32 ≡ count + 1 = omega (arith, h.within) in
    elim (Bool-cases (bit m.bits next)) [
      | inl used ↦
          let no : (0 == cnt) ≡ false = ground (arith, h.short) in
          rw (test, used, no, step)
            (scan_run-FirstRow m k (next + 1) 0 cnt limit hb (omega arith) room small
              (Searched-used m cnt next count h used))
      | inr clear ↦ elim (Bool-cases (count + 1 == cnt)) [
        | inl done ↦
            let at : next + 2 ^ 32 - cnt + 1 ≡ 2 ^ 32 + (next + 1 - cnt) =
              ground (arith, h.within) in
            let value : to_int32 (2 ^ 32 + (next + 1 - cnt)) ≡ pos (next + 1 - cnt) =
              ground arith in
            rw (test, clear, wrap, done)
              (returns (
                refl,
                rw (at, value)
                    (row_found m cnt next count limit h clear (ground arith) (omega arith)),
              ))
        | inr more ↦
            rw (test, clear, wrap, more, step)
              (scan_run-FirstRow m k (next + 1) (count + 1) cnt limit hb (omega arith) room small
                (Searched-clear m cnt next count h clear (ground (arith, h.short))))
      ]
    ]

-- `bitmap_scan` for two bits or more, in a bitmap with a clear bit, returns the first row of that
-- many clear bits, or -1 if there is none, among the bits of the bitmap and the one behind them: the
-- loop looks one bit too far. The array has a byte behind the declared length, and nothing changes.
pub bitmap_scan-FirstRow :
    (m : Bitmap) (cnt n : ℕ)
    → IsBitmap m
    → m.btmp_bytes_len < length m.bits
    → FirstClear m n
    → 2 ≤ cnt
    → Returns (λ r m'. (m' ≡ m) × FirstRow m cnt (m.btmp_bytes_len * 8 + 1) r) (bitmap_scan cnt m)
bitmap_scan-FirstRow m cnt n h slack first many = rw (bitmap_scan-FirstClear m cnt n h first) (rest)
  where
    len : ℕ
    len = m.btmp_bytes_len

    not_one : (cnt == 1) ≡ false
    not_one = ground arith

    rounds : (len * 8 + 2 ^ 32 - n) % 2 ^ 32 ≡ len * 8 - n
    rounds = omega (arith, first.within, h.small)

    second : (n + 1) % 2 ^ 32 ≡ n + 1
    second = omega (arith, first.within, h.small)

    start : Searched m cnt (n + 1) 1
    start = record {
      short = omega arith;
      within = omega arith;
      clear = λ j a b. let q : j ≡ n = omega arith in rw q first.clear;
      edge = λ p e. first.used p (omega arith);
      taken = λ s hs. (s, omega arith, omega arith, first.used s (omega arith));
    }

    rest : Returns (λ r m'. (m' ≡ m) × FirstRow m cnt (len * 8 + 1) r) (scan_from cnt n len m)
    rest =
        unfold scan_from in
        rw (not_one, rounds, second)
          (scan_run-FirstRow m (len * 8 - n) (n + 1) 1 cnt (len * 8 + 1) h.bytes
            (omega (arith, first.within)) (omega arith) (omega (arith, h.small)) start)
