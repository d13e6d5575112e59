-- ===== src/Bitmap/Overrun.antt =====
-- bitmap_scan's last loop tests one bit too many: from the bit after bit_idx_start it makes
-- btmp_bytes_len * 8 - bit_idx_start rounds, and so reads bit btmp_bytes_len * 8.
use ukernel.Prelude.{
  ℕ, ◌+◌, ◌-◌, ◌≤◌, ◌<◌, ◌≡◌, refl, inl, inr, true, Option, none, some, arith, ltb, ◌==◌,
  Bool-cases, Outcome, ret, panic,
}
use ukernel.Bitmap.{Bitmap, bit_cnt, bitmap_scan_test, bitmap_scan}
use ukernel.Bitmap.Set.{IsBytes}
use ukernel.Bitmap.Scan.{AllClear, not-AllClear}
use ukernel.Bitmap.FirstFit.{bitmap_scan-panic_iff, bitmap_scan-some, bitmap_scan-none}

-- All bits of the bitmap are set but the last `free`; so is not the bit after the bitmap.
pub record EndsFree (b : Bitmap) (free : ℕ) : Type 0 where
  pub some_free : 0 < free
  pub fits : free ≤ bit_cnt b
  pub taken : (j : ℕ) → j < bit_cnt b - free → bitmap_scan_test b j ≡ true
  pub clear : AllClear b (bit_cnt b - free) (free + 1)

module _ (b : Bitmap) (free : ℕ) (bytes : IsBytes b) (ends : EndsFree b free) where
  only_run : (s : ℕ) → bitmap_scan b (free + 1) ≡ ret (some s) → s ≡ bit_cnt b - free
  only_run s e =
      let (clear, lowest, inside, one) = bitmap_scan-some b (free + 1) bytes (omega arith) s e in
      elim (Bool-cases (ltb s (bit_cnt b - free))) [
        | inl low ↦ absurd (
            not-AllClear b s (free + 1) s (omega arith) (omega arith) (ends.taken s (ground arith))
              clear)
        | inr high ↦ elim (Bool-cases (s == bit_cnt b - free)) [
          | inl at ↦ ground arith
          | inr above ↦ absurd (lowest (bit_cnt b - free) (ground arith) ends.clear)
        ]
      ]

  -- In a bitmap whose last `free` bits are clear and whose other bits are all set, with the bit of
  -- memory after it clear, a scan for one bit more than `free` hands out a run from the first clear
  -- bit on, whose last bit is not a bit of the bitmap.
  pub bitmap_scan_overrun : bitmap_scan b (free + 1) ≡ ret (some (bit_cnt b - free))
  bitmap_scan_overrun = from (bitmap_scan b (free + 1)) refl
    where
      from :
          (o : Outcome (Option ℕ))
          → bitmap_scan b (free + 1) ≡ o
          → bitmap_scan b (free + 1) ≡ ret (some (bit_cnt b - free))
      from panic e = absurd (
          ground (
            arith,
            (bitmap_scan-panic_iff b (free + 1) bytes).0 e (bit_cnt b - free)
                (omega (arith, ends.some_free, ends.fits)),
            ends.clear (bit_cnt b - free) (omega arith) (omega arith),
          ))
      from (ret none) e = absurd (
          bitmap_scan-none b (free + 1) bytes (omega arith) e (bit_cnt b - free)
            (omega (arith, ends.fits)) ends.clear)
      from (ret (some s)) e = rw (← only_run s e) e
