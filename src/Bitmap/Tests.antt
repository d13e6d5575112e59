-- ===== src/Bitmap/Tests.antt =====
-- Bitmaps of two bytes, and the theorems at them.
use ukernel.Prelude.{
  ℕ, ◌+◌, ◌≤◌, ◌<◌, ◌≡◌, ◌↔◌, refl, true, none, some, arith, ◌==◌, if◌then◌else◌, ret, panic,
  all_below, all_below_sound, ltb, same, same→eq,
}
use ukernel.Bitmap.{
  Bitmap, bitmap_scan_test, bitmap_scan, clear_bit_from, skip_full_bytes, first_clear_bit,
  search_run, byte_test,
}
use ukernel.Bitmap.Set.{IsBytes}
use ukernel.Bitmap.Scan.{AllClear}
use ukernel.Bitmap.FirstFit.{bitmap_scan-panic_iff, bitmap_scan-some}
use ukernel.Bitmap.Overrun.{EndsFree, bitmap_scan_overrun}

-- Two bytes: 0xff and `last`, and beyond them `after`.
abbrev two_bytes : ℕ → ℕ → Bitmap
two_bytes last after = record {
  btmp_bytes_len = 2;
  bits = λ i. if i == 0 then 0xff else if i == 1 then last else after;
}

-- Bits 9 and 11 to 15 are clear.
abbrev sample : Bitmap
sample = two_bytes 5 0xff

sample-IsBytes : IsBytes sample
sample-IsBytes i = ground arith

scan_runs :
    (bitmap_scan sample 1 ≡ ret (some 9))
    × (bitmap_scan sample 5 ≡ ret (some 11))
    × (bitmap_scan sample 6 ≡ ret none)
    × (bitmap_scan (two_bytes 0xff 0) 1 ≡ panic)
unfolding bitmap_scan clear_bit_from skip_full_bytes first_clear_bit search_run bitmap_scan_test
    byte_test
scan_runs = (refl, refl, refl, refl)

full-IsBytes : IsBytes (two_bytes 0xff 0)
full-IsBytes i = ground arith

bitmap_scan-panic_iff_example :
    (bitmap_scan (two_bytes 0xff 0) 3 ≡ panic)
    ↔ ((j : ℕ) → j < 16 → bitmap_scan_test (two_bytes 0xff 0) j ≡ true)
bitmap_scan-panic_iff_example = bitmap_scan-panic_iff (two_bytes 0xff 0) 3 full-IsBytes

bitmap_scan-some_example :
    AllClear sample 11 5
    × ((t : ℕ) → t < 11 → ¬ AllClear sample t 5)
    × (11 + 5 ≤ 17)
    × (◌≡◌ {A = ℕ} 5 1 → 11 < 16)
bitmap_scan-some_example = bitmap_scan-some sample 5 sample-IsBytes (omega arith) 11 (scan_runs.1)

-- The last five bits are clear, and so is the memory behind the bitmap.
abbrev open_end : Bitmap
open_end = two_bytes 7 0

open_end-IsBytes : IsBytes open_end
open_end-IsBytes i = ground arith

open_end_table : all_below 17 (λ j. same (bitmap_scan_test open_end j) (ltb j 11)) ≡ true
unfolding all_below bitmap_scan_test byte_test
open_end_table = refl

open_end-test : (j : ℕ) → j < 17 → bitmap_scan_test open_end j ≡ ltb j 11
open_end-test j h = same→eq _ _ (all_below_sound 17 _ j open_end_table h)

open_end-EndsFree : EndsFree open_end 5
open_end-EndsFree = record {
  some_free = omega arith;
  fits = omega arith;
  taken = λ j h. ground (arith, open_end-test j);
  clear = λ j h k. ground (arith, open_end-test j);
}

bitmap_scan_overrun_example : bitmap_scan open_end 6 ≡ ret (some 11)
bitmap_scan_overrun_example = bitmap_scan_overrun open_end 5 open_end-IsBytes open_end-EndsFree
