-- ===== src/Bitmap/FirstFit.antt =====
-- bitmap_scan as its callers see it.
use ukernel.Prelude.{
  ℕ, ◌+◌, ◌-◌, ◌≤◌, ◌<◌, ◌≡◌, ◌≢◌, ◌↔◌, inl, inr, true, Option, none, some, arith, ltb, lt→ltb,
  ◌==◌, ne→==, if◌then◌else◌, Bool-cases, ret, panic,
}
use ukernel.Bitmap.{Bitmap, bit_cnt, bitmap_scan_test, search_run, clear_bit_from, bitmap_scan}
use ukernel.Bitmap.Set.{IsBytes}
use ukernel.Bitmap.First.{
  first_byte, first_byte-le, set_before_byte, start-lt, start_clear, set_before,
}
use ukernel.Bitmap.Scan.{AllClear, not-AllClear, Counted, search_run-Found, search_run-none}

-- what the scan returns past its ASSERT
abbrev answer : Bitmap → ℕ → Option ℕ
answer b cnt =
    let start = clear_bit_from b (first_byte b) in
    if cnt == 1 then some start else search_run (bit_cnt b - start) b cnt (start + 1) 1

bitmap_scan-ret :
    (b : Bitmap) (cnt : ℕ)
    → first_byte b < b.btmp_bytes_len
    → bitmap_scan b cnt ≡ ret (answer b cnt)
unfolding bitmap_scan
bitmap_scan-ret b cnt room =
    rw (lt→ltb _ _ room, ne→== (first_byte b) b.btmp_bytes_len (omega arith))

bitmap_scan_full :
    (b : Bitmap) (cnt : ℕ) → first_byte b ≡ b.btmp_bytes_len → bitmap_scan b cnt ≡ panic
unfolding bitmap_scan
bitmap_scan_full b cnt e = ground arith

-- bitmap_scan stops the machine exactly if every bit that the bitmap owns is set. (It never returns
-- -1 for a full bitmap: the ASSERT before that test fails first.)
pub bitmap_scan-panic_iff :
    (b : Bitmap) (cnt : ℕ)
    → IsBytes b
    → (bitmap_scan b cnt ≡ panic) ↔ ((j : ℕ) → j < bit_cnt b → bitmap_scan_test b j ≡ true)
bitmap_scan-panic_iff b cnt bytes = (to, from)
  where
    to : bitmap_scan b cnt ≡ panic → (j : ℕ) → j < bit_cnt b → bitmap_scan_test b j ≡ true
    to e j h = elim (Bool-cases (ltb (first_byte b) b.btmp_bytes_len)) [
      | inl room ↦ absurd (ground (arith, bitmap_scan-ret b cnt))
      | inr full ↦ set_before_byte b j (ground (arith, first_byte-le b))
    ]

    from : ((j : ℕ) → j < bit_cnt b → bitmap_scan_test b j ≡ true) → bitmap_scan b cnt ≡ panic
    from all = elim (Bool-cases (ltb (first_byte b) b.btmp_bytes_len)) [
      | inl room ↦
          let h : first_byte b < b.btmp_bytes_len = ground arith in
          absurd (
            ground (
              arith,
              all (clear_bit_from b (first_byte b)) (start-lt b bytes h),
              start_clear b bytes h,
            ))
      | inr full ↦ bitmap_scan_full b cnt (ground (arith, first_byte-le b))
    ]

module _ (b : Bitmap) (cnt : ℕ) (bytes : IsBytes b) (pos : 0 < cnt) where
  abbrev start : ℕ
  start = clear_bit_from b (first_byte b)

  room_of_ret : {r : Option ℕ} → bitmap_scan b cnt ≡ ret r → first_byte b < b.btmp_bytes_len
  room_of_ret e = ground (arith, first_byte-le b, bitmap_scan_full b cnt)

  answer_of_ret : {r : Option ℕ} → bitmap_scan b cnt ≡ ret r → answer b cnt ≡ r
  answer_of_ret e = ground (arith, bitmap_scan-ret b cnt (room_of_ret e))

  Counted-start : first_byte b < b.btmp_bytes_len → cnt ≢ 1 → Counted b cnt (start + 1) 1
  Counted-start room ne = record {
    below = omega arith;
    behind = omega arith;
    run = λ j h k. let e : j ≡ start = omega arith in rw e (start_clear b bytes room);
  }

  blocked_below : first_byte b < b.btmp_bytes_len → (t : ℕ) → t < start → ¬ AllClear b t cnt
  blocked_below room t h =
      not-AllClear b t cnt t (omega arith) (omega arith) (set_before b bytes room t h)

  -- A scan for `cnt` bits that returns `s`: the bits s, …, s + cnt - 1 are clear, no run of `cnt`
  -- clear bits begins below `s`, and the run ends at most one bit past the bitmap's last; a scan
  -- for a single bit returns a bit of the bitmap.
  pub bitmap_scan-some :
      (s : ℕ)
      → bitmap_scan b cnt ≡ ret (some s)
      → AllClear b s cnt
        × ((t : ℕ) → t < s → ¬ AllClear b t cnt)
        × (s + cnt ≤ bit_cnt b + 1)
        × (cnt ≡ 1 → s < bit_cnt b)
  bitmap_scan-some s e = elim (Bool-cases (cnt == 1)) [
    | inl one ↦
        let at : s ≡ start = ground (arith, answer_of_ret e) in
        let size : cnt ≡ 1 = ground arith in
        let low = start-lt b bytes (room_of_ret e) in
        (
          rw (at, size)
              (λ j h k.
                let q : j ≡ start = omega arith in rw q (start_clear b bytes (room_of_ret e))),
          λ t h. blocked_below (room_of_ret e) t (omega arith),
          omega arith,
          λ _. omega arith,
        )
    | inr more ↦
        let room = room_of_ret e in
        let ne : cnt ≢ 1 = ground arith in
        let low = start-lt b bytes room in
        let found : search_run (bit_cnt b - start) b cnt (start + 1) 1 ≡ some s =
          ground (arith, answer_of_ret e) in
        let f =
          search_run-Found b cnt (bit_cnt b - start) (start + 1) 1 s (Counted-start room ne)
            found in
        (
          f.clear,
          λ t h. elim (Bool-cases (ltb t start)) [
            | inl l ↦ blocked_below room t (ground arith)
            | inr g ↦ f.lowest t (ground arith) h
          ],
          omega (arith, f.inside),
          λ h. absurd (ne h),
        )
  ]

  -- A scan that returns -1: no run of `cnt` clear bits stands in the bitmap, nor in it and the one
  -- bit after it.
  pub bitmap_scan-none :
      bitmap_scan b cnt ≡ ret none → (t : ℕ) → t + cnt ≤ bit_cnt b + 1 → ¬ AllClear b t cnt
  bitmap_scan-none e t h = elim (Bool-cases (cnt == 1)) [
    | inl one ↦ absurd (ground (arith, answer_of_ret e))
    | inr more ↦
        let room = room_of_ret e in
        let low = start-lt b bytes room in
        elim (Bool-cases (ltb t start)) [
          | inl l ↦ blocked_below room t (ground arith)
          | inr g ↦
              search_run-none b cnt (bit_cnt b - start) (start + 1) 1
                (Counted-start room (ground arith)) (ground (arith, answer_of_ret e)) t
                (ground arith) (omega arith)
        ]
  ]

-- A scan for a single bit does not return -1.
pub bitmap_scan-one : (b : Bitmap) → IsBytes b → ¬ (bitmap_scan b 1 ≡ ret none)
bitmap_scan-one b bytes e = ground (arith, answer_of_ret b 1 bytes (omega arith) e)

-- If no clear run of one bit begins below `s`, the bits below `s` are set.
pub set_below :
    (b : Bitmap) (s : ℕ)
    → ((t : ℕ) → t < s → ¬ AllClear b t 1)
    → (t : ℕ) → t < s
    → bitmap_scan_test b t ≡ true
set_below b s low t h = elim (Bool-cases (bitmap_scan_test b t)) [
  | inl e ↦ e
  | inr e ↦ absurd (low t h (λ j p q. let at : j ≡ t = omega arith in rw at e))
]
