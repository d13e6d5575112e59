-- ===== src/Bitmap/Scan.antt =====
-- The last loop of bitmap_scan: which run of clear bits it returns, and when it returns none.
use ukernel.Prelude.{
  ℕ, zero, suc, ◌+◌, ◌-◌, ◌≤◌, ◌<◌, ◌≡◌, ◌≢◌, inl, inr, true, false, none, some, arith, ltb, ◌==◌,
  Bool-cases,
}
use ukernel.Bitmap.{Bitmap, bitmap_scan_test, search_run}

-- The bits s, …, s + cnt - 1 are clear.
abbrev pub AllClear : Bitmap → ℕ → ℕ → Type 0
AllClear b s cnt = (j : ℕ) → s ≤ j → j < s + cnt → bitmap_scan_test b j ≡ false

-- A run over a set bit is not clear.
pub not-AllClear :
    (b : Bitmap) (s cnt j : ℕ)
    → s ≤ j
    → j < s + cnt
    → bitmap_scan_test b j ≡ true
    → ¬ AllClear b s cnt
not-AllClear b s cnt j h k e all = ground (arith, all j)

-- The loop's state: the last `count` bits before `next_bit` are clear, fewer than are wanted.
pub record Counted (b : Bitmap) (cnt next_bit count : ℕ) : Type 0 where
  pub below : count < cnt
  pub behind : count ≤ next_bit
  pub run : AllClear b (next_bit - count) count

module _ (b : Bitmap) (cnt : ℕ) where
  Counted-clear :
      (next_bit count : ℕ)
      → Counted b cnt next_bit count
      → bitmap_scan_test b next_bit ≡ false
      → AllClear b (next_bit - count) (count + 1)
  Counted-clear next_bit count c e j h k = elim (Bool-cases (j == next_bit)) [
    | inl q ↦ ground arith
    | inr n ↦ c.run j h (ground (arith, c.behind))
  ]

  Counted-step :
      (next_bit count : ℕ)
      → Counted b cnt next_bit count
      → bitmap_scan_test b next_bit ≡ false
      → count + 1 ≢ cnt
      → Counted b cnt (next_bit + 1) (count + 1)
  Counted-step next_bit count c e ne = record {
    below = omega (arith, c.below);
    behind = omega (arith, c.behind);
    run = λ j h k. Counted-clear next_bit count c e j (omega arith) (omega (arith, c.behind));
  }

  Counted-zero : (next_bit : ℕ) → 0 < cnt → Counted b cnt next_bit 0
  Counted-zero next_bit h = record {
    below = h;
    behind = omega arith;
    run = λ j h k. absurd (omega arith);
  }

  -- What the loop returns: the lowest run, from where counting began, of `cnt` clear bits.
  pub record Found (from end s : ℕ) : Type 0 where
    pub clear : AllClear b s cnt
    pub inside : s + cnt ≤ end
    pub lowest : (t : ℕ) → from ≤ t → t < s → ¬ AllClear b t cnt

  -- A run that begins at or before a set bit, too late to end before it, is not clear.
  lowest-step :
      (next_bit count s : ℕ)
      → Counted b cnt next_bit count
      → bitmap_scan_test b next_bit ≡ true
      → ((t : ℕ) → next_bit + 1 ≤ t → t < s → ¬ AllClear b t cnt)
      → (t : ℕ) → next_bit - count ≤ t
      → t < s
      → ¬ AllClear b t cnt
  lowest-step next_bit count s c e later t h k = elim (Bool-cases (ltb next_bit t)) [
    | inl q ↦ later t (ground arith) k
    | inr q ↦ not-AllClear b t cnt next_bit (ground arith) (omega (arith, c.below, c.behind)) e
  ]

  pub search_run-Found :
      (left next_bit count s : ℕ)
      → Counted b cnt next_bit count
      → search_run left b cnt next_bit count ≡ some s
      → Found (next_bit - count) (next_bit + left) s
  unfolding search_run
  search_run-Found zero next_bit count s c e = absurd (ground arith)
  search_run-Found (suc left) next_bit count s c e =
      elim (Bool-cases (bitmap_scan_test b next_bit)) [
        | inl taken ↦
            let pos : 0 < cnt = omega (arith, c.below) in
            let rest : search_run left b cnt (next_bit + 1) 0 ≡ some s = ground arith in
            let f =
              search_run-Found left (next_bit + 1) 0 s (Counted-zero (next_bit + 1) pos) rest in
            record {
              clear = f.clear;
              inside = omega (arith, f.inside);
              lowest = lowest-step next_bit count s c taken λ t h k. f.lowest t (omega arith) k;
            }
        | inr free ↦ elim (Bool-cases (count + 1 == cnt)) [
          | inl done ↦
              let at : s ≡ next_bit - count = ground (arith, c.behind) in
              let size : cnt ≡ count + 1 = ground arith in
              record {
                clear = rw (at, size) (Counted-clear next_bit count c free);
                inside = omega (arith, c.behind);
                lowest = λ t h k. absurd (omega arith);
              }
          | inr more ↦
              let rest : search_run left b cnt (next_bit + 1) (count + 1) ≡ some s = ground arith in
              let f =
                search_run-Found left (next_bit + 1) (count + 1) s
                  (Counted-step next_bit count c free (ground arith)) rest in
              record {
                clear = f.clear;
                inside = omega (arith, f.inside);
                lowest = λ t h k. f.lowest t (omega (arith, c.behind)) k;
              }
        ]
      ]

  pub search_run-none :
      (left next_bit count : ℕ)
      → Counted b cnt next_bit count
      → search_run left b cnt next_bit count ≡ none
      → (t : ℕ) → next_bit - count ≤ t
      → t + cnt ≤ next_bit + left
      → ¬ AllClear b t cnt
  unfolding search_run
  search_run-none zero next_bit count c e t h k = absurd (omega (arith, c.below, c.behind))
  search_run-none (suc left) next_bit count c e t h k =
      elim (Bool-cases (bitmap_scan_test b next_bit)) [
        | inl taken ↦
            let pos : 0 < cnt = omega (arith, c.below) in
            let rest : search_run left b cnt (next_bit + 1) 0 ≡ none = ground arith in
            lowest-step next_bit count (t + 1) c taken
              (λ u p q.
                search_run-none left (next_bit + 1) 0 (Counted-zero (next_bit + 1) pos) rest u
                  (omega arith) (omega arith))
              t h (omega arith)
        | inr free ↦
            search_run-none left (next_bit + 1) (count + 1)
              (Counted-step next_bit count c free (ground arith)) (ground arith) t
              (omega (arith, c.behind)) (omega arith)
      ]
