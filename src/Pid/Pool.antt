-- ===== src/Pid/Pool.antt =====
-- The pool as a set of pids in use.
use ukernel.Prelude.{
  ℕ, ◌+◌, ◌-◌, ◌%◌, ◌^◌, ◌≤◌, ◌<◌, ◌≡◌, refl, Bool, true, false, Option, none, some, arith, ◌==◌,
  if◌then◌else◌, Outcome, ret, panic,
}
use ukernel.Bitmap.{Bitmap, bitmap_scan_test, bitmap_scan, write_bit}
use ukernel.Bitmap.Set.{
  IsBytes, bitmap_set-ret, write_bit-IsBytes, test-write_bit, test-bitmap_init,
}
use ukernel.Bitmap.FirstFit.{bitmap_scan-panic_iff, bitmap_scan-some, bitmap_scan-none, set_below}
use ukernel.Pid.{pid_start, pid_pool_init, allocate_pid, release_pid}

-- The pool's bitmap: 128 bytes, 1024 pids.
pub record IsPool (b : Bitmap) : Type 0 where
  pub bytes : IsBytes b
  pub size : b.btmp_bytes_len ≡ 128

abbrev pub used : Bitmap → ℕ → Bool
used b pid = bitmap_scan_test b (pid - pid_start)

-- What an allocation does: a pid between 1 and 1024 that was the lowest not in use is in use, and
-- nothing else has changed.
pub record Allocated (b : Bitmap) (pid : ℕ) (b' : Bitmap) : Type 0 where
  pub low : 1 ≤ pid
  pub high : pid ≤ 1024
  pub was_free : used b pid ≡ false
  pub lowest : (p : ℕ) → 1 ≤ p → p < pid → used b p ≡ true
  pub now : (p : ℕ) → 1 ≤ p → used b' p ≡ (if p == pid then true else used b p)
  pub pool : IsPool b'

module _ (b : Bitmap) (is : IsPool b) where
  allocate_at :
      (s : ℕ)
      → bitmap_scan b 1 ≡ ret (some s)
      → (allocate_pid b ≡ ret ((s + 1) % 2 ^ 16, write_bit b s 1)) × (s < 1024)
  unfolding allocate_pid
  allocate_at s e =
      let (clear, lowest, inside, one) = bitmap_scan-some b 1 is.bytes (omega arith) s e in
      (rw (e, bitmap_set-ret b s 1 (omega arith)) refl, omega (arith, one refl, is.size))

  -- If some pid is free, allocation returns the lowest free one.
  pub allocate_pid-Allocated :
      (pid : ℕ)
      → 1 ≤ pid
      → pid ≤ 1024
      → used b pid ≡ false
      → (p : ℕ) × (b' : Bitmap) × (allocate_pid b ≡ ret (p, b')) × Allocated b p b'
  allocate_pid-Allocated pid lo hi free = from (bitmap_scan b 1) refl
    where
      from :
          (o : Outcome (Option ℕ))
          → bitmap_scan b 1 ≡ o
          → (p : ℕ) × (b' : Bitmap) × (allocate_pid b ≡ ret (p, b')) × Allocated b p b'
      from panic e = absurd (
          ground
            (arith, (bitmap_scan-panic_iff b 1 is.bytes).0 e (pid - 1) (omega (arith, is.size))))
      from (ret none) e = absurd (
          bitmap_scan-none b 1 is.bytes (omega arith) e (pid - 1) (omega (arith, is.size))
            (λ j p q. let at : j ≡ pid - 1 = omega arith in rw at free))
      from (ret (some s)) e =
          let (clear, lowest, inside, one) = bitmap_scan-some b 1 is.bytes (omega arith) s e in
          let (eq, small) = allocate_at s e in
          let num : (s + 1) % 2 ^ 16 ≡ s + 1 = omega arith in
          let back : s + 1 - 1 ≡ s = omega arith in
          (
            s + 1,
            write_bit b s 1,
            rw num at eq,
            record {
              low = omega arith;
              high = omega arith;
              was_free = rw back (clear s (omega arith) (omega arith));
              lowest = λ p h k. set_below b s lowest (p - 1) (omega arith);
              now = λ p h. ground (arith, test-write_bit b s 1 (p - 1) (omega arith) is.bytes);
              pool = record {
                bytes = write_bit-IsBytes b s 1 (omega arith) is.bytes;
                size = unfold write_bit in is.size;
              };
            },
          )

  -- If all 1024 pids are in use, allocation stops the machine: fork cannot fail for want of a pid.
  pub allocate_pid_exhausted :
      ((pid : ℕ) → 1 ≤ pid → pid ≤ 1024 → used b pid ≡ true) → allocate_pid b ≡ panic
  unfolding allocate_pid
  allocate_pid_exhausted all =
      rw
        ((bitmap_scan-panic_iff b 1 is.bytes).1 λ j h.
          let back : j + 1 - 1 ≡ j = omega arith in
          rw back at (all (j + 1) (omega arith) (omega (arith, is.size))))
        refl

  -- Releasing a pid frees it and no other.
  release_pid_lem :
      (pid : ℕ)
      → 1 ≤ pid
      → pid ≤ 1024
      → (b' : Bitmap) × (release_pid pid b ≡ ret b')
        × IsPool b'
        × ((p : ℕ) → 1 ≤ p → used b' p ≡ (if p == pid then false else used b p))
  unfolding release_pid write_bit
  release_pid_lem pid lo hi =
      let at : (pid + 2 ^ 32 - 1) % 2 ^ 32 ≡ pid - 1 = omega arith in
      (
        write_bit b (pid - 1) 0,
        rw at (bitmap_set-ret b (pid - 1) 0 (omega arith)),
        record { bytes = write_bit-IsBytes b (pid - 1) 0 (omega arith) is.bytes; size = is.size },
        λ p h. ground (arith, test-write_bit b (pid - 1) 0 (p - 1) (omega arith) is.bytes),
      )

-- A fresh pool has no pid in use.
pub used-pid_pool_init :
    (memory : ℕ → ℕ) (pid : ℕ) → 1 ≤ pid → pid ≤ 1024 → used (pid_pool_init memory) pid ≡ false
unfolding pid_pool_init
used-pid_pool_init memory pid lo hi = test-bitmap_init _ (pid - 1) (omega arith)
