-- ===== src/Memory/Pools.antt =====
-- palloc and the release of a frame: the pool as a set of frames in use.
use ukernel.Prelude.{
  ℕ, zero, suc, ◌+◌, ◌-◌, ◌*◌, ◌/◌, ◌%◌, ◌^◌, ◌≤◌, ◌<◌, ◌≡◌, refl, ap, Bool, true, false, Option,
  none, some, arith, ◌==◌, if◌then◌else◌, Bool-cases, ◌⊎◌, inl, inr, Outcome, ret, panic,
}
use ukernel.Bitmap.{bit_cnt, bitmap_scan_test, bitmap_scan, write_bit}
use ukernel.Bitmap.Set.{IsBytes, bitmap_set-ret, write_bit-IsBytes, test-write_bit}
use ukernel.Bitmap.FirstFit.{bitmap_scan-panic_iff, bitmap_scan-some, set_below, bitmap_scan-one}
use ukernel.Memory.{Pool, palloc_at, palloc}
use ukernel.Memory.Free.{release_frame}

-- The pool's frames lie on page boundaries of the physical address space.
pub record IsPool (p : Pool) : Type 0 where
  pub bytes : IsBytes p.pool_bitmap
  pub aligned : p.phy_addr_start % 4096 ≡ 0
  pub top : p.phy_addr_start + bit_cnt (p.pool_bitmap) * 4096 ≤ 2 ^ 32

-- whether the frame of bit `j` is in use
abbrev pub in_use : Pool → ℕ → Bool
in_use p j = bitmap_scan_test (p.pool_bitmap) j

abbrev pub frame_of : Pool → ℕ → ℕ
frame_of p j = p.phy_addr_start + j * 4096

-- The lowest free frame has been taken, and no other has changed.
pub record Taken (p : Pool) (frame : ℕ) (p' : Pool) : Type 0 where
  pub bit : ℕ
  pub at : frame ≡ frame_of p bit
  pub inside : bit < bit_cnt (p.pool_bitmap)
  pub was_free : in_use p bit ≡ false
  pub lowest : (j : ℕ) → j < bit → in_use p j ≡ true
  pub now : (j : ℕ) → in_use p' j ≡ (if j == bit then true else in_use p j)
  pub start : p'.phy_addr_start ≡ p.phy_addr_start
  pub size : bit_cnt (p'.pool_bitmap) ≡ bit_cnt (p.pool_bitmap)
  pub pool : IsPool p'

-- every frame of the pool is in use
abbrev pub IsFull : Pool → Type 0
IsFull p = (j : ℕ) → j < bit_cnt (p.pool_bitmap) → in_use p j ≡ true

-- How many of the tests below the bound fail.
unfoldable pub free_below : ℕ → (ℕ → Bool) → ℕ
free_below zero test = 0
free_below (suc n) test = (if test n then 0 else 1) + free_below n test

pub free_below_same :
    (n : ℕ) (f g : ℕ → Bool) → ((j : ℕ) → j < n → g j ≡ f j) → free_below n g ≡ free_below n f
unfolding free_below
free_below_same zero f g h = refl
free_below_same (suc n) f g h =
    ground (arith, h n (omega arith), free_below_same n f g (λ j k. h j (omega arith)))

-- One more test that passes is one less that fails.
pub free_below-suc :
    (n : ℕ) (f g : ℕ → Bool) (b : ℕ)
    → b < n
    → f b ≡ false
    → ((j : ℕ) → g j ≡ (if j == b then true else f j))
    → free_below n f ≡ suc (free_below n g)
unfolding free_below
free_below-suc zero f g b h e now = absurd (omega arith)
free_below-suc (suc n) f g b h e now = elim (Bool-cases (n == b)) [
  | inl q ↦
      let at : n ≡ b = ground arith in
      ground (arith, now n, ap f at, free_below_same n f g (λ j k. ground (arith, now j)))
  | inr q ↦ ground (arith, now n, free_below-suc n f g b (ground arith) e now)
]

pub free_below-full : (n : ℕ) (f : ℕ → Bool) → ((j : ℕ) → j < n → f j ≡ true) → free_below n f ≡ 0
unfolding free_below
free_below-full zero f h = refl
free_below-full (suc n) f h =
    ground (arith, h n (omega arith), free_below-full n f (λ j k. h j (omega arith)))

-- how many frames of a pool are free
unfoldable pub free_frames : Pool → ℕ
free_frames p = free_below (bit_cnt (p.pool_bitmap)) (in_use p)

pub free_frames-full : (p : Pool) → IsFull p → free_frames p ≡ 0
unfolding free_frames
free_frames-full p full = free_below-full (bit_cnt (p.pool_bitmap)) (in_use p) full

pub free_frames-Taken :
    (p p' : Pool) (frame : ℕ) → Taken p frame p' → free_frames p ≡ suc (free_frames p')
unfolding free_frames
free_frames-Taken p p' frame t = rw t.size (
    free_below-suc (bit_cnt (p.pool_bitmap)) (in_use p) (in_use p') t.bit t.inside t.was_free t.now)

abbrev write_pool : Pool → ℕ → ℕ → Pool
write_pool p j value = record p { pool_bitmap = write_bit p.pool_bitmap j value }

write_pool-IsPool : (p : Pool) (j value : ℕ) → value < 2 → IsPool p → IsPool (write_pool p j value)
unfolding write_bit
write_pool-IsPool p j value h is = record {
  bytes = write_bit-IsBytes p.pool_bitmap j value h is.bytes;
  aligned = is.aligned;
  top = is.top;
}

module _ (p : Pool) (is : IsPool p) where
  -- palloc of a pool of frames on page boundaries of the 32-bit space: with a free frame it
  -- returns the address of the lowest free one and puts it in use; full, it stops the machine. It
  -- never returns NULL.
  pub palloc_lem :
      ((palloc p ≡ panic) × IsFull p)
      ⊎ ((frame : ℕ) × (p' : Pool) × (palloc p ≡ ret (some frame, p')) × Taken p frame p')
  unfolding palloc palloc_at
  palloc_lem = from (bitmap_scan p.pool_bitmap 1) refl
    where
      from :
          (o : Outcome (Option ℕ))
          → bitmap_scan p.pool_bitmap 1 ≡ o
          → ((palloc p ≡ panic) × IsFull p)
            ⊎ ((frame : ℕ) × (p' : Pool) × (palloc p ≡ ret (some frame, p')) × Taken p frame p')
      from panic e =
          inl (unfold palloc in rw e refl, (bitmap_scan-panic_iff p.pool_bitmap 1 is.bytes).0 e)
      from (ret none) e = absurd (bitmap_scan-one p.pool_bitmap is.bytes e)
      from (ret (some s)) e =
          let (clear, lowest, inside, one) =
            bitmap_scan-some p.pool_bitmap 1 is.bytes (omega arith) s e in
          let small = one refl in
          let num : (s * 4096 + p.phy_addr_start) % 2 ^ 32 ≡ frame_of p s = omega (arith, is.top) in
          inr (
            frame_of p s,
            write_pool p s 1,
            unfold palloc palloc_at in
                rw (e, bitmap_set-ret p.pool_bitmap s 1 (omega arith), num) refl,
            record {
              bit = s;
              at = refl;
              inside = small;
              was_free = clear s (omega arith) (omega arith);
              lowest = set_below p.pool_bitmap s lowest;
              now = λ j. test-write_bit p.pool_bitmap s 1 j (omega arith) is.bytes;
              start = refl;
              size = unfold write_bit in refl;
              pool = write_pool-IsPool p s 1 (omega arith) is;
            },
          )

  -- Releasing the frame of bit `j` marks it free and changes no other frame.
  pub release_frame_lem :
      (j : ℕ)
      → j < bit_cnt (p.pool_bitmap)
      → (p' : Pool) × (release_frame (frame_of p j) p ≡ ret p')
        × IsPool p'
        × (p'.phy_addr_start ≡ p.phy_addr_start)
        × (bit_cnt (p'.pool_bitmap) ≡ bit_cnt (p.pool_bitmap))
        × ((k : ℕ) → in_use p' k ≡ (if k == j then false else in_use p k))
  unfolding release_frame
  release_frame_lem j h =
      let idx : (frame_of p j + 2 ^ 32 - p.phy_addr_start) % 2 ^ 32 / 4096 ≡ j =
        omega (arith, is.top) in
      (
        write_pool p j 0,
        rw (idx, bitmap_set-ret p.pool_bitmap j 0 (omega arith)) refl,
        write_pool-IsPool p j 0 (omega arith) is,
        refl,
        unfold write_bit in refl,
        λ k. test-write_bit p.pool_bitmap j 0 k (omega arith) is.bytes,
      )
