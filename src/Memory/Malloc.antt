-- ===== src/Memory/Malloc.antt =====
-- The loops of malloc_page and vaddr_get, and malloc_page as a whole.
use ukernel.Prelude.{
  ℕ, zero, suc, ◌+◌, ◌*◌, ◌/◌, ◌%◌, ◌^◌, ◌≤◌, ◌<◌, ◌≡◌, ◌≢◌, refl, true, false, arith, ltb, leb,
  ◌==◌, ◌⊎◌, inl, inr, ◌&&◌, not, Bool-cases, if◌then◌else◌, ap, ◌∙◌, ret,
}
use ukernel.Bitmap.{Bitmap, bitmap_scan_test, write_bit}
use ukernel.Bitmap.Set.{IsBytes, bitmap_set-ret, write_bit-IsBytes, test-write_bit}
use ukernel.Memory.{PoolFlags, Memory, mem_pool, pte_ptr, entry, set_bits}
use ukernel.Memory.Alloc.{map_page, map_pages}
use ukernel.Memory.Pools.{in_use}
use ukernel.Memory.Tables.{mapped}
use ukernel.Memory.Pages.{IsMemory, Room, Larger, Backed, PageDone, map_page_lem}

-- `cnt` pages from `v` on are mapped, each to a frame of its own that was free; every other mapping
-- stays.
pub record PagesDone (pf : PoolFlags) (cnt : ℕ) (m : Memory) (v : ℕ) (m' : Memory) : Type 0 where
  pub bits : ℕ → ℕ
  pub backed : (i : ℕ) → i < cnt → Backed pf m (v + i * 4096) (bits i) m'
  pub there : (i : ℕ) → i < cnt → mapped m'.words (v + i * 4096) ≡ true
  pub apart : (i j : ℕ) → i < j → j < cnt → bits i ≢ bits j
  pub larger : Larger pf m m'
  pub kept :
      (w : ℕ)
      → w < 0xffc00000
      → mapped m.words w ≡ true
      → (mapped m'.words w ≡ true) × (m'.words (pte_ptr w) ≡ m.words (pte_ptr w))
  pub new :
      (w : ℕ)
      → w < 0xffc00000
      → mapped m'.words w ≡ true
      → (mapped m.words w ≡ true) ⊎ ((v ≤ w) × (w < v + cnt * 4096))

no_pages : (pf : PoolFlags) (m : Memory) (v : ℕ) → IsMemory m → PagesDone pf 0 m v m
no_pages pf m v is = record {
  bits = λ i. 0;
  backed = λ i h. absurd (omega arith);
  there = λ i h. absurd (omega arith);
  apart = λ i j h k. absurd (omega arith);
  larger = record {
    is = is;
    start = refl;
    size = refl;
    more = λ j h. h;
    kernel_start = refl;
    kernel_size = refl;
    user_start = refl;
    user_size = refl;
    kernel_vaddr = refl;
    userprog_vaddr = refl;
  };
  kept = λ w hw h. (h, refl);
  new = λ w hw h. inl h;
}

-- a first number before a sequence
abbrev shift : ℕ → (ℕ → ℕ) → ℕ → ℕ
shift first rest zero = first
shift first rest (suc i) = rest i

-- A frame that is free after more frames came into use was free before.
free_before :
    (pf : PoolFlags) (m m' : Memory) (b : ℕ)
    → Larger pf m m'
    → in_use (mem_pool pf m') b ≡ false
    → in_use (mem_pool pf m) b ≡ false
free_before pf m m' b l e = elim (Bool-cases (in_use (mem_pool pf m) b)) [
  | inl u ↦ absurd (ground (arith, l.more b u))
  | inr f ↦ f
]

module _ (pf : PoolFlags) (cnt : ℕ) (m m1 m' : Memory) (v : ℕ) (aligned : v % 4096 ≡ 0)
    (high : v + suc cnt * 4096 ≤ 0xffc00000) (p : PageDone pf cnt m v m1)
    (r : PagesDone pf cnt m1 (v + 4096) m') where
  first_there : mapped m1.words v ≡ true
  first_there = ground (arith, p.now v (omega arith))

  Backed-next : (i : ℕ) → i < cnt → Backed pf m (v + 4096 + i * 4096) (r.bits i) m'
  Backed-next i h =
      let b = r.backed i h in
      record {
        was_free = free_before pf m m1 (r.bits i) p.larger b.was_free;
        now_used = b.now_used;
        inside = omega (arith, b.inside, p.larger.size);
        leads = b.leads ∙ ap (λ s. entry (s + r.bits i * 4096)) p.larger.start;
      }

  next_at : (i : ℕ) → v + 4096 + i * 4096 ≡ v + suc i * 4096
  next_at i = omega arith

  Backed-suc : (i : ℕ) → i < suc cnt → Backed pf m (v + i * 4096) (shift p.bit r.bits i) m'
  Backed-suc zero h = record {
    was_free = p.backed.was_free;
    now_used = r.larger.more p.bit p.backed.now_used;
    inside = p.backed.inside;
    leads = rw (at_zero) ((r.kept v (omega arith) first_there).1 ∙ p.backed.leads);
  }
    where
      at_zero : v + zero * 4096 ≡ v
      at_zero = omega arith
  Backed-suc (suc i) h = rw (next_at i) at (Backed-next i (omega arith))

  there_suc : (i : ℕ) → i < suc cnt → mapped m'.words (v + i * 4096) ≡ true
  there_suc zero h =
      let e : v + zero * 4096 ≡ v = omega arith in rw e ((r.kept v (omega arith) first_there).0)
  there_suc (suc i) h = rw (next_at i) at (r.there i (omega arith))

  apart_suc : (i j : ℕ) → i < j → j < suc cnt → shift p.bit r.bits i ≢ shift p.bit r.bits j
  apart_suc zero zero h k e = absurd (omega arith)
  apart_suc zero (suc j) h k e =
      let f = (r.backed j (omega arith)).was_free in
      absurd (ground (arith, p.backed.now_used, f, ap (in_use (mem_pool pf m1)) e))
  apart_suc (suc i) zero h k e = absurd (omega arith)
  apart_suc (suc i) (suc j) h k e = r.apart i j (omega arith) (omega arith) e

  new_suc :
      (w : ℕ)
      → w < 0xffc00000
      → mapped m'.words w ≡ true
      → (mapped m.words w ≡ true) ⊎ ((v ≤ w) × (w < v + suc cnt * 4096))
  new_suc w hw h = elim (r.new w hw h) [
    | inl old ↦ elim (Bool-cases (w / 4096 == v / 4096)) [
      | inl e ↦ let q : w / 4096 ≡ v / 4096 = ground arith in inr (omega arith, omega arith)
      | inr e ↦ inl (ground (arith, p.now w hw))
    ]
    | inr (a, b) ↦ inr (omega arith, omega arith)
  ]

  one_more : PagesDone pf (suc cnt) m v m'
  one_more = record {
    bits = shift p.bit r.bits;
    backed = Backed-suc;
    there = there_suc;
    apart = apart_suc;
    larger = record {
      is = r.larger.is;
      start = r.larger.start ∙ p.larger.start;
      size = r.larger.size ∙ p.larger.size;
      more = λ j h. r.larger.more j (p.larger.more j h);
      kernel_start = r.larger.kernel_start ∙ p.larger.kernel_start;
      kernel_size = r.larger.kernel_size ∙ p.larger.kernel_size;
      user_start = r.larger.user_start ∙ p.larger.user_start;
      user_size = r.larger.user_size ∙ p.larger.user_size;
      kernel_vaddr = r.larger.kernel_vaddr ∙ p.larger.kernel_vaddr;
      userprog_vaddr = r.larger.userprog_vaddr ∙ p.larger.userprog_vaddr;
    };
    kept = λ w hw h.
        let a : mapped m1.words w ≡ true = ground (arith, p.now w hw) in
        let (b, c) = r.kept w hw a in (b, c ∙ p.kept w hw h);
    new = new_suc;
  }

map_pages-suc :
    (cnt : ℕ) (pf : PoolFlags) (v : ℕ) (m m1 : Memory)
    → map_page pf v m ≡ ret (true, m1)
    → v + 4096 < 2 ^ 32
    → map_pages (suc cnt) pf v m ≡ map_pages cnt pf (v + 4096) m1
unfolding map_pages
map_pages-suc cnt pf v m m1 q h =
    let step : (v + 4096) % 2 ^ 32 ≡ v + 4096 = omega arith in
    rw q (ap (λ a. map_pages cnt pf a m1) step)

pub map_pages_lem :
    (cnt : ℕ) (pf : PoolFlags) (v : ℕ) (m : Memory)
    → IsMemory m
    → v % 4096 ≡ 0
    → v + cnt * 4096 ≤ 0xffc00000
    → Room pf cnt m
    → ((i : ℕ) → i < cnt → mapped m.words (v + i * 4096) ≡ false)
    → (m' : Memory) × (map_pages cnt pf v m ≡ ret (true, m')) × PagesDone pf cnt m v m'
unfolding map_pages
map_pages_lem zero pf v m is al high room free = (m, refl, no_pages pf m v is)
map_pages_lem (suc cnt) pf v m is al high room free =
    let e : v + 0 * 4096 ≡ v = omega arith in
    let (m1, q, p) =
      map_page_lem v m (omega arith) is pf cnt room (rw e at (free 0 (omega arith))) in
    let (m', s, r) =
      map_pages_lem cnt pf (v + 4096) m1 p.larger.is (omega arith) (omega arith) p.room
        (later m1 p) in
    (m', map_pages-suc cnt pf v m m1 q (omega arith) ∙ s, one_more pf cnt m m1 m' v al high p r)
  where
    later :
        (m1 : Memory)
        → PageDone pf cnt m v m1
        → (i : ℕ) → i < cnt
        → mapped m1.words (v + 4096 + i * 4096) ≡ false
    later m1 p i h =
        let f : mapped m.words (v + 4096 + i * 4096) ≡ false =
          (let e : v + suc i * 4096 ≡ v + 4096 + i * 4096 = omega arith in
            rw e at (free (suc i) (omega arith))) in
        let ne : (v + 4096 + i * 4096) / 4096 ≢ v / 4096 = omega arith in
        ground (arith, p.now (v + 4096 + i * 4096) (omega arith))

-- A run of bits is set, or cleared, and no other bit changes.
pub set_bits_lem :
    (left : ℕ) (b : Bitmap) (i value : ℕ)
    → value < 2
    → IsBytes b
    → (b' : Bitmap) × (set_bits left b i value ≡ ret b')
      × (b'.btmp_bytes_len ≡ b.btmp_bytes_len)
      × IsBytes b'
      × ((j : ℕ)
          → bitmap_scan_test b' j
            ≡ (if leb i j && ltb j (i + left) then not (value == 0) else bitmap_scan_test b j))
unfolding set_bits
set_bits_lem zero b i value h is = (b, refl, refl, is, λ j. ground arith)
set_bits_lem (suc left) b i value h is =
    let (b', e, len, is', now) =
      set_bits_lem left (write_bit b i value) (i + 1) value h (write_bit-IsBytes b i value h is) in
    (
      b',
      rw (bitmap_set-ret b i value h) e,
      len ∙ (unfold write_bit in refl),
      is',
      λ j. ground (arith, now j, test-write_bit b i value j h is),
    )
