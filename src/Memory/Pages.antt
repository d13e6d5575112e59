-- ===== src/Memory/Pages.antt =====
-- One page at a time: map_page, and the loop of malloc_page.
use ukernel.Prelude.{
  ℕ, suc, ◌+◌, ◌/◌, ◌≤◌, ◌<◌, ◌≡◌, refl, true, false, arith, ◌==◌, inl, inr, if◌then◌else◌, ap, ◌∙◌,
  ret,
}
use ukernel.Bitmap.{bit_cnt}
use ukernel.Memory.{PoolFlags, pf_kernel, pf_user, Memory, mem_pool, pte_ptr, entry}
use ukernel.Memory.Alloc.{map_page, map_page_at}
use ukernel.Memory.Pools.{
  IsPool, in_use, frame_of, palloc_lem, free_frames, free_frames-Taken, free_frames-full,
}
use ukernel.Memory.Tables.{mapped}
use ukernel.Memory.Mapping.{page_table_add_lem}

pub record IsMemory (m : Memory) : Type 0 where
  pub kernel : IsPool m.kernel_pool
  pub user : IsPool m.user_pool

-- Frames for `n` pages, and for a page table to each.
abbrev pub Room : PoolFlags → ℕ → Memory → Type 0
Room pf_kernel n m = n + n ≤ free_frames m.kernel_pool
Room pf_user n m = (n ≤ free_frames m.kernel_pool) × (n ≤ free_frames m.user_pool)

-- What a page more does to the memory: frames have come into use, and besides the pools only the
-- words have changed.
pub record Larger (pf : PoolFlags) (m m' : Memory) : Type 0 where
  pub is : IsMemory m'
  pub start : (mem_pool pf m').phy_addr_start ≡ (mem_pool pf m).phy_addr_start
  pub size : bit_cnt ((mem_pool pf m').pool_bitmap) ≡ bit_cnt ((mem_pool pf m).pool_bitmap)
  pub more : (j : ℕ) → in_use (mem_pool pf m) j ≡ true → in_use (mem_pool pf m') j ≡ true
  pub kernel_start : m'.kernel_pool.phy_addr_start ≡ m.kernel_pool.phy_addr_start
  pub kernel_size : bit_cnt (m'.kernel_pool.pool_bitmap) ≡ bit_cnt (m.kernel_pool.pool_bitmap)
  pub user_start : m'.user_pool.phy_addr_start ≡ m.user_pool.phy_addr_start
  pub user_size : bit_cnt (m'.user_pool.pool_bitmap) ≡ bit_cnt (m.user_pool.pool_bitmap)
  pub kernel_vaddr : m'.kernel_vaddr ≡ m.kernel_vaddr
  pub userprog_vaddr : m'.userprog_vaddr ≡ m.userprog_vaddr

-- `vaddr` leads to the frame of `bit`, which was free and is in use.
pub record Backed (pf : PoolFlags) (m : Memory) (vaddr bit : ℕ) (m' : Memory) : Type 0 where
  pub was_free : in_use (mem_pool pf m) bit ≡ false
  pub now_used : in_use (mem_pool pf m') bit ≡ true
  pub inside : bit < bit_cnt ((mem_pool pf m).pool_bitmap)
  pub leads : m'.words (pte_ptr vaddr) ≡ entry (frame_of (mem_pool pf m) bit)

-- One page: `vaddr` is backed and mapped, every other mapping stays, and frames for `n` pages are
-- left.
pub record PageDone (pf : PoolFlags) (n : ℕ) (m : Memory) (vaddr : ℕ) (m' : Memory) : Type 0 where
  pub bit : ℕ
  pub backed : Backed pf m vaddr bit m'
  pub larger : Larger pf m m'
  pub room : Room pf n m'
  pub now :
      (w : ℕ)
      → w < 0xffc00000
      → mapped m'.words w ≡ (if w / 4096 == vaddr / 4096 then true else mapped m.words w)
  pub kept :
      (w : ℕ)
      → w < 0xffc00000
      → mapped m.words w ≡ true
      → m'.words (pte_ptr w) ≡ m.words (pte_ptr w)

module _ (v : ℕ) (m : Memory) (hv : v < 0xffc00000) (is : IsMemory m) where
  pub map_page-user :
      (n : ℕ)
      → Room pf_user (suc n) m
      → mapped m.words v ≡ false
      → (m' : Memory) × (map_page pf_user v m ≡ ret (true, m')) × PageDone pf_user n m v m'
  unfolding map_page map_page_at
  map_page-user n (rk, ru) free = elim (palloc_lem m.user_pool is.user) [
    | inl (e, full) ↦ absurd (omega (arith, free_frames-full m.user_pool full))
    | inr (frame, up, e, t) ↦
        elim (page_table_add_lem (record m { user_pool = up }) v frame hv is.kernel) [
          | inl (q, why) ↦ elim why [
            | inl taken ↦ absurd (ground arith)
            | inr (absent, full) ↦ absurd (omega (arith, free_frames-full m.kernel_pool full))
          ]
          | inr (kp, words', q, un, g, a) ↦ (
            record m { user_pool = up; kernel_pool = kp; words = words' },
            rw (e, q) refl,
            record {
              bit = t.bit;
              backed = record {
                was_free = t.was_free;
                now_used = ground (arith, t.now t.bit);
                inside = t.inside;
                leads = a.target ∙ ap entry t.at;
              };
              larger = record {
                is = record { kernel = g.pool; user = t.pool };
                start = t.start;
                size = t.size;
                more = λ j h. ground (arith, t.now j);
                kernel_start = g.start;
                kernel_size = g.size;
                user_start = t.start;
                user_size = t.size;
                kernel_vaddr = refl;
                userprog_vaddr = refl;
              };
              room =
                  (omega (arith, g.few), omega (arith, free_frames-Taken m.user_pool up frame t));
              now = a.now;
              kept = a.kept;
            },
          )
        ]
  ]

  pub map_page-kernel :
      (n : ℕ)
      → Room pf_kernel (suc n) m
      → mapped m.words v ≡ false
      → (m' : Memory) × (map_page pf_kernel v m ≡ ret (true, m')) × PageDone pf_kernel n m v m'
  unfolding map_page map_page_at
  map_page-kernel n rk free = elim (palloc_lem m.kernel_pool is.kernel) [
    | inl (e, full) ↦ absurd (omega (arith, free_frames-full m.kernel_pool full))
    | inr (frame, up, e, t) ↦
        let count = free_frames-Taken m.kernel_pool up frame t in
        elim (page_table_add_lem (record m { kernel_pool = up }) v frame hv t.pool) [
          | inl (q, why) ↦ elim why [
            | inl taken ↦ absurd (ground arith)
            | inr (absent, full) ↦ absurd (omega (arith, free_frames-full up full))
          ]
          | inr (kp, words', q, un, g, a) ↦ (
            record m { kernel_pool = kp; words = words' },
            rw (e, q) refl,
            record {
              bit = t.bit;
              backed = record {
                was_free = t.was_free;
                now_used = g.more t.bit (ground (arith, t.now t.bit));
                inside = t.inside;
                leads = a.target ∙ ap entry t.at;
              };
              larger = record {
                is = record { kernel = g.pool; user = is.user };
                start = g.start ∙ t.start;
                size = g.size ∙ t.size;
                more = λ j h. g.more j (ground (arith, t.now j));
                kernel_start = g.start ∙ t.start;
                kernel_size = g.size ∙ t.size;
                user_start = refl;
                user_size = refl;
                kernel_vaddr = refl;
                userprog_vaddr = refl;
              };
              room = omega (arith, g.few);
              now = a.now;
              kept = a.kept;
            },
          )
        ]
  ]

  pub map_page_lem :
      (pf : PoolFlags) (n : ℕ)
      → Room pf (suc n) m
      → mapped m.words v ≡ false
      → (m' : Memory) × (map_page pf v m ≡ ret (true, m')) × PageDone pf n m v m'
  map_page_lem pf_kernel n room free = map_page-kernel n room free
  map_page_lem pf_user n room free = map_page-user n room free
