-- ===== src/Memory/Release.antt =====
-- mfree_page: the loop that gives frames back, and the routine as a whole.
use ukernel.Prelude.{
  ℕ, ◌+◌, ◌-◌, ◌*◌, ◌/◌, ◌%◌, ◌^◌, ◌≤◌, ◌<◌, ◌≡◌, ◌≢◌, true, false, arith, ◌⊎◌, inl, inr, update,
}
use ukernel.Bitmap.{bit_cnt}
use ukernel.Memory.{
  PoolFlags, pf_kernel, pf_user, Memory, mem_pool, pte_ptr, pde_ptr, entry, addr_v2p,
}
use ukernel.Memory.Free.{pool_of_frame, in_pool}
use ukernel.Memory.Layout.{pte_ptr_eq, pte_ptr_same, pte_ptr-lt}
use ukernel.Memory.Pools.{in_use, frame_of}
use ukernel.Memory.Tables.{mapped}
use ukernel.Memory.Pages.{IsMemory}

-- The kernel's frames lie above the page tables of the boot loader and below the user's.
pub record IsSplit (m : Memory) : Type 0 where
  pub is : IsMemory m
  pub low : 0x102000 ≤ m.kernel_pool.phy_addr_start
  pub split :
      m.kernel_pool.phy_addr_start + bit_cnt (m.kernel_pool.pool_bitmap) * 4096
      ≤ m.user_pool.phy_addr_start

-- `vaddr` leads to the frame of `bit` in the pool.
pub record Leads (pf : PoolFlags) (m : Memory) (vaddr bit : ℕ) : Type 0 where
  pub inside : bit < bit_cnt ((mem_pool pf m).pool_bitmap)
  pub leads : m.words (pte_ptr vaddr) ≡ entry (frame_of (mem_pool pf m) bit)

-- `cnt` pages from `v` on, backed by the frames `bits`, are unmapped and their frames free; no other
-- mapping and no other frame has changed.
pub record FreeDone (pf : PoolFlags) (cnt : ℕ) (bits : ℕ → ℕ) (m : Memory) (v : ℕ) (m' : Memory)
    : Type 0 where
  pub split : IsSplit m'
  pub start : (mem_pool pf m').phy_addr_start ≡ (mem_pool pf m).phy_addr_start
  pub size : bit_cnt ((mem_pool pf m').pool_bitmap) ≡ bit_cnt ((mem_pool pf m).pool_bitmap)
  pub gone : (w : ℕ) → v ≤ w → w < v + cnt * 4096 → mapped m'.words w ≡ false
  pub kept :
      (w : ℕ)
      → w < 0xffc00000
      → (w < v) ⊎ (v + cnt * 4096 ≤ w)
      → m'.words (pte_ptr w) ≡ m.words (pte_ptr w)
  pub dir : (w : ℕ) → m'.words (pde_ptr w) ≡ m.words (pde_ptr w)
  pub freed : (i : ℕ) → i < cnt → in_use (mem_pool pf m') (bits i) ≡ false
  pub others :
      (j : ℕ)
      → ((i : ℕ) → i < cnt → bits i ≢ j)
      → in_use (mem_pool pf m') j ≡ in_use (mem_pool pf m) j
  pub stays : (j : ℕ) → in_use (mem_pool pf m) j ≡ false → in_use (mem_pool pf m') j ≡ false
  pub kernel_vaddr : m'.kernel_vaddr ≡ m.kernel_vaddr
  pub userprog_vaddr : m'.userprog_vaddr ≡ m.userprog_vaddr

pub frame_top :
    (pf : PoolFlags) (m : Memory) (bit : ℕ)
    → IsMemory m
    → bit < bit_cnt ((mem_pool pf m).pool_bitmap)
    → (frame_of (mem_pool pf m) bit % 4096 ≡ 0) × (frame_of (mem_pool pf m) bit < 2 ^ 32)
frame_top pf_kernel m bit is h = (omega (arith, is.kernel.aligned), omega (arith, is.kernel.top))
frame_top pf_user m bit is h = (omega (arith, is.user.aligned), omega (arith, is.user.top))

entry_frame : (f : ℕ) → f % 4096 ≡ 0 → f < 2 ^ 32 → (entry f - entry f % 4096 + 0) % 2 ^ 32 ≡ f
entry_frame f h k = omega arith

-- The address that a page of the run translates to.
pub addr_v2p-Leads :
    (pf : PoolFlags) (m : Memory) (v bit : ℕ)
    → IsMemory m
    → v % 4096 ≡ 0
    → Leads pf m v bit
    → addr_v2p v m ≡ frame_of (mem_pool pf m) bit
unfolding addr_v2p
addr_v2p-Leads pf m v bit is al l =
    let (a, t) = frame_top pf m bit is l.inside in rw (l.leads, al) (entry_frame _ a t)

-- The frame's own pool is the one that the address is taken to belong to, and the loop's ASSERT holds.
pub own_pool :
    (pf : PoolFlags) (m : Memory) (bit : ℕ)
    → IsSplit m
    → bit < bit_cnt ((mem_pool pf m).pool_bitmap)
    → (pool_of_frame (frame_of (mem_pool pf m) bit) m ≡ pf)
      × (in_pool pf (frame_of (mem_pool pf m) bit) m ≡ true)
      × (0x102000 ≤ frame_of (mem_pool pf m) bit)
own_pool pf_kernel m bit sp h =
    let (a, t) = frame_top pf_kernel m bit sp.is h in
    (ground (arith, sp.split), ground (arith, sp.split), omega (arith, sp.low))
own_pool pf_user m bit sp h =
    let (a, t) = frame_top pf_user m bit sp.is h in
    (ground arith, ground arith, omega (arith, sp.low, sp.split))

-- the words after the entry of `v` has lost its present bit
abbrev pub without : (ℕ → ℕ) → ℕ → ℕ → ℕ
without words v = update words (pte_ptr v) (words (pte_ptr v) - words (pte_ptr v) % 2)

module _ (words : ℕ → ℕ) (v : ℕ) (hv : v < 0xffc00000) (al : v % 4096 ≡ 0) where
  pub without-gone : (w : ℕ) → v ≤ w → w < v + 4096 → mapped (without words v) w ≡ false
  without-gone w a b =
      let q : w / 4096 ≡ v / 4096 = omega arith in let (e, f) = pte_ptr_same w v q in ground arith

  pub without-kept :
      (w : ℕ)
      → w < 0xffc00000
      → (w < v) ⊎ (v + 4096 ≤ w)
      → without words v (pte_ptr w) ≡ words (pte_ptr w)
  without-kept w hw out =
      let ne : w / 4096 ≢ v / 4096 = elim out [ inl a ↦ omega arith | inr a ↦ omega arith ] in
      ground (arith, pte_ptr_eq w v (omega arith) (omega arith))

  pub without-dir : (w : ℕ) → without words v (pde_ptr w) ≡ words (pde_ptr w)
  without-dir w = ground (arith, pte_ptr-lt v w hv)
