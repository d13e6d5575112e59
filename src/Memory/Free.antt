-- ===== src/Memory/Free.antt =====
-- memory.c, the routines that take pages back.
use ukernel.Prelude.{
  ℕ, zero, suc, ◌+◌, ◌-◌, ◌/◌, ◌%◌, ◌^◌, ◌&&◌, Bool, ltb, leb, ◌==◌, if◌then◌else◌, update, Outcome,
  ret, ◌>>=◌, ◌>>◌, assert,
}
use ukernel.Bitmap.{bitmap_set}
use ukernel.Memory.{
  pg_size, PoolFlags, pf_kernel, pf_user, Pool, Memory, mem_pool, with_pool, vaddrs, with_vaddrs,
  pte_ptr, addr_v2p, set_bits,
}

-- the pool whose frames a physical address belongs to
abbrev pub pool_of_frame : ℕ → Memory → PoolFlags
pool_of_frame pg_phy_addr m =
    if leb (m.user_pool.phy_addr_start) pg_phy_addr then pf_user else pf_kernel

-- bitmap_set(&mem_pool->pool_bitmap, (pg_phy_addr - phy_addr_start) / PG_SIZE, 0)
unfoldable pub release_frame : ℕ → Pool → Outcome Pool
release_frame pg_phy_addr p = do
  b ← bitmap_set p.pool_bitmap ((pg_phy_addr + 2 ^ 32 - p.phy_addr_start) % 2 ^ 32 / pg_size) 0
  ret (record p { pool_bitmap = b })

unfoldable pub pfree : ℕ → Memory → Outcome Memory
pfree pg_phy_addr m = do
  let pf = pool_of_frame pg_phy_addr m
  p ← release_frame pg_phy_addr (mem_pool pf m)
  ret (with_pool pf p m)

-- the same body under a second name
unfoldable pub free_a_phy_page : ℕ → Memory → Outcome Memory
free_a_phy_page pg_phy_addr m = do
  let pf = pool_of_frame pg_phy_addr m
  p ← release_frame pg_phy_addr (mem_pool pf m)
  ret (with_pool pf p m)

-- *pte &= ~PG_P_1
unfoldable pub page_table_pte_remove : ℕ → Memory → Memory
page_table_pte_remove vaddr m =
    let word = m.words (pte_ptr vaddr) in
    record m { words = update m.words (pte_ptr vaddr) (word - word % 2) }

unfoldable pub vaddr_remove : PoolFlags → (vaddr pg_cnt : ℕ) → Memory → Outcome Memory
vaddr_remove pf vaddr pg_cnt m = do
  let v = vaddrs pf m
  let bit_idx_start = (vaddr + 2 ^ 32 - v.vaddr_start) % 2 ^ 32 / pg_size
  b ← set_bits pg_cnt v.vaddr_bitmap bit_idx_start 0
  ret (with_vaddrs pf (record v { vaddr_bitmap = b }) m)

-- the ASSERT inside the loop: the frame is on a page boundary, in the pool that was chosen first
abbrev pub in_pool : PoolFlags → ℕ → Memory → Bool
in_pool pf_user pg_phy_addr m =
    (pg_phy_addr % pg_size == 0) && leb (m.user_pool.phy_addr_start) pg_phy_addr
in_pool pf_kernel pg_phy_addr m =
    (pg_phy_addr % pg_size == 0)
    && (leb (m.kernel_pool.phy_addr_start) pg_phy_addr
        && ltb pg_phy_addr (m.user_pool.phy_addr_start))

-- while (page_cnt < pg_cnt) { ... }, with `vaddr` as it is after `vaddr += PG_SIZE`
unfoldable pub free_pages : (left : ℕ) → PoolFlags → ℕ → Memory → Outcome Memory
free_pages zero pf vaddr m = ret m
free_pages (suc left) pf vaddr m = do
  assert (in_pool pf (addr_v2p vaddr m) m)
  m' ← pfree (addr_v2p vaddr m) m
  free_pages left pf ((vaddr + pg_size) % 2 ^ 32) (page_table_pte_remove vaddr m')

unfoldable pub mfree_page : PoolFlags → (vaddr pg_cnt : ℕ) → Memory → Outcome Memory
mfree_page pf vaddr pg_cnt m = do
  assert (leb 1 pg_cnt && (vaddr % pg_size == 0))
  let pg_phy_addr = addr_v2p vaddr m
  assert ((pg_phy_addr % pg_size == 0) && leb 0x102000 pg_phy_addr)
  m' ← free_pages pg_cnt (pool_of_frame pg_phy_addr m) vaddr m
  vaddr_remove pf vaddr pg_cnt m'
