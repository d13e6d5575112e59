-- ===== src/Memory.antt =====
-- memory.c, the pages: the pools of page frames, the virtual addresses and the page tables. Each
-- entry point runs under its pool's lock, so it is one step here. A mask of a 32-bit word is
-- written as arithmetic: `x & 0xfff` is x % 4096, `x & 0xfffff000` is x - x % 4096, `x & 1` is
-- x % 2, and `x | 7` is x - x % 8 + 7. `none` is NULL.
pub mod Alloc
pub mod Free
pub mod Init
pub mod Layout
pub mod Malloc
pub mod Mapping
pub mod Pools
pub mod Release
pub mod Return
pub mod Request
pub mod Tables
pub mod Pages
mod Tests
use ukernel.Prelude.{
  ℕ, zero, suc, ◌+◌, ◌-◌, ◌*◌, ◌/◌, ◌%◌, ◌^◌, ◌&&◌, Bool, true, false, not, Option, none, some, ltb,
  leb, ◌==◌, if◌then◌else◌, update, Outcome, ret, panic, ◌>>=◌, ◌>>◌, assert,
}
use ukernel.Bitmap.{Bitmap, bitmap_init, bitmap_scan, bitmap_set}

abbrev pub pg_size : ℕ
pg_size = 4096

-- enum pool_flags
pub data PoolFlags : Type 0 where
  pf_kernel : PoolFlags
  pf_user : PoolFlags

-- struct pool, but for its lock
pub record Pool : Type 0 where
  pub pool_bitmap : Bitmap
  pub phy_addr_start : ℕ
  pub pool_size : ℕ

-- struct virtual_addr
pub record VirtualAddr : Type 0 where
  pub vaddr_bitmap : Bitmap
  pub vaddr_start : ℕ

-- The globals of memory.c, what it uses of the running thread (whether it has a page directory,
-- and its virtual addresses), and the words of the address space, by their virtual address.
pub record Memory : Type 0 where
  pub kernel_pool : Pool
  pub user_pool : Pool
  pub kernel_vaddr : VirtualAddr
  pub userprog_vaddr : VirtualAddr
  pub has_pgdir : Bool
  pub words : ℕ → ℕ

-- pf & PF_KERNEL ? &kernel_pool : &user_pool
abbrev pub mem_pool : PoolFlags → Memory → Pool
mem_pool pf_kernel m = m.kernel_pool
mem_pool pf_user m = m.user_pool

abbrev pub with_pool : PoolFlags → Pool → Memory → Memory
with_pool pf_kernel p m = record m { kernel_pool = p }
with_pool pf_user p m = record m { user_pool = p }

abbrev pub vaddrs : PoolFlags → Memory → VirtualAddr
vaddrs pf_kernel m = m.kernel_vaddr
vaddrs pf_user m = m.userprog_vaddr

abbrev pub with_vaddrs : PoolFlags → VirtualAddr → Memory → Memory
with_vaddrs pf_kernel v m = record m { kernel_vaddr = v }
with_vaddrs pf_user v m = record m { userprog_vaddr = v }

-- while (cnt < pg_cnt) bitmap_set(b, bit_idx_start + cnt++, value)
unfoldable pub set_bits : (left : ℕ) → Bitmap → (bit_idx value : ℕ) → Outcome Bitmap
set_bits zero b bit_idx value = ret b
set_bits (suc left) b bit_idx value = do
  b' ← bitmap_set b bit_idx value
  set_bits left b' (bit_idx + 1) value

-- the rest of vaddr_get once bitmap_scan has answered
unfoldable pub vaddr_get_at : Option ℕ → VirtualAddr → ℕ → Outcome (Option ℕ × VirtualAddr)
vaddr_get_at none v pg_cnt = ret (none, v)
vaddr_get_at (some bit_idx_start) v pg_cnt = do
  b ← set_bits pg_cnt v.vaddr_bitmap bit_idx_start 1
  ret (some ((v.vaddr_start + bit_idx_start * pg_size) % 2 ^ 32), record v { vaddr_bitmap = b })

-- ASSERT((uint32_t)vaddr_start < (0xc0000000 - PG_SIZE)), in the user branch only
abbrev pub below_kernel : PoolFlags → Option ℕ → Bool
below_kernel pf_user (some vaddr) = ltb vaddr (0xc0000000 - pg_size)
below_kernel _ _ = true

unfoldable pub vaddr_get : PoolFlags → ℕ → Memory → Outcome (Option ℕ × Memory)
vaddr_get pf pg_cnt m = do
  found ← bitmap_scan (vaddrs pf m).vaddr_bitmap pg_cnt
  (vaddr, v) ← vaddr_get_at found (vaddrs pf m) pg_cnt
  assert (below_kernel pf vaddr)
  ret (vaddr, with_vaddrs pf v m)

-- (addr & 0xffc00000) >> 22 and (addr & 0x003ff000) >> 12
abbrev pub pde_idx : ℕ → ℕ
pde_idx addr = addr / 2 ^ 22

abbrev pub pte_idx : ℕ → ℕ
pte_idx addr = addr / 2 ^ 12 % 2 ^ 10

-- (vaddr & 0xffc00000) >> 10 is the directory index in units of a page
unfoldable pub pte_ptr : ℕ → ℕ
pte_ptr vaddr = 0xffc00000 + pde_idx vaddr * pg_size + pte_idx vaddr * 4

unfoldable pub pde_ptr : ℕ → ℕ
pde_ptr vaddr = 0xfffff000 + pde_idx vaddr * 4

-- the rest of palloc once bitmap_scan has answered
unfoldable pub palloc_at : Option ℕ → Pool → Outcome (Option ℕ × Pool)
palloc_at none p = ret (none, p)
palloc_at (some bit_idx) p = do
  b ← bitmap_set p.pool_bitmap bit_idx 1
  ret (some ((bit_idx * pg_size + p.phy_addr_start) % 2 ^ 32), record p { pool_bitmap = b })

unfoldable pub palloc : Pool → Outcome (Option ℕ × Pool)
palloc p = do found ← bitmap_scan p.pool_bitmap 1; palloc_at found p

-- phyaddr | PG_US_U | PG_RW_W | PG_P_1
abbrev pub entry : ℕ → ℕ
entry phyaddr = phyaddr - phyaddr % 8 + 7

-- an entry & PG_P_1
abbrev pub present : ℕ → Bool
present word = word % 2 == 1

-- a pointer as the uint32_t it is cast to
abbrev pub address : Option ℕ → ℕ
address none = 0
address (some a) = a

-- memset(from, 0, size) of words
abbrev pub clear_words : (from size : ℕ) → (ℕ → ℕ) → ℕ → ℕ
clear_words from size words a = if leb from a && ltb a (from + size) then 0 else words a

-- the else branch of page_table_add: a new page table, its directory entry, and its memory cleared
unfoldable pub add_table : ℕ → Memory → Outcome Memory
add_table vaddr m = do
  (pde_phyaddr, kp) ← palloc m.kernel_pool
  let with_pde = update m.words (pde_ptr vaddr) (entry (address pde_phyaddr))
  let pte = pte_ptr vaddr
  ret (record m { kernel_pool = kp; words = clear_words (pte - pte % 4096) pg_size with_pde })

-- the end of both branches: ASSERT(!(*pte & 0x00000001)), then *pte = ...
unfoldable pub fill_pte : (vaddr page_phyaddr : ℕ) → Memory → Outcome Memory
fill_pte vaddr page_phyaddr m = do
  assert (not (present (m.words (pte_ptr vaddr))))
  ret (record m { words = update m.words (pte_ptr vaddr) (entry page_phyaddr) })

unfoldable pub page_table_add : (vaddr page_phyaddr : ℕ) → Memory → Outcome Memory
page_table_add vaddr page_phyaddr m = do
  m' ← if present (m.words (pde_ptr vaddr)) then ret m else add_table vaddr m
  fill_pte vaddr page_phyaddr m'

-- the physical address behind `vaddr`
unfoldable pub addr_v2p : ℕ → Memory → ℕ
addr_v2p vaddr m =
    let word = m.words (pte_ptr vaddr) in (word - word % 4096 + vaddr % 4096) % 2 ^ 32
