-- ===== src/Memory/Layout.antt =====
-- Where the page tables and the pools lie: pde_ptr and pte_ptr against each other, and the sizes
-- that mem_pool_init computes.
use ukernel.Prelude.{ℕ, ◌+◌, ◌-◌, ◌*◌, ◌/◌, ◌%◌, ◌^◌, ◌≤◌, ◌<◌, ◌≡◌, arith}
use ukernel.Bitmap.{bit_cnt, bitmap_init}
use ukernel.Memory.{pg_size, Memory, pte_ptr, pde_ptr}
use ukernel.Memory.Init.{
  all_free_pages, kernel_free_pages, user_free_pages, kernel_bits, user_bits, vaddr_bits,
  mem_pool_init,
}

-- The directory entry of an address is the page-table entry of its page-table entry: the last entry
-- of the directory points at the directory.
pte_ptr-pte_ptr : (v : ℕ) → v < 2 ^ 32 → pte_ptr (pte_ptr v) ≡ pde_ptr v
unfolding pte_ptr pde_ptr
pte_ptr-pte_ptr v h = omega arith

pub pte_ptr_eq : (v w : ℕ) → v < 2 ^ 32 → w < 2 ^ 32 → pte_ptr v ≡ pte_ptr w → v / 4096 ≡ w / 4096
unfolding pte_ptr
pte_ptr_eq v w h k e = omega arith

pub pte_ptr_same :
    (v w : ℕ) → v / 4096 ≡ w / 4096 → (pte_ptr v ≡ pte_ptr w) × (pde_ptr v ≡ pde_ptr w)
unfolding pte_ptr pde_ptr
pte_ptr_same v w e = (omega arith, omega arith)

pub pde_ptr_eq : (v w : ℕ) → pde_ptr v ≡ pde_ptr w → v / 2 ^ 22 ≡ w / 2 ^ 22
unfolding pde_ptr
pde_ptr_eq v w e = omega arith

pub pde_ptr_same : (v w : ℕ) → v / 2 ^ 22 ≡ w / 2 ^ 22 → pde_ptr v ≡ pde_ptr w
unfolding pde_ptr
pde_ptr_same v w e = omega arith

-- The entries of an address below the page tables do not stand in the directory.
pub pte_ptr-lt : (v w : ℕ) → v < 0xffc00000 → pte_ptr v < pde_ptr w
unfolding pte_ptr pde_ptr
pte_ptr-lt v w h = omega arith

-- Whether the entry of `w` stands in the page table of `v`.
pub in_table :
    (v w : ℕ)
    → v / 2 ^ 22 ≡ w / 2 ^ 22
    → (pte_ptr v - pte_ptr v % 4096 ≤ pte_ptr w) × (pte_ptr w < pte_ptr v - pte_ptr v % 4096 + 4096)
unfolding pte_ptr
in_table v w e = (omega arith, omega arith)

pub of_in_table :
    (v w : ℕ)
    → pte_ptr v - pte_ptr v % 4096 ≤ pte_ptr w
    → pte_ptr w < pte_ptr v - pte_ptr v % 4096 + 4096
    → v / 2 ^ 22 ≡ w / 2 ^ 22
unfolding pte_ptr
of_in_table v w p q = omega arith

-- No directory entry stands in the page table of an address below the page tables.
pub pde_outside : (v w : ℕ) → v < 0xffc00000 → pte_ptr v - pte_ptr v % 4096 + 4096 ≤ pde_ptr w
unfolding pte_ptr pde_ptr
pde_outside v w h = omega arith

-- The pools that mem_pool_init makes of `all_mem` bytes, where these are at least 2 MB and below
-- 2^32: the kernel's frames lie above the first 2 MB and below the user's, the user's end within the
-- memory; together they are the whole frames above the first 2 MB, counted modulo 65536, of which
-- the kernel has a quarter, rounded down; every bit of a bitmap stands for a frame of its pool, and
-- fewer than 8 frames of a pool have no bit; the three bitmaps follow each other without overlap,
-- and they end below the pcb of the first thread at 0xc009e000.
pub mem_pool_init_lem :
    (memory : ℕ → ℕ) (all_mem : ℕ) (m : Memory)
    → 0x200000 ≤ all_mem
    → all_mem < 2 ^ 32
    → let m' = mem_pool_init memory all_mem m in
      let kp = m'.kernel_pool in
      let up = m'.user_pool in
      let v = m'.kernel_vaddr in
      (kp.phy_addr_start ≡ 0x200000)
      × (kp.phy_addr_start + kp.pool_size ≡ up.phy_addr_start)
      × (up.phy_addr_start + up.pool_size ≤ all_mem)
      × (kp.pool_size + up.pool_size ≡ (all_mem - 0x200000) / pg_size % 65536 * pg_size)
      × (kp.pool_size ≡ (all_mem - 0x200000) / pg_size % 65536 / 4 * pg_size)
      × (bit_cnt (kp.pool_bitmap) * pg_size ≤ kp.pool_size)
      × (bit_cnt (up.pool_bitmap) * pg_size ≤ up.pool_size)
      × (kp.pool_size < (bit_cnt (kp.pool_bitmap) + 8) * pg_size)
      × (up.pool_size < (bit_cnt (up.pool_bitmap) + 8) * pg_size)
      × (v.vaddr_bitmap.btmp_bytes_len ≡ kp.pool_bitmap.btmp_bytes_len)
      × (kernel_bits + kp.pool_bitmap.btmp_bytes_len ≡ user_bits all_mem)
      × (user_bits all_mem + up.pool_bitmap.btmp_bytes_len ≡ vaddr_bits all_mem)
      × (vaddr_bits all_mem + v.vaddr_bitmap.btmp_bytes_len < 0xc009e000)
unfolding mem_pool_init user_bits vaddr_bits kernel_bits kernel_free_pages user_free_pages
    all_free_pages bitmap_init
mem_pool_init_lem memory all_mem m lo hi = (
  omega arith,
  omega arith,
  omega arith,
  omega arith,
  omega arith,
  omega arith,
  omega arith,
  omega arith,
  omega arith,
  omega arith,
  omega arith,
  omega arith,
  omega arith,
)
