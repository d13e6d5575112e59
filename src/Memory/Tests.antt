-- ===== src/Memory/Tests.antt =====
-- A machine with eight frames in each pool, and the theorems at it.
use ukernel.Prelude.{
  ℕ, zero, suc, ◌+◌, ◌-◌, ◌*◌, ◌/◌, ◌%◌, ◌≤◌, ◌<◌, ◌≡◌, ◌⊎◌, refl, true, false, arith, ltb, leb,
  ◌==◌, ◌&&◌, some, if◌then◌else◌, ret, panic,
}
use ukernel.Bitmap.{
  Bitmap, bit_cnt, bitmap_scan_test, bitmap_scan, clear_bit_from, skip_full_bytes, first_clear_bit,
  search_run, byte_test,
}
use ukernel.Memory.{
  pg_size, pf_kernel, Pool, Memory, vaddrs, with_vaddrs, pte_ptr, pde_ptr, present, page_table_add,
}
use ukernel.Memory.Alloc.{malloc_page}
use ukernel.Memory.Free.{mfree_page}
use ukernel.Memory.Init.{mem_pool_init, kernel_bits, user_bits, vaddr_bits}
use ukernel.Memory.Layout.{mem_pool_init_lem}
use ukernel.Memory.Pools.{IsPool, IsFull, free_frames, free_below}
use ukernel.Memory.Tables.{mapped}
use ukernel.Memory.Mapping.{Grown, Added, page_table_add_lem}
use ukernel.Memory.Pages.{IsMemory}
use ukernel.Memory.Malloc.{PagesDone}
use ukernel.Memory.Request.{IsVaddrs, Claimed, with_bitmap, malloc_page_lem}
use ukernel.Memory.Release.{IsSplit, Leads, FreeDone}
use ukernel.Memory.Return.{mfree_page_lem}

abbrev one_byte : Bitmap
one_byte = record { btmp_bytes_len = 1; bits = λ i. 0 }

abbrev pool_at : ℕ → Pool
pool_at start = record { pool_bitmap = one_byte; phy_addr_start = start; pool_size = 0x8000 }

-- The words of a machine in which 0xc0100000 is mapped to the frame at 0x200000.
abbrev one_mapped : ℕ → ℕ
one_mapped a = if a == 0xfff00400 then 0x200007 else if a == 0xfffffc00 then 7 else 0

abbrev machine : (ℕ → ℕ) → Memory
machine words = record {
  kernel_pool = pool_at 0x200000;
  user_pool = pool_at 0x208000;
  kernel_vaddr = record { vaddr_bitmap = one_byte; vaddr_start = 0xc0100000 };
  userprog_vaddr = record { vaddr_bitmap = one_byte; vaddr_start = 0x8048000 };
  has_pgdir = false;
  words = words;
}

abbrev empty : Memory
empty = machine (λ a. 0)

pool_at-IsPool : (start : ℕ) → start % 4096 ≡ 0 → start ≤ 0x208000 → IsPool (pool_at start)
pool_at-IsPool start h k = record { bytes = λ i. omega arith; aligned = h; top = omega arith }

machine-IsMemory : (words : ℕ → ℕ) → IsMemory (machine words)
machine-IsMemory words = record {
  kernel = pool_at-IsPool 0x200000 refl (omega arith);
  user = pool_at-IsPool 0x208000 refl (omega arith);
}

kernel_vaddr-IsVaddrs : (words : ℕ → ℕ) → IsVaddrs (vaddrs pf_kernel (machine words))
kernel_vaddr-IsVaddrs words = record { bytes = λ i. omega arith; aligned = refl; top = omega arith }

eight_free : free_frames (pool_at 0x200000) ≡ 8
unfolding free_frames free_below bitmap_scan_test byte_test
eight_free = refl

scan_two : bitmap_scan one_byte 2 ≡ ret (some 0)
unfolding bitmap_scan clear_bit_from skip_full_bytes first_clear_bit search_run bitmap_scan_test
    byte_test
scan_two = refl

-- 32 MB
mem_pool_init_lem_example :
    let m' = mem_pool_init (λ i. 0xaa) 0x2000000 empty in
    let kp = m'.kernel_pool in
    let up = m'.user_pool in
    let v = m'.kernel_vaddr in
    (kp.phy_addr_start ≡ 0x200000)
    × (kp.phy_addr_start + kp.pool_size ≡ up.phy_addr_start)
    × (up.phy_addr_start + up.pool_size ≤ 0x2000000)
    × (kp.pool_size + up.pool_size ≡ (0x2000000 - 0x200000) / pg_size % 65536 * pg_size)
    × (kp.pool_size ≡ (0x2000000 - 0x200000) / pg_size % 65536 / 4 * pg_size)
    × (bit_cnt (kp.pool_bitmap) * pg_size ≤ kp.pool_size)
    × (bit_cnt (up.pool_bitmap) * pg_size ≤ up.pool_size)
    × (kp.pool_size < (bit_cnt (kp.pool_bitmap) + 8) * pg_size)
    × (up.pool_size < (bit_cnt (up.pool_bitmap) + 8) * pg_size)
    × (v.vaddr_bitmap.btmp_bytes_len ≡ kp.pool_bitmap.btmp_bytes_len)
    × (kernel_bits + kp.pool_bitmap.btmp_bytes_len ≡ user_bits 0x2000000)
    × (user_bits 0x2000000 + up.pool_bitmap.btmp_bytes_len ≡ vaddr_bits 0x2000000)
    × (vaddr_bits 0x2000000 + v.vaddr_bitmap.btmp_bytes_len < 0xc009e000)
mem_pool_init_lem_example =
    mem_pool_init_lem (λ i. 0xaa) 0x2000000 empty (omega arith) (omega arith)

page_table_add_lem_example :
    ((page_table_add 0x8048000 0x208000 empty ≡ panic)
      × ((mapped empty.words 0x8048000 ≡ true)
          ⊎ ((present (empty.words (pde_ptr 0x8048000)) ≡ false) × IsFull (empty.kernel_pool))))
    ⊎ ((kp : Pool) × (words' : ℕ → ℕ) × (page_table_add 0x8048000 0x208000 empty
          ≡ ret (record empty { kernel_pool = kp; words = words' }))
        × (mapped empty.words 0x8048000 ≡ false)
        × Grown (empty.kernel_pool) kp
        × Added empty.words 0x8048000 0x208000 words')
page_table_add_lem_example =
    page_table_add_lem empty 0x8048000 0x208000 (omega arith)
      (pool_at-IsPool 0x200000 refl (omega arith))

malloc_page_lem_example :
    (b : Bitmap) × (m' : Memory) × (malloc_page pf_kernel 2 empty
      ≡ ret (some (0xc0100000 + 0 * 4096), m'))
    × PagesDone pf_kernel 2
        (with_vaddrs pf_kernel (with_bitmap b (empty.kernel_vaddr)) empty)
        (0xc0100000 + 0 * 4096)
        m'
    × Claimed one_byte 0 2 b
    × ((i : ℕ) → i < 2 → bitmap_scan_test one_byte (0 + i) ≡ false)
    × (m'.kernel_vaddr ≡ with_bitmap b (empty.kernel_vaddr))
    × ((j : ℕ)
        → j ≤ bit_cnt b
        → bitmap_scan_test b j ≡ false
        → mapped m'.words (0xc0100000 + j * 4096) ≡ false)
malloc_page_lem_example =
    malloc_page_lem pf_kernel 2 empty 0 (kernel_vaddr-IsVaddrs (λ a. 0)) (omega arith) scan_two
      (machine-IsMemory (λ a. 0)) (omega arith) (omega (arith, eight_free)) (λ j h e. refl) refl

abbrev held : Memory
held = machine one_mapped

held-IsSplit : IsSplit held
held-IsSplit = record { is = machine-IsMemory one_mapped; low = omega arith; split = omega arith }

held-Leads : (i : ℕ) → i < 1 → Leads pf_kernel held (0xc0100000 + 0 * 4096 + i * 4096) 0
unfolding pte_ptr
held-Leads zero h = record { inside = omega arith; leads = refl }
held-Leads (suc i) h = absurd (omega arith)

mfree_page_lem_example :
    (b : Bitmap) × (m' : Memory) × (mfree_page pf_kernel (0xc0100000 + 0 * 4096) 1 held
      ≡ ret (with_vaddrs pf_kernel (with_bitmap b (held.kernel_vaddr)) m'))
    × FreeDone pf_kernel 1 (λ i. 0) held (0xc0100000 + 0 * 4096) m'
    × ((j : ℕ)
        → bitmap_scan_test b j
          ≡ (if leb 0 j && ltb j (0 + 1) then false else bitmap_scan_test one_byte j))
mfree_page_lem_example =
    mfree_page_lem pf_kernel 1 0 (λ i. 0) held held-IsSplit (kernel_vaddr-IsVaddrs one_mapped)
      (omega arith) (omega arith) held-Leads
