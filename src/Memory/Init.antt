-- ===== src/Memory/Init.antt =====
-- memory.c, mem_pool_init: how the machine's memory is cut into pools, and where their bitmaps lie.
use ukernel.Prelude.{ℕ, ◌+◌, ◌-◌, ◌*◌, ◌/◌, ◌%◌, ◌^◌}
use ukernel.Bitmap.{Bitmap, bitmap_init}
use ukernel.Memory.{pg_size, Memory}

abbrev pub mem_bitmap_base : ℕ
mem_bitmap_base = 0xc009a000

abbrev pub k_heap_start : ℕ
k_heap_start = 0xc0100000

abbrev pub used_mem : ℕ
used_mem = pg_size * 256 + 0x100000

-- a uint32_t difference, and a uint16_t count
unfoldable pub all_free_pages : ℕ → ℕ
all_free_pages all_mem = (all_mem + 2 ^ 32 - used_mem) % 2 ^ 32 / pg_size % 2 ^ 16

unfoldable pub kernel_free_pages : ℕ → ℕ
kernel_free_pages all_mem = all_free_pages all_mem / 4

unfoldable pub user_free_pages : ℕ → ℕ
user_free_pages all_mem = all_free_pages all_mem - kernel_free_pages all_mem

-- a bitmap of `len` bytes at `base`, cleared; `memory` is what memory held, by byte address
abbrev pub bitmap_at : (memory : ℕ → ℕ) (base len : ℕ) → Bitmap
bitmap_at memory base len =
    bitmap_init (record { btmp_bytes_len = len; bits = λ i. memory (base + i) })

unfoldable pub kernel_bits : ℕ
kernel_bits = mem_bitmap_base

unfoldable pub user_bits : ℕ → ℕ
user_bits all_mem = mem_bitmap_base + kernel_free_pages all_mem / 8

unfoldable pub vaddr_bits : ℕ → ℕ
vaddr_bits all_mem = mem_bitmap_base + kernel_free_pages all_mem / 8 + user_free_pages all_mem / 8

-- The three globals are filled; `m` holds the rest.
unfoldable pub mem_pool_init : (memory : ℕ → ℕ) (all_mem : ℕ) → Memory → Memory
mem_pool_init memory all_mem m =
    let kbm_length = kernel_free_pages all_mem / 8 in
    let ubm_length = user_free_pages all_mem / 8 in
    record m {
      kernel_pool = record {
        pool_bitmap = bitmap_at memory kernel_bits kbm_length;
        phy_addr_start = used_mem;
        pool_size = kernel_free_pages all_mem * pg_size;
      };
      user_pool = record {
        pool_bitmap = bitmap_at memory (user_bits all_mem) ubm_length;
        phy_addr_start = used_mem + kernel_free_pages all_mem * pg_size;
        pool_size = user_free_pages all_mem * pg_size;
      };
      kernel_vaddr = record {
        vaddr_bitmap = bitmap_at memory (vaddr_bits all_mem) kbm_length;
        vaddr_start = k_heap_start;
      };
    }
