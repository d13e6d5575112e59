-- ===== src/Pid.antt =====
-- The pid pool of thread.c: pids are the bit numbers of a bitmap of 128 bytes, from pid_start on.
-- Each routine runs under pid_lock, so it is one step here.
pub mod Pool
mod Tests
use ukernel.Prelude.{ℕ, ◌+◌, ◌-◌, ◌%◌, ◌^◌, Option, none, some, Outcome, ret, ◌>>=◌, ◌>>◌}
use ukernel.Bitmap.{Bitmap, bitmap_init, bitmap_scan, bitmap_set}

abbrev pub pid_start : ℕ
pid_start = 1

-- pid_bitmap with its 128 bytes cleared; `memory` is what memory held.
unfoldable pub pid_pool_init : (memory : ℕ → ℕ) → Bitmap
pid_pool_init memory = bitmap_init (record { btmp_bytes_len = 128; bits = memory })

-- the scan's int32_t as the uint32_t that bitmap_set takes: -1 is 0xffffffff
abbrev pub bit_index : Option ℕ → ℕ
bit_index none = 2 ^ 32 - 1
bit_index (some s) = s

-- The sum is returned as a pid_t of 16 bits.
unfoldable pub allocate_pid : Bitmap → Outcome (ℕ × Bitmap)
allocate_pid b = do
  found ← bitmap_scan b 1
  b' ← bitmap_set b (bit_index found) 1
  ret ((bit_index found + pid_start) % 2 ^ 16, b')

-- pid - pid_start, as the uint32_t that bitmap_set takes
unfoldable pub release_pid : ℕ → Bitmap → Outcome Bitmap
release_pid pid b = bitmap_set b ((pid + 2 ^ 32 - pid_start) % 2 ^ 32) 0

unfoldable pub fork_pid : Bitmap → Outcome (ℕ × Bitmap)
fork_pid b = allocate_pid b
