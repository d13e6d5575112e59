-- ===== src/Disk.antt =====
-- ide.c: the registers that choose the sectors, ide_read and ide_write, and busy_wait. The drive is
-- the bytes it holds: it transfers the sectors that its registers name, as the ATA standard says,
-- and always ends with its interrupt and with data ready, so the PANIC of ide_read and ide_write
-- behind a busy_wait that fails is left out. The channel's lock, which Sync models, keeps other threads
-- off, so a transfer is one step. A buffer is memory from its first byte on.
pub mod Transfer
pub mod Timeout
mod Tests
use Prim.Native.Nat.{bit_and, bit_or}
use ukernel.Prelude.{
  ℕ, zero, suc, ◌+◌, ◌-◌, ◌*◌, ◌/◌, ◌%◌, ◌^◌, Bool, true, false, not, ◌&&◌, ltb, leb, ◌==◌,
  if◌then◌else◌, Outcome, ret, ◌>>=◌, ◌>>◌, assert,
}
use ukernel.Timer.{msleep}

abbrev pub sector_size : ℕ
sector_size = 512

-- (80*1024*1024/512) - 1
abbrev pub max_lba : ℕ
max_lba = 163839

-- `size` bytes of `src` from `from` on, written to `dst` at `to`: memcpy of string.c, insw and outsw
unfoldable pub copy_bytes : (src : ℕ → ℕ) (from : ℕ) (dst : ℕ → ℕ) (to size : ℕ) → ℕ → ℕ
copy_bytes src from dst to size i =
    if leb to i && ltb i (to + size) then src (from + (i - to)) else dst i

-- what select_sector writes to the registers of the channel
pub record Selected : Type 0 where
  pub reg_sect_cnt : ℕ
  pub reg_lba_l : ℕ
  pub reg_lba_m : ℕ
  pub reg_lba_h : ℕ
  pub reg_dev : ℕ

-- `sec_cnt` is cut to the uint8_t of the parameter, each value to the byte of the port.
unfoldable pub select_sector : (dev_no lba sec_cnt : ℕ) → Outcome Selected
select_sector dev_no lba sec_cnt = do
  assert (leb lba max_lba)
  ret record {
    reg_sect_cnt = sec_cnt % 256;
    reg_lba_l = lba % 256;
    reg_lba_m = lba / 256 % 256;
    reg_lba_h = lba / 65536 % 256;
    reg_dev = bit_or (bit_or 0xe0 (if dev_no == 1 then 0x10 else 0)) (lba / 2 ^ 24) % 256;
  }

-- The sector that the registers name: 28 bits of logical block address.
unfoldable pub named_sector : Selected → ℕ
named_sector regs =
    regs.reg_lba_l + 256 * regs.reg_lba_m + 65536 * regs.reg_lba_h + 2 ^ 24 * (regs.reg_dev % 16)

-- size_in_byte of read_from_sector and write2sector, whose sec_cnt is a uint8_t
unfoldable pub size_in_byte : ℕ → ℕ
size_in_byte sec_cnt = if sec_cnt % 256 == 0 then 256 * 512 else sec_cnt % 256 * 512

-- the size of the next transfer
unfoldable pub next_op : (sec_cnt secs_done : ℕ) → ℕ
next_op sec_cnt secs_done = if leb (secs_done + 256) sec_cnt then 256 else sec_cnt - secs_done

-- while(secs_done < sec_cnt) of ide_read
unfoldable pub read_sectors :
    (fuel dev_no : ℕ) (disk : ℕ → ℕ) (lba sec_cnt secs_done : ℕ) (buf : ℕ → ℕ) → Outcome (ℕ → ℕ)
read_sectors zero dev_no disk lba sec_cnt secs_done buf = ret buf
read_sectors (suc fuel) dev_no disk lba sec_cnt secs_done buf =
    let secs_op = next_op sec_cnt secs_done in
    let rest = do
      regs ← select_sector dev_no (lba + secs_done) secs_op
      let buf' =
          copy_bytes disk (named_sector regs * 512) buf (secs_done * 512) (size_in_byte secs_op)
      read_sectors fuel dev_no disk lba sec_cnt (secs_done + secs_op) buf'
    in if ltb secs_done sec_cnt then rest else ret buf

unfoldable pub ide_read :
    (dev_no : ℕ) (disk : ℕ → ℕ) (lba : ℕ) (buf : ℕ → ℕ) (sec_cnt : ℕ) → Outcome (ℕ → ℕ)
ide_read dev_no disk lba buf sec_cnt = do
  assert (leb lba max_lba)
  assert (ltb 0 sec_cnt)
  read_sectors sec_cnt dev_no disk lba sec_cnt 0 buf

-- while(secs_done < sec_cnt) of ide_write
unfoldable pub write_sectors :
    (fuel dev_no : ℕ) (disk : ℕ → ℕ) (lba : ℕ) (buf : ℕ → ℕ) (sec_cnt secs_done : ℕ)
    → Outcome (ℕ → ℕ)
write_sectors zero dev_no disk lba buf sec_cnt secs_done = ret disk
write_sectors (suc fuel) dev_no disk lba buf sec_cnt secs_done =
    let secs_op = next_op sec_cnt secs_done in
    let rest = do
      regs ← select_sector dev_no (lba + secs_done) secs_op
      let disk' =
          copy_bytes buf (secs_done * 512) disk (named_sector regs * 512) (size_in_byte secs_op)
      write_sectors fuel dev_no disk' lba buf sec_cnt (secs_done + secs_op)
    in if ltb secs_done sec_cnt then rest else ret disk

unfoldable pub ide_write :
    (dev_no : ℕ) (disk : ℕ → ℕ) (lba : ℕ) (buf : ℕ → ℕ) (sec_cnt : ℕ) → Outcome (ℕ → ℕ)
ide_write dev_no disk lba buf sec_cnt = do
  assert (leb lba max_lba)
  assert (ltb 0 sec_cnt)
  write_sectors sec_cnt dev_no disk lba buf sec_cnt 0

-- busy_wait over what the status port answers, read by read. `>=` binds tighter than `-=`, so the
-- step is `time_limit -= (10 >= 0)`: one less. The answer is the flag and the ticks waited for.
unfoldable pub busy_wait : (time_limit : ℕ) (status : ℕ → ℕ) (reads slept : ℕ) → Outcome (ℕ × ℕ)
busy_wait zero status reads slept = ret (0, slept)
busy_wait (suc left) status reads slept =
    let rest = do sleep_ticks ← msleep 10; busy_wait left status (reads + 1) (slept + sleep_ticks)
    in if left == 0
      then ret (0, slept)
      else if bit_and (status reads) 0x80 == 0
      then ret (bit_and (status (reads + 1)) 0x8, slept)
      else rest
