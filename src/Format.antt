-- ===== src/Format.antt =====
-- partition_format of fs.c: the layout of a partition and what is written to it. A buffer from
-- sys_malloc is zeroed, and its answer is not tested. The padding of the super block is not
-- initialised: `garbage`. Differences are uint32_t.
pub mod Layout
pub mod FreeBlocks
mod Tests
use Prim.Native.Nat.{bit_or}
use ukernel.Prelude.{
  ℕ, zero, suc, ◌+◌, ◌-◌, ◌*◌, ◌/◌, ◌%◌, ◌^◌, Bool, true, false, not, ◌&&◌, ltb, leb, ◌==◌,
  if◌then◌else◌, update, Outcome, ret, ◌>>=◌,
}
use ukernel.Bitmap.{byte_set}
use ukernel.Disk.{ide_write}
use ukernel.Inode.{Inode, blank, byte_of, inode_bytes}
use ukernel.File.Write.{minus}

-- DIV_ROUND_UP
unfoldable pub div_round_up : (x step : ℕ) → ℕ
div_round_up x step = (x + step - 1) / step

-- struct super_block, without the padding
pub record SuperBlock : Type 0 where
  pub magic : ℕ
  pub sec_cnt : ℕ
  pub inode_cnt : ℕ
  pub part_lba_base : ℕ
  pub block_bitmap_lba : ℕ
  pub block_bitmap_sects : ℕ
  pub inode_bitmap_lba : ℕ
  pub inode_bitmap_sects : ℕ
  pub inode_table_lba : ℕ
  pub inode_table_sects : ℕ
  pub data_start_lba : ℕ
  pub root_inode_no : ℕ
  pub dir_entry_size : ℕ

-- MAX_FILES_PER_PART inodes of 76 bytes
abbrev pub inode_table_sects : ℕ
inode_table_sects = 608

-- boot sector, super block, inode bitmap, inode table
abbrev pub used_sects : ℕ
used_sects = 1 + 1 + 1 + inode_table_sects

-- the bits of the block bitmap that stand for blocks
unfoldable pub block_bitmap_bit_len : (sec_cnt : ℕ) → ℕ
block_bitmap_bit_len sec_cnt =
    let free_sects = minus sec_cnt used_sects in minus free_sects (div_round_up free_sects 4096)

unfoldable pub super_block_of : (start_lba sec_cnt : ℕ) → SuperBlock
super_block_of start_lba sec_cnt =
    let bitmap_sects = div_round_up (block_bitmap_bit_len sec_cnt) 4096 in
    let bitmap_lba = start_lba + 2 in
    record {
      magic = 0x19970630;
      sec_cnt = sec_cnt;
      inode_cnt = 4096;
      part_lba_base = start_lba;
      block_bitmap_lba = bitmap_lba;
      block_bitmap_sects = bitmap_sects;
      inode_bitmap_lba = bitmap_lba + bitmap_sects;
      inode_bitmap_sects = 1;
      inode_table_lba = bitmap_lba + bitmap_sects + 1;
      inode_table_sects = inode_table_sects;
      data_start_lba = bitmap_lba + bitmap_sects + 1 + inode_table_sects;
      root_inode_no = 0;
      dir_entry_size = 24;
    }

unfoldable pub super_block_word : SuperBlock → (garbage : ℕ → ℕ) → ℕ → ℕ
super_block_word sb garbage k =
    if k == 0
    then sb.magic
    else if k == 1
    then sb.sec_cnt
    else if k == 2
    then sb.inode_cnt
    else if k == 3
    then sb.part_lba_base
    else if k == 4
    then sb.block_bitmap_lba
    else if k == 5
    then sb.block_bitmap_sects
    else if k == 6
    then sb.inode_bitmap_lba
    else if k == 7
    then sb.inode_bitmap_sects
    else if k == 8
    then sb.inode_table_lba
    else if k == 9
    then sb.inode_table_sects
    else if k == 10
    then sb.data_start_lba
    else if k == 11
    then sb.root_inode_no
    else if k == 12
    then sb.dir_entry_size
    else garbage k

abbrev pub bytes_of : (ℕ → ℕ) → ℕ → ℕ
bytes_of words i = byte_of (words (i / 4)) (i % 4)

-- while (bit_idx <= block_bitmap_last_bit) byte &= ~(1 << bit_idx++);
unfoldable pub clear_bits : (left bit_idx byte : ℕ) → ℕ
clear_bits zero bit_idx byte = byte
clear_bits (suc left) bit_idx byte = clear_bits left (bit_idx + 1) (byte_set 0 byte bit_idx)

-- the block bitmap of a new partition
unfoldable pub new_block_bitmap : (bit_len : ℕ) → ℕ → ℕ
new_block_bitmap bit_len =
    let last_byte = bit_len / 8 in
    let last_size = 512 - last_byte % 512 in
    let reserved = update blank 0 (bit_or 0 0x01) in
    let filled =
      λ (i : ℕ). if leb last_byte i && ltb i (last_byte + last_size) then 0xff else reserved i in
    update filled last_byte (clear_bits (bit_len % 8 + 1) 0 (filled last_byte))

-- the inode of the root directory, which holds the entries `.` and `..`
abbrev pub root_inode : SuperBlock → Inode
root_inode sb = record {
  i_no = 0;
  i_size = sb.dir_entry_size * 2;
  i_open_cnts = 0;
  write_deny = 0;
  i_sectors = λ k. if k == 0 then sb.data_start_lba else 0;
}

-- inode 0 in a table that is zero otherwise
abbrev pub new_inode_table : SuperBlock → ℕ → ℕ
new_inode_table sb i = if ltb i 76 then inode_bytes (root_inode sb) i else 0

-- the names, and FT_DIRECTORY, 2, in the sixth word of each entry; the inode numbers are 0
abbrev pub root_entries : ℕ → ℕ
root_entries i =
    if i == 0
    then b'.'
    else if i == 20
    then 2
    else if i == 24
    then b'.'
    else if i == 25
    then b'.'
    else if i == 44
    then 2
    else 0

unfoldable pub partition_format :
    (dev_no start_lba sec_cnt : ℕ) (garbage disk : ℕ → ℕ) → Outcome (ℕ → ℕ)
partition_format dev_no start_lba sec_cnt garbage disk = do
  let sb = super_block_of start_lba sec_cnt
  disk1 ← ide_write dev_no disk (start_lba + 1) (bytes_of (super_block_word sb garbage)) 1
  disk2 ←
      ide_write dev_no disk1 sb.block_bitmap_lba (new_block_bitmap (block_bitmap_bit_len sec_cnt))
        sb.block_bitmap_sects
  disk3 ←
      ide_write dev_no disk2 sb.inode_bitmap_lba (update blank 0 (bit_or 0 0x1))
        sb.inode_bitmap_sects
  disk4 ← ide_write dev_no disk3 sb.inode_table_lba (new_inode_table sb) sb.inode_table_sects
  ide_write dev_no disk4 sb.data_start_lba root_entries 1
