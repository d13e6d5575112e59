-- ===== src/Format/Layout.antt =====
-- The regions that partition_format of fs.c lays out.
use ukernel.Prelude.{ℕ, ◌+◌, ◌-◌, ◌*◌, ◌/◌, ◌^◌, ◌≤◌, ◌<◌, ◌≡◌, refl, arith}
use ukernel.File.Write.{minus}
use ukernel.Format.{div_round_up, used_sects, block_bitmap_bit_len, super_block_of}

minus_small : (a b : ℕ) → b ≤ a → a < 2 ^ 32 → minus a b ≡ a - b
minus_small a b le small = omega arith

-- How many blocks there are, and what their bitmap takes.
bit_len_lem :
    (sec_cnt : ℕ)
    → used_sects < sec_cnt
    → sec_cnt < 2 ^ 32
    → block_bitmap_bit_len sec_cnt
      ≡ (sec_cnt - used_sects) - (sec_cnt - used_sects + 4096 - 1) / 4096
unfolding block_bitmap_bit_len div_round_up
bit_len_lem sec_cnt room small =
    let free : minus sec_cnt used_sects ≡ sec_cnt - used_sects = omega arith in
    rw free (
      minus_small (sec_cnt - used_sects) ((sec_cnt - used_sects + 4096 - 1) / 4096) (omega arith)
        (omega arith))

-- What partition_format promises of a partition of more than 611 sectors on the 163840 of a drive: the
-- regions follow one another, every block has a bit, the blocks end where the partition ends or one
-- sector before.
pub record LaidOut (start_lba sec_cnt : ℕ) : Type 0 where
  pub bitmap : (super_block_of start_lba sec_cnt).block_bitmap_lba ≡ start_lba + 2
  pub inode_bitmap :
      (super_block_of start_lba sec_cnt).inode_bitmap_lba
      ≡ (super_block_of start_lba sec_cnt).block_bitmap_lba
        + (super_block_of start_lba sec_cnt).block_bitmap_sects
  pub table :
      (super_block_of start_lba sec_cnt).inode_table_lba
      ≡ (super_block_of start_lba sec_cnt).inode_bitmap_lba
        + (super_block_of start_lba sec_cnt).inode_bitmap_sects
  pub inodes : 4096 * 76 ≤ (super_block_of start_lba sec_cnt).inode_table_sects * 512
  pub blocks :
      (super_block_of start_lba sec_cnt).data_start_lba
      ≡ (super_block_of start_lba sec_cnt).inode_table_lba
        + (super_block_of start_lba sec_cnt).inode_table_sects
  pub bits :
      block_bitmap_bit_len sec_cnt ≤ (super_block_of start_lba sec_cnt).block_bitmap_sects * 4096
  pub inside :
      (super_block_of start_lba sec_cnt).data_start_lba + block_bitmap_bit_len sec_cnt
      ≤ start_lba + sec_cnt
  pub full :
      start_lba + sec_cnt
      ≤ (super_block_of start_lba sec_cnt).data_start_lba + block_bitmap_bit_len sec_cnt + 1

-- For a partition of more than 611 sectors and at most the 163840 of a drive, boot sector, super
-- block, block bitmap, inode bitmap, inode table and blocks follow one another, the table has room for
-- 4096 inodes of 76 bytes, every block has a bit, and the blocks end with the partition or one sector
-- before its end.
pub super_block_of-LaidOut :
    (start_lba sec_cnt : ℕ) → 611 < sec_cnt → sec_cnt ≤ 163840 → LaidOut start_lba sec_cnt
unfolding super_block_of div_round_up
super_block_of-LaidOut start_lba sec_cnt room small =
    let len = bit_len_lem sec_cnt room (omega arith) in
    record {
      bitmap = refl;
      inode_bitmap = refl;
      table = refl;
      inodes = omega arith;
      blocks = refl;
      bits = omega arith;
      inside = omega (arith, len);
      full = omega (arith, len);
    }
