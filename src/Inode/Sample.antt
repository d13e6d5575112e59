-- ===== src/Inode/Sample.antt =====
-- A mounted partition for the tests of inode.c, file.c and fs.c: the inode at every address is number
-- 3, of 700 bytes in two sectors, and opened twice; only the one at 100 is in the list.
use ukernel.Prelude.{ℕ, none, [], ◌∷◌, ◌==◌, if◌then◌else◌}
use ukernel.Bitmap.{Bitmap}
use ukernel.Inode.{Partition, Inode, Fs, blank}

abbrev pub part : Partition
part = record {
  dev_no = 1;
  start_lba = 2048;
  sec_cnt = 20000;
  block_bitmap_lba = 2050;
  inode_bitmap_lba = 2055;
  inode_table_lba = 2056;
  data_start_lba = 2664;
}

abbrev pub no_bits : Bitmap
no_bits = record { btmp_bytes_len = 512; bits = blank }

-- inode `n`, of 700 bytes in two sectors
abbrev pub two_blocks : ℕ → Inode
two_blocks n = record {
  i_no = n;
  i_size = 700;
  i_open_cnts = 2;
  write_deny = 1;
  i_sectors = λ k. if k == 0 then 2700 else if k == 1 then 2701 else 0;
}

abbrev pub mounted : Fs
mounted = record {
  part = part;
  disk = blank;
  block_bitmap = no_bits;
  inode_bitmap = no_bits;
  inodes = λ a. two_blocks 3;
  open_inodes = 100 ∷ [];
  file_table = λ i. record { fd_pos = 0; fd_flag = 0; fd_inode = 0 };
  fd_table = λ i. none;
  answers = 200 ∷ 300 ∷ [];
}
