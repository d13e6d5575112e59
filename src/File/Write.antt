-- ===== src/File/Write.antt =====
-- file_write of file.c: the blocks it needs, and the loop that writes them. all_blocks is 140 words,
-- zeroed by sys_malloc. A loop's first argument is what it has left to do.
use ukernel.Prelude.{
  ℕ, zero, suc, ◌+◌, ◌-◌, ◌*◌, ◌/◌, ◌%◌, ◌^◌, Bool, true, false, not, ◌&&◌, ltb, leb, ◌==◌,
  if◌then◌else◌, update,
}
use ukernel.Disk.{copy_bytes, ide_read, ide_write}
use ukernel.Inode.{Inode, Fs, blank, byte_of, word_at, inode_sync}
use ukernel.File.{
  Action, ◌>>=◌, ◌>>◌, done, give, state, reject_if, check, lift, malloc, put_disk, put_inode,
  put_file, block_bitmap_alloc, bitmap_sync, block_map,
}

-- a - b on uint32_t
abbrev pub minus : ℕ → ℕ → ℕ
minus a b = (a + (2 ^ 32 - b)) % 2 ^ 32

-- i_sectors[idx] = value
abbrev pub set_sector : (addr idx value : ℕ) → Action (Unit {0})
set_sector addr idx value = do
  fs ← state
  let inode = fs.inodes addr
  put_inode addr (record inode { i_sectors = update inode.i_sectors idx value })

abbrev pub inode_at : (addr : ℕ) → Action Inode
inode_at addr fs = done (fs.inodes addr) fs

-- the index of a block in the bitmap
abbrev pub block_bitmap_idx : Fs → (block_lba : ℕ) → ℕ
block_bitmap_idx fs block_lba = minus block_lba fs.part.data_start_lba

-- the sector of the bitmap that says a block is taken goes to the disk
abbrev pub sync_block : (block_lba : ℕ) → Action (Unit {0})
sync_block block_lba = do fs ← state; bitmap_sync (block_bitmap_idx fs block_lba) block_map

-- if (i_sectors[0] == 0) ...
unfoldable pub first_block : (addr : ℕ) → Action (Unit {0})
first_block addr = do
  inode ← inode_at addr
  if inode.i_sectors 0 == 0
      then (do
        block_lba ← block_bitmap_alloc
        set_sector addr 0 block_lba
        fs ← state
        check (not (block_bitmap_idx fs block_lba == 0))
        sync_block block_lba)
      else give tt

-- all_blocks + 12, as bytes, and the words there once the bytes are read
abbrev pub table_bytes : (all_blocks : ℕ → ℕ) → ℕ → ℕ
table_bytes all_blocks i = byte_of (all_blocks (12 + i / 4)) (i % 4)

unfoldable pub with_table : (all_blocks table : ℕ → ℕ) → ℕ → ℕ
with_table all_blocks table k =
    if leb 12 k && ltb k 140 then word_at table (4 * (k - 12)) else all_blocks k

-- ide_read(..., indirect_block_table, all_blocks + 12, 1)
unfoldable pub read_table : (indirect_block_table : ℕ) (all_blocks : ℕ → ℕ) → Action (ℕ → ℕ)
read_table indirect_block_table all_blocks = do
  fs ← state
  table ← lift (ide_read fs.part.dev_no fs.disk indirect_block_table (table_bytes all_blocks) 1)
  give (with_table all_blocks table)

-- ide_write(..., indirect_block_table, all_blocks + 12, 1)
unfoldable pub write_table : (indirect_block_table : ℕ) (all_blocks : ℕ → ℕ) → Action (Unit {0})
write_table indirect_block_table all_blocks = do
  fs ← state
  disk ← lift (ide_write fs.part.dev_no fs.disk indirect_block_table (table_bytes all_blocks) 1)
  put_disk disk

-- the loop of situation 1: all new blocks are direct
unfoldable pub add_direct : (left addr block_idx : ℕ) (all_blocks : ℕ → ℕ) → Action (ℕ → ℕ)
add_direct zero addr block_idx all_blocks = give all_blocks
add_direct (suc left) addr block_idx all_blocks = do
  block_lba ← block_bitmap_alloc
  inode ← inode_at addr
  check (inode.i_sectors block_idx == 0)
  set_sector addr block_idx block_lba
  sync_block block_lba
  add_direct left addr (block_idx + 1) (update all_blocks block_idx block_lba)

-- a new block's place in the inode, if it is direct
unfoldable pub place_direct : (addr block_idx block_lba : ℕ) → Action (Unit {0})
place_direct addr block_idx block_lba = do
  inode ← inode_at addr
  check (inode.i_sectors block_idx == 0)
  set_sector addr block_idx block_lba

-- the loop of situation 2: some new blocks are direct, some not
unfoldable pub add_mixed : (left addr block_idx : ℕ) (all_blocks : ℕ → ℕ) → Action (ℕ → ℕ)
add_mixed zero addr block_idx all_blocks = give all_blocks
add_mixed (suc left) addr block_idx all_blocks = do
  block_lba ← block_bitmap_alloc
  if ltb block_idx 12 then place_direct addr block_idx block_lba else give tt
  sync_block block_lba
  add_mixed left addr (block_idx + 1) (update all_blocks block_idx block_lba)

-- the loop of situation 3: no new block is direct
unfoldable pub add_indirect : (left block_idx : ℕ) (all_blocks : ℕ → ℕ) → Action (ℕ → ℕ)
add_indirect zero block_idx all_blocks = give all_blocks
add_indirect (suc left) block_idx all_blocks = do
  block_lba ← block_bitmap_alloc
  sync_block block_lba
  add_indirect left (block_idx + 1) (update all_blocks block_idx block_lba)

-- add_blocks == 0
unfoldable pub same_block : (addr has_used : ℕ) (all_blocks : ℕ → ℕ) → Action (ℕ → ℕ)
same_block addr has_used all_blocks = do
  inode ← inode_at addr
  if leb has_used 12
      then give (update all_blocks (has_used - 1) (inode.i_sectors (has_used - 1)))
      else (do check (not (inode.i_sectors 12 == 0)); read_table (inode.i_sectors 12) all_blocks)

-- add_blocks != 0, in the three situations
unfoldable pub more_blocks : (addr has_used will_use : ℕ) (all_blocks : ℕ → ℕ) → Action (ℕ → ℕ)
more_blocks addr has_used will_use all_blocks = do
  inode ← inode_at addr
  let last = inode.i_sectors (has_used - 1)
  let from_last = update all_blocks (has_used - 1) last
  if leb will_use 12
      then (do check (not (last == 0)); add_direct (will_use - has_used) addr has_used from_last)
      else if leb has_used 12
      then (do
        indirect_block_table ← block_bitmap_alloc
        check (inode.i_sectors 12 == 0)
        set_sector addr 12 indirect_block_table
        blocks ← add_mixed (will_use - has_used) addr has_used from_last
        write_table indirect_block_table blocks
        give blocks)
      else (do
        check (not (inode.i_sectors 12 == 0))
        table ← read_table (inode.i_sectors 12) all_blocks
        blocks ← add_indirect (will_use - has_used) has_used table
        write_table (inode.i_sectors 12) blocks
        give blocks)

-- chunk_size: what is left to move, or to the end of the block of `pos`
unfoldable pub next_chunk : (pos size_left : ℕ) → ℕ
next_chunk pos size_left = if ltb size_left (512 - pos % 512) then size_left else 512 - pos % 512

-- while (bytes_written < count): `size_left` is count - bytes_written. io_buf is zeroed each time.
unfoldable pub write_blocks :
    (fuel slot addr : ℕ) (all_blocks buf : ℕ → ℕ) (bytes_written size_left : ℕ) (first : Bool)
    → Action ℕ
write_blocks zero slot addr all_blocks buf bytes_written size_left first = give bytes_written
write_blocks (suc fuel) slot addr all_blocks buf bytes_written size_left first =
    let rest =
      λ (written left : ℕ). write_blocks fuel slot addr all_blocks buf written left false in
    if size_left == 0 then give bytes_written else (do
      fs ← state
      let inode = fs.inodes addr
      let sec_lba = all_blocks (inode.i_size / 512)
      let sec_off_bytes = inode.i_size % 512
      let chunk_size = next_chunk inode.i_size size_left
      io_buf ←
          (if first then lift (ide_read fs.part.dev_no fs.disk sec_lba blank 1) else give blank)
      disk ← lift (
          ide_write fs.part.dev_no fs.disk sec_lba
            (copy_bytes buf bytes_written io_buf sec_off_bytes chunk_size) 1)
      put_disk disk
      put_inode addr (record inode { i_size = (inode.i_size + chunk_size) % 2 ^ 32 })
      let file = fs.file_table slot
      put_file slot (record file { fd_pos = (file.fd_pos + chunk_size) % 2 ^ 32 })
      rest (bytes_written + chunk_size) (size_left - chunk_size))

-- The inode as it is when the first block is there.
unfoldable pub collect_blocks : (addr count : ℕ) → Action (ℕ → ℕ)
collect_blocks addr count = do
  inode ← inode_at addr
  let has_used = inode.i_size / 512 + 1
  let will_use = (inode.i_size + count) % 2 ^ 32 / 512 + 1
  check (leb will_use 140)
  if will_use == has_used
      then same_block addr has_used blank
      else more_blocks addr has_used will_use blank

unfoldable pub file_write : (slot : ℕ) (buf : ℕ → ℕ) (count : ℕ) → Action ℕ
file_write slot buf count = do
  fs ← state
  let addr = (fs.file_table slot).fd_inode
  reject_if (ltb (512 * 140) (((fs.inodes addr).i_size + count) % 2 ^ 32))
  io_buf ← malloc
  blocks_buf ← malloc
  first_block addr
  all_blocks ← collect_blocks addr count
  fs1 ← state
  let file = fs1.file_table slot
  put_file slot (record file { fd_pos = minus (fs1.inodes addr).i_size 1 })
  bytes_written ← write_blocks count slot addr all_blocks buf 0 count true
  fs2 ← state
  disk ← lift (inode_sync fs2.part fs2.disk (fs2.inodes addr) blank)
  put_disk disk
  give bytes_written
