-- ===== src/File/Read.antt =====
-- file_read of file.c: the blocks it needs, and the loop that reads them. all_blocks is 140 words,
-- zeroed by sys_malloc.
use ukernel.Prelude.{
  ℕ, zero, suc, ◌+◌, ◌-◌, ◌/◌, ◌%◌, ◌^◌, not, ◌&&◌, ltb, ◌==◌, if◌then◌else◌, update,
}
use ukernel.Disk.{copy_bytes, ide_read}
use ukernel.Inode.{Inode, File, blank, sys_malloc}
use ukernel.File.{Action, ◌>>=◌, ◌>>◌, done, give, state, reject_if, check, lift, malloc, put_file}
use ukernel.File.Write.{minus, inode_at, read_table, next_chunk}

-- while (block_idx < end): the direct blocks from block_idx on
unfoldable pub direct_blocks : (left block_idx : ℕ) → Inode → (all_blocks : ℕ → ℕ) → ℕ → ℕ
direct_blocks zero block_idx inode all_blocks = all_blocks
direct_blocks (suc left) block_idx inode all_blocks =
    direct_blocks left (block_idx + 1) inode
      (update all_blocks block_idx (inode.i_sectors block_idx))

-- read_blocks == 0
unfoldable pub one_block : (addr block_idx : ℕ) → Action (ℕ → ℕ)
one_block addr block_idx = do
  inode ← inode_at addr
  if ltb block_idx 12
      then give (update blank block_idx (inode.i_sectors block_idx))
      else read_table (inode.i_sectors 12) blank

-- read_blocks != 0
unfoldable pub many_blocks : (addr start_idx end_idx : ℕ) → Action (ℕ → ℕ)
many_blocks addr start_idx end_idx = do
  inode ← inode_at addr
  if ltb end_idx 12
      then give (direct_blocks (end_idx + 1 - start_idx) start_idx inode blank)
      else if ltb start_idx 12
      then (do
        check (not (inode.i_sectors 12 == 0))
        read_table (inode.i_sectors 12) (direct_blocks (12 - start_idx) start_idx inode blank))
      else (do check (not (inode.i_sectors 12 == 0)); read_table (inode.i_sectors 12) blank)

unfoldable pub gather_blocks : (addr start_idx end_idx : ℕ) → Action (ℕ → ℕ)
gather_blocks addr start_idx end_idx =
    if start_idx == end_idx then one_block addr end_idx else many_blocks addr start_idx end_idx

-- while (bytes_read < size): `size_left` is size - bytes_read. A NULL io_buf fails memset's ASSERT.
unfoldable pub read_loop :
    (fuel slot io_buf : ℕ) (all_blocks : ℕ → ℕ) (bytes_read size_left : ℕ) (buf : ℕ → ℕ)
    → Action (ℕ × (ℕ → ℕ))
read_loop zero slot io_buf all_blocks bytes_read size_left buf = give (bytes_read, buf)
read_loop (suc fuel) slot io_buf all_blocks bytes_read size_left buf =
    let rest = read_loop fuel slot io_buf all_blocks in
    if size_left == 0 then give (bytes_read, buf) else (do
      fs ← state
      let file = fs.file_table slot
      let sec_lba = all_blocks (file.fd_pos / 512)
      let sec_off_bytes = file.fd_pos % 512
      let chunk_size = next_chunk file.fd_pos size_left
      check (not (io_buf == 0))
      sector ← lift (ide_read fs.part.dev_no fs.disk sec_lba blank 1)
      put_file slot (record file { fd_pos = (file.fd_pos + chunk_size) % 2 ^ 32 })
      rest (bytes_read + chunk_size) (size_left - chunk_size)
          (copy_bytes sector sec_off_bytes buf bytes_read chunk_size))

-- how much there is to read
unfoldable pub read_size : File → Inode → (count : ℕ) → ℕ
read_size file inode count =
    if ltb inode.i_size ((file.fd_pos + count) % 2 ^ 32)
    then minus inode.i_size file.fd_pos
    else count

-- The answer is the number of bytes read, and `buf` after the call. Where io_buf is NULL the source
-- goes on.
unfoldable pub file_read : (slot : ℕ) (buf : ℕ → ℕ) (count : ℕ) → Action (ℕ × (ℕ → ℕ))
file_read slot buf count = do
  fs ← state
  let file = fs.file_table slot
  let addr = file.fd_inode
  let inode = fs.inodes addr
  let size = read_size file inode count
  reject_if (ltb inode.i_size ((file.fd_pos + count) % 2 ^ 32) && (size == 0))
  io_buf ← (λ fs1. done (sys_malloc fs1).0 (sys_malloc fs1).1)
  blocks_buf ← malloc
  let start_idx = file.fd_pos / 512
  let end_idx = (file.fd_pos + size) % 2 ^ 32 / 512
  check (ltb start_idx 139 && ltb end_idx 139)
  all_blocks ← gather_blocks addr start_idx end_idx
  read_loop size slot io_buf all_blocks 0 size buf
