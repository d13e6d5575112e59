-- ===== src/File/Release.antt =====
-- inode_release of inode.c: the blocks of an inode and the inode are given back.
use ukernel.Prelude.{ℕ, zero, suc, ◌+◌, not, ltb, ◌==◌, if◌then◌else◌}
use ukernel.Bitmap.{bitmap_set}
use ukernel.Inode.{blank, inode_open, inode_close, inode_delete}
use ukernel.File.{
  Action, ◌>>=◌, ◌>>◌, give, state, check, lift, opened, put_disk, bitmap_sync, inode_map,
  block_map, change,
}
use ukernel.File.Write.{block_bitmap_idx, inode_at, read_table}

-- the block's bit is cleared, in memory and on the disk
unfoldable pub free_block : (block_lba : ℕ) → Action (Unit {0})
free_block block_lba = do
  fs ← state
  check (not (block_bitmap_idx fs block_lba == 0))
  b ← lift (bitmap_set fs.block_bitmap (block_bitmap_idx fs block_lba) 0)
  change (λ fs'. record fs' { block_bitmap = b })
  bitmap_sync (block_bitmap_idx fs block_lba) block_map

-- while (block_idx < block_cnt), with `left` blocks to go
unfoldable pub free_blocks : (left block_idx : ℕ) (all_blocks : ℕ → ℕ) → Action (Unit {0})
free_blocks zero block_idx all_blocks = give tt
free_blocks (suc left) block_idx all_blocks = do
  if all_blocks block_idx == 0 then give tt else free_block (all_blocks block_idx)
  free_blocks left (block_idx + 1) all_blocks

-- the direct blocks, and behind them those of the indirect block, which is given back itself
unfoldable pub release_blocks : (addr : ℕ) → Action (Unit {0})
release_blocks addr = do
  inode ← inode_at addr
  let direct = λ (k : ℕ). if ltb k 12 then inode.i_sectors k else 0
  if inode.i_sectors 12 == 0 then free_blocks 12 0 direct else (do
    all_blocks ← read_table (inode.i_sectors 12) direct
    free_block (inode.i_sectors 12)
    free_blocks 140 0 all_blocks)

-- The buffer for inode_delete, which sys_malloc answers last, is not tested.
unfoldable pub inode_release : (inode_no : ℕ) → Action (Unit {0})
inode_release inode_no = do
  addr ← (λ fs. opened (inode_open fs inode_no))
  inode ← inode_at addr
  check (inode.i_no == inode_no)
  release_blocks addr
  fs ← state
  b ← lift (bitmap_set fs.inode_bitmap inode_no 0)
  change (λ fs'. record fs' { inode_bitmap = b })
  bitmap_sync inode_no inode_map
  fs1 ← state
  disk ← lift (inode_delete fs1.part fs1.disk inode_no blank)
  put_disk disk
  change (λ fs'. inode_close fs' addr)
