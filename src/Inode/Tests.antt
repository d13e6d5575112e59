-- ===== src/Inode/Tests.antt =====
-- inode.c at concrete inputs.
use ukernel.Prelude.{ℕ, ◌<◌, ◌≡◌, ◌≢◌, refl, arith, [], ◌∷◌, ret, panic}
use ukernel.Inode.{
  Fs, blank, inode_of, inode_sync, inode_open, find_open, inode_load, inode_locate, sys_malloc,
  answer,
}
use ukernel.Disk.{ide_read, read_sectors, select_sector, size_in_byte, next_op, named_sector}
use ukernel.Inode.Sample.{part, two_blocks, mounted}
use ukernel.Inode.Words.{IsInode, Same}
use ukernel.Inode.Slot.{IsTable, slot}
use ukernel.Inode.Reopen.{pure, inode_open-inode_sync, inode_sync-wraps}

part-IsTable : IsTable part
part-IsTable = record { on_disk = omega arith; inside = omega arith }

two_blocks-IsInode : (n : ℕ) → n < 4096 → IsInode (two_blocks n)
two_blocks-IsInode n small = record {
  no = omega arith;
  size = omega arith;
  cnts = omega arith;
  deny = omega arith;
  sectors = λ k below. ground arith;
}

-- inode 6 lies in two sectors
inode_open-inode_sync_example :
    (disk : ℕ → ℕ) × (inode_sync part blank (two_blocks 6) blank ≡ ret disk)
    × (fs' : Fs) × (inode_open (record mounted { disk = disk }) 6 ≡ ret (200, fs'))
    × (fs'.open_inodes ≡ 200 ∷ 100 ∷ [])
    × ((fs'.inodes 200).i_open_cnts ≡ 1)
    × Same (fs'.inodes 200) (pure (two_blocks 6))
    × ((a : ℕ) → a ≢ 200 → fs'.inodes a ≡ two_blocks 3)
unfolding find_open
inode_open-inode_sync_example =
    inode_open-inode_sync mounted (two_blocks 6) blank 200 300 [] part-IsTable
      (two_blocks-IsInode 6 (omega arith)) (omega arith) refl refl (λ e. omega arith)
      (λ e. omega arith)

inode_sync-wraps_example :
    (disk' : ℕ → ℕ) × (inode_sync part blank (two_blocks 300) blank ≡ ret disk')
    × Same (inode_of disk' (slot part 300)) (inode_of blank (slot part 300))
    × Same (inode_of disk' (slot part 44)) (pure (two_blocks 300))
inode_sync-wraps_example =
    inode_sync-wraps part blank (two_blocks 300) blank part-IsTable
      (two_blocks-IsInode 300 (omega arith)) (omega arith)

-- memcpy's ASSERT stops the machine when there is no memory for the inode.
inode_open_no_memory : inode_open (record mounted { answers = [] }) 4 ≡ panic
unfolding inode_open inode_load inode_locate find_open sys_malloc answer ide_read read_sectors
    select_sector size_in_byte next_op named_sector
inode_open_no_memory = refl
