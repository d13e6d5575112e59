-- ===== src/Inode.antt =====
-- inode.c and inode.h over a mounted partition: the inode table on the disk, the inodes in memory
-- and the list of those that are open. An inode in memory is an object at an address, so that a
-- file's fd_inode and the list share it; 0 is NULL. sys_malloc, which Memory and Heap model,
-- appears by its answers, in the order of the calls: an address, or 0; the memory is zeroed. The
-- list's links, which KernelList models, appear as the order of the addresses.
pub mod Words
pub mod Slot
pub mod Reopen
pub mod Sample
mod Tests
use ukernel.Prelude.{
  ℕ, zero, suc, ◌+◌, ◌-◌, ◌*◌, ◌/◌, ◌%◌, ◌^◌, Bool, true, false, not, ◌&&◌, Option, none, some,
  List, [], ◌∷◌, ltb, leb, ◌==◌, if◌then◌else◌, update, Outcome, ret, ◌>>=◌, ◌>>◌, assert, without,
}
use ukernel.Bitmap.{Bitmap, bitmap_set}
use ukernel.Disk.{copy_bytes, ide_read, ide_write}

-- what of struct partition and of its super block does not change
pub record Partition : Type 0 where
  pub dev_no : ℕ
  pub start_lba : ℕ
  pub sec_cnt : ℕ
  pub block_bitmap_lba : ℕ
  pub inode_bitmap_lba : ℕ
  pub inode_table_lba : ℕ
  pub data_start_lba : ℕ

-- struct inode without inode_tag
pub record Inode : Type 0 where
  pub i_no : ℕ
  pub i_size : ℕ
  pub i_open_cnts : ℕ
  pub write_deny : ℕ
  pub i_sectors : ℕ → ℕ

-- struct file
pub record File : Type 0 where
  pub fd_pos : ℕ
  pub fd_flag : ℕ
  pub fd_inode : ℕ

-- The mounted partition cur_part, its disk, file_table, and fd_table of the running thread, where
-- `none` is -1.
pub record Fs : Type 0 where
  pub part : Partition
  pub disk : ℕ → ℕ
  pub block_bitmap : Bitmap
  pub inode_bitmap : Bitmap
  pub inodes : ℕ → Inode
  pub open_inodes : List ℕ
  pub file_table : ℕ → File
  pub fd_table : ℕ → Option ℕ
  pub answers : List ℕ

unfoldable pub answer : Fs → List ℕ → ℕ × Fs
answer fs [] = (0, fs)
answer fs (a ∷ rest) = (a, record fs { answers = rest })

unfoldable pub sys_malloc : Fs → ℕ × Fs
sys_malloc fs = answer fs fs.answers

-- zeroed memory
abbrev pub blank : ℕ → ℕ
blank i = 0

-- byte `i` of a 32-bit word, the lowest first
unfoldable pub byte_of : (word i : ℕ) → ℕ
byte_of word i =
    if i == 0
    then word % 256
    else if i == 1
    then word / 256 % 256
    else if i == 2
    then word / 65536 % 256
    else word / 16777216 % 256

unfoldable pub word_at : (mem : ℕ → ℕ) (at : ℕ) → ℕ
word_at mem at = mem at + 256 * mem (at + 1) + 65536 * mem (at + 2) + 16777216 * mem (at + 3)

-- sizeof(struct inode): 17 words and the two links
abbrev pub inode_size : ℕ
inode_size = 76

-- The words of an inode that goes to the disk, whose last two, the links, are NULL.
unfoldable pub inode_word : Inode → ℕ → ℕ
inode_word inode k =
    if k == 0
    then inode.i_no
    else if k == 1
    then inode.i_size
    else if k == 2
    then inode.i_open_cnts
    else if k == 3
    then inode.write_deny
    else if ltb k 17
    then inode.i_sectors (k - 4)
    else 0

unfoldable pub inode_bytes : Inode → ℕ → ℕ
inode_bytes inode i = byte_of (inode_word inode (i / 4)) (i % 4)

-- the inode whose bytes begin at `at`
unfoldable pub inode_of : (mem : ℕ → ℕ) (at : ℕ) → Inode
inode_of mem at = record {
  i_no = word_at mem at;
  i_size = word_at mem (at + 4);
  i_open_cnts = word_at mem (at + 8);
  write_deny = word_at mem (at + 12);
  i_sectors = λ k. word_at mem (at + 16 + 4 * k);
}

-- struct inode_position
pub record InodePosition : Type 0 where
  pub two_sec : Bool
  pub sec_lba : ℕ
  pub off_size : ℕ

unfoldable pub inode_locate : Partition → (inode_no : ℕ) → Outcome InodePosition
inode_locate part inode_no = do
  assert (ltb inode_no 4096)
  let off_size = inode_no * inode_size
  ret record {
    two_sec = ltb (512 - off_size % 512) inode_size;
    sec_lba = part.inode_table_lba + off_size / 512;
    off_size = off_size % 512;
  }

-- ide_read, a change of the bytes of one inode in the buffer, ide_write
unfoldable pub patch_sectors :
    Partition
    → (disk : ℕ → ℕ) → InodePosition
    → (io_buf bytes : ℕ → ℕ) (sec_cnt : ℕ) → Outcome (ℕ → ℕ)
patch_sectors part disk pos io_buf bytes sec_cnt = do
  inode_buf ← ide_read part.dev_no disk pos.sec_lba io_buf sec_cnt
  ide_write part.dev_no disk pos.sec_lba (copy_bytes bytes 0 inode_buf pos.off_size inode_size)
      sec_cnt

-- What `io_buf` holds afterwards, no caller reads.
unfoldable pub inode_sync : Partition → (disk : ℕ → ℕ) → Inode → (io_buf : ℕ → ℕ) → Outcome (ℕ → ℕ)
inode_sync part disk inode io_buf = do
  let inode_no = inode.i_no % 256
  pos ← inode_locate part inode_no
  assert (leb pos.sec_lba (part.start_lba + part.sec_cnt))
  let pure_inode = record inode { i_open_cnts = 0; write_deny = 0 }
  if pos.two_sec
      then patch_sectors part disk pos io_buf (inode_bytes pure_inode) 2
      else patch_sectors part disk pos io_buf (inode_bytes pure_inode) 1

-- the walk over open_inodes
unfoldable pub find_open : (inodes : ℕ → Inode) (inode_no : ℕ) → List ℕ → Option ℕ
find_open inodes inode_no [] = none
find_open inodes inode_no (elem ∷ elems) =
    let rest = find_open inodes inode_no elems in
    if (inodes elem).i_no == inode_no then some elem else rest

-- The inode read from the disk; the page directory is set aside so that its memory is the kernel's.
-- memcpy asserts that neither of its arguments is NULL, sys_free of the buffer that it is not; what
-- sys_free gives back to the heap is no part of this state.
unfoldable pub inode_load : Fs → (inode_no : ℕ) → Outcome (ℕ × Fs)
inode_load fs inode_no = do
  pos ← inode_locate fs.part inode_no
  let (inode_found, fs1) = sys_malloc fs
  let (buf, fs2) = sys_malloc fs1
  inode_buf ← ide_read fs.part.dev_no fs.disk pos.sec_lba blank (if pos.two_sec then 2 else 1)
  assert (not (inode_found == 0) && not (buf + pos.off_size == 0))
  assert (not (buf == 0))
  ret (
    inode_found,
    record fs2 {
      inodes =
          update fs2.inodes inode_found
            (record (inode_of inode_buf pos.off_size) { i_open_cnts = 1 });
      open_inodes = inode_found ∷ fs2.open_inodes;
    },
  )

unfoldable pub inode_open : Fs → (inode_no : ℕ) → Outcome (ℕ × Fs)
inode_open fs inode_no = elim (find_open fs.inodes inode_no fs.open_inodes) [
  | some inode_found ↦
      let inode = fs.inodes inode_found in
      ret (
        inode_found,
        record fs {
          inodes =
              update fs.inodes inode_found
                (record inode { i_open_cnts = (inode.i_open_cnts + 1) % 2 ^ 32 });
        },
      )
  | none ↦ inode_load fs inode_no
]

-- `--inode->i_open_cnts` wraps at 0. The last close takes the inode off the list; the sys_free that
-- follows, with its ASSERTs on the address, acts on the heap, which is no part of this state.
unfoldable pub inode_close : Fs → (addr : ℕ) → Fs
inode_close fs addr =
    let inode = fs.inodes addr in
    let cnts = (inode.i_open_cnts + (2 ^ 32 - 1)) % 2 ^ 32 in
    let fs' = record fs { inodes = update fs.inodes addr (record inode { i_open_cnts = cnts }) } in
    if cnts == 0 then record fs' { open_inodes = without addr fs.open_inodes } else fs'

unfoldable pub inode_delete :
    Partition → (disk : ℕ → ℕ) → (inode_no : ℕ) (io_buf : ℕ → ℕ) → Outcome (ℕ → ℕ)
inode_delete part disk inode_no io_buf = do
  assert (ltb inode_no 4096)
  pos ← inode_locate part inode_no
  assert (leb pos.sec_lba (part.start_lba + part.sec_cnt))
  if pos.two_sec
      then patch_sectors part disk pos io_buf blank 2
      else patch_sectors part disk pos io_buf blank 1

unfoldable pub inode_init : (inode_no : ℕ) → Inode → Inode
inode_init inode_no new_inode = record {
  i_no = inode_no;
  i_size = 0;
  i_open_cnts = 0;
  write_deny = 0;
  i_sectors = λ sec_idx. if ltb sec_idx 13 then 0 else new_inode.i_sectors sec_idx;
}
