-- ===== src/Inode/Slot.antt =====
-- Where inode.c reads and writes on the disk: each inode has 76 bytes of the table to itself, in one
-- sector or two.
use std.Path.{fun_ext}
use ukernel.Prelude.{
  ℕ, ◌+◌, ◌-◌, ◌*◌, ◌/◌, ◌%◌, ◌≤◌, ◌<◌, ◌≡◌, refl, ap, ◌∙◌, inl, inr, false, arith, ltb, leb,
  if◌then◌else◌, Bool-cases, ret, lt→ltb, if_either,
}
use ukernel.Disk.{copy_bytes, max_lba}
use ukernel.Disk.Transfer.{ide_read-copy_bytes, ide_write-copy_bytes, le→leb}
use ukernel.Inode.{
  Partition, Inode, inode_size, blank, inode_bytes, InodePosition, inode_locate, patch_sectors,
  inode_sync, inode_delete,
}

-- The table lies on the disk and within what the partition's ASSERT admits.
pub record IsTable (part : Partition) : Type 0 where
  pub on_disk : part.inode_table_lba + 610 ≤ max_lba
  pub inside : part.inode_table_lba + 608 ≤ part.start_lba + part.sec_cnt

-- the first byte of an inode on the disk
unfoldable pub slot : Partition → (inode_no : ℕ) → ℕ
slot part inode_no = part.inode_table_lba * 512 + inode_no * 76

-- A read of whole sectors, a change of some bytes, and the write: only those bytes change.
patched :
    (disk io_buf bytes : ℕ → ℕ) (start off all : ℕ)
    → off + 76 ≤ all
    → copy_bytes (copy_bytes bytes 0 (copy_bytes disk start io_buf 0 all) off 76) 0 disk start all
      ≡ copy_bytes bytes 0 disk (start + off) 76
unfolding copy_bytes
patched disk io_buf bytes start off all inside = fun_ext (λ i. elim (Bool-cases (leb start i)) [
  | inl e ↦
      let new : 0 + (0 + (i - start) - off) ≡ 0 + (i - (start + off)) = omega arith in
      let old : start + (0 + (i - start) - 0) ≡ i = ground arith in
      ground (arith, ap bytes new, ap disk old)
  | inr n ↦ ground arith
])

patch_sectors-copy_bytes :
    (part : Partition) (disk : ℕ → ℕ) (pos : InodePosition) (io_buf bytes : ℕ → ℕ) (sec_cnt : ℕ)
    → 0 < sec_cnt
    → pos.sec_lba + sec_cnt ≤ max_lba + 1
    → pos.off_size + 76 ≤ sec_cnt * 512
    → patch_sectors part disk pos io_buf bytes sec_cnt
      ≡ ret (copy_bytes bytes 0 disk (pos.sec_lba * 512 + pos.off_size) 76)
unfolding patch_sectors
patch_sectors-copy_bytes part disk pos io_buf bytes sec_cnt some_sector on_disk inside =
    rw
      (
        ide_read-copy_bytes part.dev_no disk pos.sec_lba io_buf sec_cnt some_sector on_disk,
        ide_write-copy_bytes part.dev_no disk pos.sec_lba
            (copy_bytes bytes 0 (copy_bytes disk (pos.sec_lba * 512) io_buf 0 (sec_cnt * 512))
              pos.off_size 76)
            sec_cnt some_sector on_disk,
      )
      (ap ret (patched disk io_buf bytes (pos.sec_lba * 512) pos.off_size (sec_cnt * 512) inside))

-- Where inode_locate finds an inode.
pub record Located (part : Partition) (inode_no : ℕ) (pos : InodePosition) : Type 0 where
  pub located : inode_locate part inode_no ≡ ret pos
  pub place : pos.sec_lba * 512 + pos.off_size ≡ slot part inode_no
  pub near : pos.sec_lba ≤ part.inode_table_lba + 608
  pub one : pos.two_sec ≡ false → pos.off_size + 76 ≤ 512
  pub two : pos.off_size + 76 ≤ 1024

pub inode_locate-Located :
    (part : Partition) (inode_no : ℕ)
    → inode_no < 4096
    → (pos : InodePosition) × Located part inode_no pos
unfolding inode_locate slot
inode_locate-Located part inode_no small = (
  record {
    two_sec = ltb (512 - inode_no * inode_size % 512) inode_size;
    sec_lba = part.inode_table_lba + inode_no * inode_size / 512;
    off_size = inode_no * inode_size % 512;
  },
  record {
    located = rw (lt→ltb inode_no 4096 small) refl;
    place = omega arith;
    near = omega arith;
    one = λ e. ground arith;
    two = omega arith;
  },
)

-- The read, the change and the write, in one sector or two.
patch_slot :
    (part : Partition) (disk : ℕ → ℕ) (inode_no : ℕ) (pos : InodePosition) (io_buf bytes : ℕ → ℕ)
    → IsTable part
    → Located part inode_no pos
    → (if pos.two_sec
        then patch_sectors part disk pos io_buf bytes 2
        else patch_sectors part disk pos io_buf bytes 1)
      ≡ ret (copy_bytes bytes 0 disk (slot part inode_no) 76)
patch_slot part disk inode_no pos io_buf bytes is at =
    if_either pos.two_sec
      (λ e.
        patch_sectors-copy_bytes part disk pos io_buf bytes 2 (omega arith)
          (omega (arith, at.near, is.on_disk)) at.two)
      (λ n.
        patch_sectors-copy_bytes part disk pos io_buf bytes 1 (omega arith)
          (omega (arith, at.near, is.on_disk)) (at.one n))
    ∙ ap (λ p. ret (copy_bytes bytes 0 disk p 76)) at.place

-- If the inode table lies on the disk, inode_sync writes the 76 bytes of the inode, its count of
-- openings and its flag zero, to the slot of its number modulo 256, and nothing else.
pub inode_sync-slot :
    (part : Partition) (disk : ℕ → ℕ) (inode : Inode) (io_buf : ℕ → ℕ)
    → IsTable part
    → inode_sync part disk inode io_buf
      ≡ ret (
          copy_bytes
            (inode_bytes (record inode { i_open_cnts = 0; write_deny = 0 }))
            0
            disk
            (slot part (inode.i_no % 256))
            76)
unfolding inode_sync
inode_sync-slot part disk inode io_buf is =
    let (pos, at) = inode_locate-Located part (inode.i_no % 256) (omega arith) in
    let bytes = inode_bytes (record inode { i_open_cnts = 0; write_deny = 0 }) in
    rw
      (
        at.located,
        le→leb pos.sec_lba (part.start_lba + part.sec_cnt) (omega (arith, at.near, is.inside)),
      )
      (patch_slot part disk (inode.i_no % 256) pos io_buf bytes is at)

-- If the inode table lies on the disk, inode_delete writes 76 zeros to the slot of the inode, and
-- nothing else.
pub inode_delete-slot :
    (part : Partition) (disk : ℕ → ℕ) (inode_no : ℕ) (io_buf : ℕ → ℕ)
    → IsTable part
    → inode_no < 4096
    → inode_delete part disk inode_no io_buf ≡ ret (copy_bytes blank 0 disk (slot part inode_no) 76)
unfolding inode_delete
inode_delete-slot part disk inode_no io_buf is small =
    let (pos, at) = inode_locate-Located part inode_no small in
    rw
      (
        lt→ltb inode_no 4096 small,
        at.located,
        le→leb pos.sec_lba (part.start_lba + part.sec_cnt) (omega (arith, at.near, is.inside)),
      )
      (patch_slot part disk inode_no pos io_buf blank is at)
