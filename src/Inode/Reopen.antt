-- ===== src/Inode/Reopen.antt =====
-- What inode_sync of inode.c writes, inode_open reads back; other inodes are left alone.
use ukernel.Prelude.{
  ℕ, ◌+◌, ◌-◌, ◌*◌, ◌%◌, ◌≤◌, ◌<◌, ◌≡◌, ◌≢◌, refl, ap, ◌∙◌, inl, inr, arith, ltb, if◌then◌else◌,
  Bool-cases, ret, ne→==, update_here, update_away, List, ◌∷◌, none, update,
}
use ukernel.Disk.{copy_bytes, ide_read}
use ukernel.Disk.Transfer.{
  ide_read-copy_bytes, copy_bytes_inside, copy_bytes_below, copy_bytes_above,
}
use ukernel.Inode.{
  Partition, Inode, Fs, blank, inode_bytes, inode_of, word_at, InodePosition, answer, sys_malloc,
  find_open, inode_load, inode_open, inode_sync,
}
use ukernel.Inode.Words.{IsInode, Same, inode_of-inode_bytes, word_at-same}
use ukernel.Inode.Slot.{IsTable, Located, slot, inode_locate-Located, inode_sync-slot}

-- The inode that goes to the disk.
abbrev pub pure : Inode → Inode
pure inode = record inode { i_open_cnts = 0; write_deny = 0 }

-- The inodes in two stretches of 76 equal bytes.
pub inode_of-Same :
    (mem mem' : ℕ → ℕ) (at at' : ℕ)
    → ((i : ℕ) → i < 76 → mem (at + i) ≡ mem' (at' + i))
    → Same (inode_of mem at) (inode_of mem' at')
unfolding inode_of
inode_of-Same mem mem' at at' same =
    let word : (k : ℕ) → k + 3 < 76 → word_at mem (at + k) ≡ word_at mem' (at' + k) =
      λ k inside. word_at-same mem mem' at at' k same inside in
    let z : at ≡ at + 0 = omega arith in
    let z' : at' + 0 ≡ at' = omega arith in
    record {
      no = ap (word_at mem) z ∙ word 0 (omega arith) ∙ ap (word_at mem') z';
      size = word 4 (omega arith);
      deny = word 12 (omega arith);
      sectors = λ k below.
          let p : at + 16 + 4 * k ≡ at + (16 + 4 * k) = omega arith in
          let p' : at' + (16 + 4 * k) ≡ at' + 16 + 4 * k = omega arith in
          ap (word_at mem) p ∙ word (16 + 4 * k) (omega arith) ∙ ap (word_at mem') p';
    }

-- What inode_open leaves when the inode comes from the disk.
pub record Loaded (fs : Fs) (inode_no addr : ℕ) (fs' : Fs) : Type 0 where
  pub listed : fs'.open_inodes ≡ addr ∷ fs.open_inodes
  pub read : Same (fs'.inodes addr) (inode_of fs.disk (slot fs.part inode_no))
  pub once : (fs'.inodes addr).i_open_cnts ≡ 1
  pub others : (a : ℕ) → a ≢ addr → fs'.inodes a ≡ fs.inodes a
  pub disk : fs'.disk ≡ fs.disk

-- The buffer holds the inode where inode_locate says.
read_slot :
    (part : Partition) (disk : ℕ → ℕ) (inode_no : ℕ) (pos : InodePosition)
    → IsTable part
    → Located part inode_no pos
    → (buf : ℕ → ℕ) × (ide_read part.dev_no disk pos.sec_lba blank (if pos.two_sec then 2 else 1)
        ≡ ret buf)
      × ((i : ℕ) → i < 76 → buf (pos.off_size + i) ≡ disk (slot part inode_no + i))
read_slot part disk inode_no pos is at =
    let cnt : ℕ = if pos.two_sec then 2 else 1 in
    let some_sector : 0 < cnt = ground arith in
    let room : pos.off_size + 76 ≤ cnt * 512 = ground (arith, at.one, at.two) in
    let few : cnt ≤ 2 = ground arith in
    (
      copy_bytes disk (pos.sec_lba * 512) blank 0 (cnt * 512),
      ide_read-copy_bytes part.dev_no disk pos.sec_lba blank cnt some_sector
          (omega (arith, at.near, is.on_disk)),
      λ i below.
          let place : pos.sec_lba * 512 + (pos.off_size + i - 0) ≡ slot part inode_no + i =
            omega (arith, at.place) in
          copy_bytes_inside disk (pos.sec_lba * 512) blank 0 (cnt * 512) (pos.off_size + i)
            (omega arith) (omega (arith, room))
          ∙ ap disk place,
    )

-- The first of the answers to come is what sys_malloc answers.
answers-sys_malloc :
    (fs : Fs) (a : ℕ) (rest : List ℕ)
    → fs.answers ≡ a ∷ rest
    → sys_malloc fs ≡ (a, record fs { answers = rest })
unfolding sys_malloc answer
answers-sys_malloc fs a rest e = rw e refl

pub inode_load-Loaded :
    (fs : Fs) (inode_no addr b : ℕ) (rest : List ℕ)
    → IsTable fs.part
    → inode_no < 4096
    → fs.answers ≡ addr ∷ b ∷ rest
    → addr ≢ 0
    → b ≢ 0
    → (fs' : Fs) × (inode_load fs inode_no ≡ ret (addr, fs')) × Loaded fs inode_no addr fs'
unfolding inode_load
inode_load-Loaded fs inode_no addr b rest is small answers some_addr some_b =
    let (pos, at) = inode_locate-Located fs.part inode_no small in
    let (buf, read, same) = read_slot fs.part fs.disk inode_no pos is at in
    let first = answers-sys_malloc fs addr (b ∷ rest) answers in
    let second = answers-sys_malloc (record fs { answers = b ∷ rest }) b rest refl in
    let some_byte : b + pos.off_size ≢ 0 = λ e. some_b (omega arith) in
    let inode = record (inode_of buf pos.off_size) { i_open_cnts = 1 } in
    let here : update fs.inodes addr inode addr ≡ inode = update_here fs.inodes addr inode in
    let held = inode_of-Same buf fs.disk pos.off_size (slot fs.part inode_no) same in
    (
      record fs {
        inodes = update fs.inodes addr inode;
        open_inodes = addr ∷ fs.open_inodes;
        answers = rest;
      },
      rw
          (
            at.located,
            first,
            second,
            read,
            ne→== addr 0 some_addr,
            ne→== (b + pos.off_size) 0 some_byte,
            ne→== b 0 some_b,
          )
          refl,
      record {
        listed = refl;
        read = record {
          no = ap (λ n. n.i_no) here ∙ held.no;
          size = ap (λ n. n.i_size) here ∙ held.size;
          deny = ap (λ n. n.write_deny) here ∙ held.deny;
          sectors = λ k below. ap (λ n. n.i_sectors k) here ∙ held.sectors k below;
        };
        once = ap (λ n. n.i_open_cnts) here;
        others = λ a ne. update_away fs.inodes addr inode a ne;
        disk = refl;
      },
    )

through : {a b c : Inode} → Same a b → Same b c → Same a c
through p q = record {
  no = p.no ∙ q.no;
  size = p.size ∙ q.size;
  deny = p.deny ∙ q.deny;
  sectors = λ k below. p.sectors k below ∙ q.sectors k below;
}

pure-IsInode : (inode : Inode) → IsInode inode → IsInode (pure inode)
pure-IsInode inode is = record {
  no = is.no;
  size = is.size;
  cnts = omega arith;
  deny = omega arith;
  sectors = is.sectors;
}

copied_first :
    (bytes disk : ℕ → ℕ) (at i : ℕ) → i < 76 → copy_bytes bytes 0 disk at 76 (at + i) ≡ bytes i
copied_first bytes disk at i below =
    let place : 0 + (at + i - at) ≡ i = omega arith in
    copy_bytes_inside bytes 0 disk at 76 (at + i) (omega arith) (omega arith) ∙ ap bytes place

-- If the inode table lies on the disk and within what inode_sync's ASSERT admits, the fields of an
-- inode are 32-bit words, its number is below 256, it is not open, and inode_sync has just written
-- it, and if sys_malloc answers inode_open's two requests with memory (not NULL), inode_open returns
-- the memory of the first request. There stands an inode of the same number, size and sectors, with
-- write_deny 0 and opened once; it is the first of the list now, and other inodes in memory stay as
-- they are.
pub inode_open-inode_sync :
    (fs : Fs) (inode : Inode) (io_buf : ℕ → ℕ) (addr b : ℕ) (rest : List ℕ)
    → IsTable fs.part
    → IsInode inode
    → inode.i_no < 256
    → find_open fs.inodes inode.i_no fs.open_inodes ≡ none
    → fs.answers ≡ addr ∷ b ∷ rest
    → addr ≢ 0
    → b ≢ 0
    → (disk : ℕ → ℕ) × (inode_sync fs.part fs.disk inode io_buf ≡ ret disk)
      × (fs' : Fs) × (inode_open (record fs { disk = disk }) inode.i_no ≡ ret (addr, fs'))
      × (fs'.open_inodes ≡ addr ∷ fs.open_inodes)
      × ((fs'.inodes addr).i_open_cnts ≡ 1)
      × Same (fs'.inodes addr) (pure inode)
      × ((a : ℕ) → a ≢ addr → fs'.inodes a ≡ fs.inodes a)
unfolding inode_open
inode_open-inode_sync fs inode io_buf addr b rest table is small closed answers some_addr some_b =
    let low : inode.i_no % 256 ≡ inode.i_no = omega arith in
    let bytes = inode_bytes (pure inode) in
    let at = slot fs.part inode.i_no in
    let disk = copy_bytes bytes 0 fs.disk at 76 in
    let written = inode_sync-slot fs.part fs.disk inode io_buf table in
    let (fs', opened, loaded) =
      inode_load-Loaded (record fs { disk = disk }) inode.i_no addr b rest table (omega arith)
        answers some_addr some_b in
    let back =
      inode_of-inode_bytes (pure inode) disk at (pure-IsInode inode is)
        (λ i below. copied_first bytes fs.disk at i below) in
    (
      disk,
      rw low at written,
      fs',
      rw (closed, inode_open) opened,
      loaded.listed,
      loaded.once,
      through loaded.read back,
      loaded.others,
    )

-- The slot of one inode is no part of another's.
apart :
    (bytes disk : ℕ → ℕ) (part : Partition) (n m i : ℕ)
    → n ≢ m
    → i < 76
    → copy_bytes bytes 0 disk (slot part n) 76 (slot part m + i) ≡ disk (slot part m + i)
unfolding slot
apart bytes disk part n m i differ below = elim (Bool-cases (ltb m n)) [
  | inl e ↦
      copy_bytes_below bytes 0 disk (part.inode_table_lba * 512 + n * 76) 76
        (part.inode_table_lba * 512 + m * 76 + i) (ground arith)
  | inr e ↦
      copy_bytes_above bytes 0 disk (part.inode_table_lba * 512 + n * 76) 76
        (part.inode_table_lba * 512 + m * 76 + i) (ground arith)
]

-- If the inode table lies on the disk and within what inode_sync's ASSERT admits, and the fields of
-- the inode are 32-bit words, inode_sync of an inode numbered 256 or more leaves the inode
-- in its own slot as it was, and puts it in the slot of its number modulo 256.
pub inode_sync-wraps :
    (part : Partition) (disk : ℕ → ℕ) (inode : Inode) (io_buf : ℕ → ℕ)
    → IsTable part
    → IsInode inode
    → 256 ≤ inode.i_no
    → (disk' : ℕ → ℕ) × (inode_sync part disk inode io_buf ≡ ret disk')
      × Same (inode_of disk' (slot part inode.i_no)) (inode_of disk (slot part inode.i_no))
      × Same (inode_of disk' (slot part (inode.i_no % 256))) (pure inode)
inode_sync-wraps part disk inode io_buf table is big =
    let bytes = inode_bytes (pure inode) in
    let n = inode.i_no % 256 in
    let disk' = copy_bytes bytes 0 disk (slot part n) 76 in
    (
      disk',
      inode_sync-slot part disk inode io_buf table,
      inode_of-Same disk' disk (slot part inode.i_no) (slot part inode.i_no)
          (λ i below. apart bytes disk part n inode.i_no i (λ e. omega arith) below),
      inode_of-inode_bytes (pure inode) disk' (slot part n) (pure-IsInode inode is)
          (λ i below. copied_first bytes disk (slot part n) i below),
    )
