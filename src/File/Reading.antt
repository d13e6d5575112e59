-- ===== src/File/Reading.antt =====
-- file_read of file.c gathers the blocks of what it reads and returns those bytes.
use ukernel.Prelude.{
  ℕ, zero, suc, ◌+◌, ◌-◌, ◌*◌, ◌/◌, ◌%◌, ◌^◌, ◌≤◌, ◌<◌, ◌≡◌, ◌≢◌, refl, sym, ap, ◌∙◌, inl, inr, ◌⊎◌,
  true, false, ◌&&◌, arith, ltb, leb, ◌==◌, if◌then◌else◌, Bool-cases, update, lt→ltb, ne→==,
  update_here, List, ◌∷◌, ==→eq,
}
use ukernel.Disk.{copy_bytes, max_lba}
use ukernel.Disk.Transfer.{ide_read-copy_bytes, copy_bytes_inside}
use ukernel.Inode.{Inode, File, Fs, blank, word_at, sys_malloc, answer}
use ukernel.File.{done, malloc, check, bind_done}
use ukernel.File.Write.{minus, with_table, read_table, table_bytes}
use ukernel.File.Read.{direct_blocks, one_block, many_blocks, gather_blocks, read_size, file_read}
use ukernel.File.Content.{block_of, content, byte_in, read_loop_lem}

-- The blocks are those of the file, from one index to another.
abbrev pub Gathered : (disk : ℕ → ℕ) → Inode → (first last : ℕ) → (ℕ → ℕ) → Type 0
Gathered disk inode first last blocks =
    (k : ℕ) → first ≤ k → k ≤ last → blocks k ≡ block_of disk inode k

block_of_direct :
    (disk : ℕ → ℕ) (inode : Inode) (k : ℕ) → k < 12 → block_of disk inode k ≡ inode.i_sectors k
unfolding block_of
block_of_direct disk inode k low = ground arith

direct_blocks_lem :
    (left idx : ℕ) (inode : Inode) (blocks : ℕ → ℕ) (k : ℕ)
    → direct_blocks left idx inode blocks k
      ≡ (if leb idx k && ltb k (idx + left) then inode.i_sectors k else blocks k)
unfolding direct_blocks
direct_blocks_lem zero idx inode blocks k = ground arith
direct_blocks_lem (suc left) idx inode blocks k = elim (Bool-cases (k == idx)) [
  | inl e ↦
      let z : k ≡ idx = ==→eq k idx e in
      ground (
        arith,
        direct_blocks_lem left (idx + 1) inode (update blocks idx (inode.i_sectors idx)) k,
        ap inode.i_sectors z,
      )
  | inr n ↦
      ground
        (arith, direct_blocks_lem left (idx + 1) inode (update blocks idx (inode.i_sectors idx)) k)
]

-- What reading the indirect block leaves: the blocks from 12 on, the others as they were.
read_table_lem :
    (fs : Fs) (inode : Inode) (blocks : ℕ → ℕ)
    → inode.i_sectors 12 ≤ max_lba
    → (blocks' : ℕ → ℕ) × (read_table (inode.i_sectors 12) blocks fs ≡ done blocks' fs)
      × ((k : ℕ) → k < 12 → blocks' k ≡ blocks k)
      × ((k : ℕ) → 12 ≤ k → k < 140 → blocks' k ≡ block_of fs.disk inode k)
unfolding read_table with_table block_of word_at
read_table_lem fs inode blocks inside =
    let lba = inode.i_sectors 12 in
    let table = copy_bytes fs.disk (lba * 512) (table_bytes blocks) 0 (1 * 512) in
    let byte : (i : ℕ) → i < 512 → table i ≡ fs.disk (lba * 512 + i) = λ i below.
      let z : lba * 512 + (i - 0) ≡ lba * 512 + i = omega arith in
      copy_bytes_inside fs.disk (lba * 512) (table_bytes blocks) 0 (1 * 512) i (omega arith)
        (omega arith)
      ∙ ap fs.disk z in
    (
      with_table blocks table,
      rw
          (ide_read-copy_bytes fs.part.dev_no fs.disk lba (table_bytes blocks) 1 (omega arith)
            (omega arith))
          refl,
      λ k below. ground arith,
      λ k low high.
          let i = 4 * (k - 12) in
          let a1 : lba * 512 + (i + 1) ≡ lba * 512 + i + 1 = omega arith in
          let a2 : lba * 512 + (i + 2) ≡ lba * 512 + i + 2 = omega arith in
          let a3 : lba * 512 + (i + 3) ≡ lba * 512 + i + 3 = omega arith in
          let b0 = byte i (omega arith) in
          let b1 = byte (i + 1) (omega arith) ∙ ap fs.disk a1 in
          let b2 = byte (i + 2) (omega arith) ∙ ap fs.disk a2 in
          let b3 = byte (i + 3) (omega arith) ∙ ap fs.disk a3 in ground (arith, b0, b1, b2, b3),
    )

-- What of a file lies on the disk where file_read can reach it: no more than 138 blocks, an indirect
-- block where there are more than 12.
pub record IsFile (disk : ℕ → ℕ) (inode : Inode) : Type 0 where
  pub size : inode.i_size < 139 * 512
  pub blocks : (k : ℕ) → k * 512 < inode.i_size → block_of disk inode k ≤ max_lba
  pub indirect : 12 ≤ inode.i_size / 512 → (inode.i_sectors 12 ≢ 0) × (inode.i_sectors 12 ≤ max_lba)

module _ (fs : Fs) (addr first last : ℕ) (is : IsFile fs.disk (fs.inodes addr))
    (order : first ≤ last) (inside : last ≤ (fs.inodes addr).i_size / 512) where
  one_block-Gathered :
      first ≡ last
      → (blocks : ℕ → ℕ) × (one_block addr last fs ≡ done blocks fs)
        × Gathered fs.disk (fs.inodes addr) first last blocks
  unfolding one_block
  one_block-Gathered one = elim (Bool-cases (ltb last 12)) [
    | inl e ↦ (
      update blank last ((fs.inodes addr).i_sectors last),
      rw e refl,
      λ k lo hi.
          let z : k ≡ last = omega arith in
          let low : k < 12 = ground arith in
          ap (update blank last ((fs.inodes addr).i_sectors last)) z
          ∙ update_here blank last ((fs.inodes addr).i_sectors last)
          ∙ ap (fs.inodes addr).i_sectors (sym z)
          ∙ sym (block_of_direct fs.disk (fs.inodes addr) k low),
    )
    | inr n ↦
        let (nonzero, low) = is.indirect (ground arith) in
        let (blocks, run, before, after) = read_table_lem fs (fs.inodes addr) blank low in
        (blocks, rw n run, λ k lo hi. after k (ground arith) (omega (arith, is.size)))
  ]

  many_blocks-Gathered :
      (blocks : ℕ → ℕ) × (many_blocks addr first last fs ≡ done blocks fs)
      × Gathered fs.disk (fs.inodes addr) first last blocks
  unfolding many_blocks
  many_blocks-Gathered = elim (Bool-cases (ltb last 12)) [
    | inl e ↦ (
      direct_blocks (last + 1 - first) first (fs.inodes addr) blank,
      rw e refl,
      λ k lo hi.
          let low : k < 12 = ground arith in
          let here : (leb first k && ltb k (first + (last + 1 - first))) ≡ true = ground arith in
          (direct_blocks_lem (last + 1 - first) first (fs.inodes addr) blank k ∙ rw here refl)
          ∙ sym (block_of_direct fs.disk (fs.inodes addr) k low),
    )
    | inr n ↦
        let (nonzero, low) = is.indirect (ground arith) in
        let set = ne→== ((fs.inodes addr).i_sectors 12) 0 nonzero in
        elim (Bool-cases (ltb first 12)) [
          | inl e ↦
              let direct = direct_blocks (12 - first) first (fs.inodes addr) blank in
              let (blocks, run, before, after) = read_table_lem fs (fs.inodes addr) direct low in
              (
                blocks,
                rw (n, e, set) run,
                λ k lo hi. elim (Bool-cases (ltb k 12)) [
                  | inl small ↦
                      let below : k < 12 = ground arith in
                      let here : (leb first k && ltb k (first + (12 - first))) ≡ true =
                        ground arith in
                      before k below
                      ∙ (direct_blocks_lem (12 - first) first (fs.inodes addr) blank k
                          ∙ rw here refl)
                      ∙ sym (block_of_direct fs.disk (fs.inodes addr) k below)
                  | inr big ↦ after k (ground arith) (omega (arith, is.size))
                ],
              )
          | inr f ↦
              let (blocks, run, before, after) = read_table_lem fs (fs.inodes addr) blank low in
              (
                blocks,
                rw (n, f, set) run,
                λ k lo hi. after k (ground arith) (omega (arith, is.size)),
              )
        ]
  ]

  gather_blocks-Gathered :
      (blocks : ℕ → ℕ) × (gather_blocks addr first last fs ≡ done blocks fs)
      × Gathered fs.disk (fs.inodes addr) first last blocks
  unfolding gather_blocks
  gather_blocks-Gathered = elim (Bool-cases (first == last)) [
    | inl e ↦
        let (blocks, run, same) = one_block-Gathered (==→eq first last e) in
        (blocks, rw e run, same)
    | inr n ↦ let (blocks, run, same) = many_blocks-Gathered in (blocks, rw n run, same)
  ]

content-byte :
    (disk : ℕ → ℕ) (inode : Inode) (blocks : ℕ → ℕ) (p : ℕ)
    → blocks (p / 512) ≡ block_of disk inode (p / 512)
    → byte_in disk blocks p ≡ content disk inode p
unfolding content
content-byte disk inode blocks p same = ap (λ l. disk (l * 512 + p % 512)) same

-- How much file_read reads of a file that goes on behind the position.
record ReadSize (size pos count i_size : ℕ) : Type 0 where
  most : size ≤ count
  fits : pos + size ≤ i_size
  full : (size ≡ count) ⊎ (pos + size ≡ i_size)

read_size_lem :
    (file : File) (inode : Inode) (count : ℕ)
    → file.fd_pos < inode.i_size
    → inode.i_size < 2 ^ 32
    → file.fd_pos + count < 2 ^ 32
    → ((ltb inode.i_size ((file.fd_pos + count) % 2 ^ 32) && (read_size file inode count == 0))
        ≡ false)
      × ReadSize (read_size file inode count) file.fd_pos count inode.i_size
unfolding read_size
read_size_lem file inode count before size small =
    let wrap : (file.fd_pos + count) % 2 ^ 32 ≡ file.fd_pos + count = omega arith in
    let left : minus inode.i_size file.fd_pos ≡ inode.i_size - file.fd_pos = omega arith in
    elim (Bool-cases (ltb inode.i_size (file.fd_pos + count))) [
      | inl e ↦
          rw (wrap, e, left)
            (
              ground arith,
              record { most = ground arith; fits = omega arith; full = inr (omega arith) },
            )
      | inr n ↦
          rw (wrap, n) (refl, record { most = omega arith; fits = ground arith; full = inl refl })
    ]

sys_malloc_first :
    (fs : Fs) (a : ℕ) (rest : List ℕ)
    → fs.answers ≡ a ∷ rest
    → sys_malloc fs ≡ (a, record fs { answers = rest })
unfolding sys_malloc answer
sys_malloc_first fs a rest e = rw e refl

malloc_first :
    (fs : Fs) (a : ℕ) (rest : List ℕ)
    → fs.answers ≡ a ∷ rest
    → a ≢ 0
    → malloc fs ≡ done a (record fs { answers = rest })
unfolding malloc
malloc_first fs a rest e some_a = rw (sys_malloc_first fs a rest e, ne→== a 0 some_a) refl

-- For a file of fewer than 139 blocks whose blocks lie on the disk (from 6144 bytes on also its block
-- of addresses, which is not 0), a position before its end that makes less than 2^32 together with
-- the bytes asked for, and memory for the two buffers, file_read returns how many of the bytes asked
-- for there are up to the end, leaves those of the file from the position on in the buffer, moves
-- the position behind them and does not change the disk.
pub file_read-content :
    (fs : Fs) (slot count a b : ℕ) (rest : List ℕ) (buf : ℕ → ℕ)
    → fs.answers ≡ a ∷ b ∷ rest
    → a ≢ 0
    → b ≢ 0
    → IsFile fs.disk (fs.inodes (fs.file_table slot).fd_inode)
    → (fs.file_table slot).fd_pos < (fs.inodes (fs.file_table slot).fd_inode).i_size
    → (fs.file_table slot).fd_pos + count < 2 ^ 32
    → (size : ℕ) × (buf' : ℕ → ℕ) × (fs' : Fs) × (file_read slot buf count fs
        ≡ done (size, buf') fs')
      × (size ≤ count)
      × ((fs.file_table slot).fd_pos + size ≤ (fs.inodes (fs.file_table slot).fd_inode).i_size)
      × ((size ≡ count)
          ⊎ ((fs.file_table slot).fd_pos + size ≡ (fs.inodes (fs.file_table slot).fd_inode).i_size))
      × ((fs'.file_table slot).fd_pos ≡ (fs.file_table slot).fd_pos + size)
      × (fs'.disk ≡ fs.disk)
      × ((j : ℕ)
          → j < size
          → buf' j
            ≡ content fs.disk
                (fs.inodes (fs.file_table slot).fd_inode)
                ((fs.file_table slot).fd_pos + j))
unfolding file_read
file_read-content fs slot count a b rest buf answers a_some b_some is before small =
    let file = fs.file_table slot in
    let pos = file.fd_pos in
    let inode = fs.inodes file.fd_inode in
    let fs2 = record fs { answers = rest } in
    let size = read_size file inode count in
    let (going, sized) = read_size_lem file inode count before (omega (arith, is.size)) small in
    let fits : pos + size ≤ inode.i_size = sized.fits in
    let last = (pos + size) % 2 ^ 32 / 512 in
    let whole : last ≡ (pos + size) / 512 = omega (arith, is.size) in
    let near : (ltb (pos / 512) 139 && ltb last 139) ≡ true =
      rw (lt→ltb (pos / 512) 139 (omega (arith, is.size)), lt→ltb last 139 (omega (arith, is.size)))
        refl in
    let (blocks, gathered, same) =
      gather_blocks-Gathered fs2 file.fd_inode (pos / 512) last is (omega arith) (omega arith) in
    let (buf', fs', run, from) =
      read_loop_lem size fs2 slot pos a blocks 0 size buf (omega arith) a_some refl
        (omega (arith, is.size))
        (λ k lo hi. rw (same k lo (omega arith)) (is.blocks k (omega arith))) in
    let all : 0 + size ≡ size = omega arith in
    (
      size,
      buf',
      fs',
      rw (going, sys_malloc_first fs a (b ∷ rest) answers)
          (bind_done malloc _ (record fs { answers = b ∷ rest })
              (malloc_first (record fs { answers = b ∷ rest }) b rest refl b_some)
            ∙ bind_done (check (ltb (pos / 512) 139 && ltb last 139)) _ fs2
                (ap (λ t. check t fs2) near)
            ∙ bind_done (gather_blocks file.fd_inode (pos / 512) last) _ fs2 gathered
            ∙ run
            ∙ ap (λ n. done (n, buf') fs') all),
      sized.most,
      fits,
      sized.full,
      from.position,
      from.disk,
      λ j below.
          let z : j ≡ 0 + j = omega arith in
          ap buf' z
          ∙ from.new j below
          ∙ content-byte fs.disk inode blocks (pos + j)
              (same ((pos + j) / 512) (omega arith) (omega arith)),
    )
