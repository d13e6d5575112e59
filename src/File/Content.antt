-- ===== src/File/Content.antt =====
-- What a file holds, and that file_read of file.c reads it.
use ukernel.Prelude.{
  ℕ, zero, suc, ◌+◌, ◌-◌, ◌*◌, ◌/◌, ◌%◌, ◌^◌, ◌≤◌, ◌<◌, ◌≡◌, ◌≢◌, refl, ap, ◌∙◌, inl, inr, arith,
  ltb, ◌==◌, if◌then◌else◌, Bool-cases, update, ne→==, update_here, ==→eq,
}
use ukernel.Disk.{copy_bytes, max_lba}
use ukernel.Disk.Transfer.{ide_read-copy_bytes, copy_bytes_inside, copy_bytes_below}
use ukernel.Inode.{Inode, Fs, blank, word_at}
use ukernel.File.{done}
use ukernel.File.Write.{next_chunk}
use ukernel.File.Read.{read_loop}

-- the sector that holds block `k` of a file
unfoldable pub block_of : (disk : ℕ → ℕ) → Inode → (k : ℕ) → ℕ
block_of disk inode k =
    if ltb k 12 then inode.i_sectors k else word_at disk (inode.i_sectors 12 * 512 + 4 * (k - 12))

-- byte `p` of a file
unfoldable pub content : (disk : ℕ → ℕ) → Inode → (p : ℕ) → ℕ
content disk inode p = disk (block_of disk inode (p / 512) * 512 + p % 512)

-- byte `p` of a file whose blocks are given
abbrev pub byte_in : (disk blocks : ℕ → ℕ) (p : ℕ) → ℕ
byte_in disk blocks p = disk (blocks (p / 512) * 512 + p % 512)

-- What the loop of file_read leaves.
pub record ReadFrom (fs : Fs) (slot pos : ℕ) (blocks : ℕ → ℕ) (bytes_read size_left : ℕ)
    (buf buf' : ℕ → ℕ) (fs' : Fs) : Type 0 where
  pub position : (fs'.file_table slot).fd_pos ≡ pos + size_left
  pub disk : fs'.disk ≡ fs.disk
  pub new : (j : ℕ) → j < size_left → buf' (bytes_read + j) ≡ byte_in fs.disk blocks (pos + j)
  pub old : (j : ℕ) → j < bytes_read → buf' j ≡ buf j

-- The next chunk is not empty, and stays within what is left and within the block.
pub chunk_bounds :
    (pos size_left : ℕ)
    → size_left ≢ 0
    → (0 < next_chunk pos size_left)
      × (next_chunk pos size_left ≤ size_left)
      × (pos % 512 + next_chunk pos size_left ≤ 512)
unfolding next_chunk
chunk_bounds pos size_left more = (ground arith, ground arith, ground arith)

-- A byte of the chunk comes from the sector.
chunk_byte :
    (disk blocks buf : ℕ → ℕ) (pos bytes_read chunk j : ℕ)
    → pos % 512 + chunk ≤ 512
    → j < chunk
    → copy_bytes
        (copy_bytes disk (blocks (pos / 512) * 512) blank 0 (1 * 512))
        (pos % 512)
        buf
        bytes_read
        chunk
        (bytes_read + j)
      ≡ byte_in disk blocks (pos + j)
chunk_byte disk blocks buf pos bytes_read chunk j inside below =
    let sector = copy_bytes disk (blocks (pos / 512) * 512) blank 0 (1 * 512) in
    let same_block : pos / 512 ≡ (pos + j) / 512 = omega arith in
    let from : pos % 512 + (bytes_read + j - bytes_read) ≡ (pos + j) % 512 = omega arith in
    let start : blocks (pos / 512) * 512 + ((pos + j) % 512 - 0)
        ≡ blocks ((pos + j) / 512) * 512 + (pos + j) % 512 =
      rw same_block (omega arith) in
    copy_bytes_inside sector (pos % 512) buf bytes_read chunk (bytes_read + j) (omega arith)
      (omega arith)
    ∙ ap sector from
    ∙ copy_bytes_inside disk (blocks (pos / 512) * 512) blank 0 (1 * 512) ((pos + j) % 512)
        (omega arith) (omega arith)
    ∙ ap disk start

module _ (fuel : ℕ) (fs : Fs) (slot io_buf : ℕ) (blocks : ℕ → ℕ) (bytes_read size_left : ℕ)
    (buf : ℕ → ℕ) where
  abbrev after_chunk : (pos : ℕ) → Fs
  after_chunk pos = record fs {
    file_table =
        update fs.file_table slot
          (record (fs.file_table slot) { fd_pos = (pos + next_chunk pos size_left) % 2 ^ 32 });
  }

  read_step :
      (pos : ℕ)
      → (fs.file_table slot).fd_pos ≡ pos
      → size_left ≢ 0
      → io_buf ≢ 0
      → blocks (pos / 512) ≤ max_lba
      → read_loop (suc fuel) slot io_buf blocks bytes_read size_left buf fs
        ≡ read_loop fuel slot io_buf blocks
            (bytes_read + next_chunk pos size_left)
            (size_left - next_chunk pos size_left)
            (copy_bytes
              (copy_bytes fs.disk (blocks (pos / 512) * 512) blank 0 (1 * 512))
              (pos % 512)
              buf
              bytes_read
              (next_chunk pos size_left))
            (after_chunk pos)
  unfolding read_loop
  read_step pos here more some_buf inside =
      rw
        (
          ne→== size_left 0 more,
          here,
          ne→== io_buf 0 some_buf,
          ide_read-copy_bytes fs.part.dev_no fs.disk (blocks (pos / 512)) blank 1 (omega arith)
              (omega arith),
        )
        refl

-- A loop with nothing left to read.
nothing_left :
    (fs : Fs) (slot pos : ℕ) (blocks : ℕ → ℕ) (bytes_read size_left : ℕ) (buf : ℕ → ℕ)
    → size_left ≡ 0
    → (fs.file_table slot).fd_pos ≡ pos
    → ReadFrom fs slot pos blocks bytes_read size_left buf buf fs
nothing_left fs slot pos blocks bytes_read size_left buf z here = record {
  position = here ∙ omega arith;
  disk = refl;
  new = λ j below. absurd (omega arith);
  old = λ j below. refl;
}

pub read_loop_lem :
    (fuel : ℕ) (fs : Fs) (slot pos io_buf : ℕ) (blocks : ℕ → ℕ) (bytes_read size_left : ℕ)
    (buf : ℕ → ℕ)
    → size_left ≤ fuel
    → io_buf ≢ 0
    → (fs.file_table slot).fd_pos ≡ pos
    → pos + size_left < 2 ^ 32
    → ((k : ℕ) → pos / 512 ≤ k → k ≤ (pos + size_left - 1) / 512 → blocks k ≤ max_lba)
    → (buf' : ℕ → ℕ) × (fs' : Fs) × (read_loop fuel slot io_buf blocks bytes_read size_left buf fs
        ≡ done (bytes_read + size_left, buf') fs')
      × ReadFrom fs slot pos blocks bytes_read size_left buf buf' fs'
unfolding read_loop
read_loop_lem zero fs slot pos io_buf blocks bytes_read size_left buf enough some_buf here small
      inside =
    let z : size_left ≡ 0 = omega arith in
    let w : bytes_read ≡ bytes_read + size_left = omega arith in
    (
      buf,
      fs,
      ap (λ n. done (n, buf) fs) w,
      nothing_left fs slot pos blocks bytes_read size_left buf z here,
    )
read_loop_lem (suc fuel) fs slot pos io_buf blocks bytes_read size_left buf enough some_buf here
      small inside =
    elim (Bool-cases (size_left == 0)) [
      | inl e ↦
          let z : size_left ≡ 0 = ==→eq size_left 0 e in
          let w : bytes_read ≡ bytes_read + size_left = omega arith in
          (
            buf,
            fs,
            rw e (ap (λ n. done (n, buf) fs) w),
            nothing_left fs slot pos blocks bytes_read size_left buf z here,
          )
      | inr n ↦
          let chunk = next_chunk pos size_left in
          let more : size_left ≢ 0 = λ z. ground arith in
          let (positive, within, block) = chunk_bounds pos size_left more in
          let fs1 = after_chunk fuel fs slot io_buf blocks bytes_read size_left buf pos in
          let buf1 =
            copy_bytes (copy_bytes fs.disk (blocks (pos / 512) * 512) blank 0 (1 * 512)) (pos % 512)
              buf bytes_read chunk in
          let wrap : (pos + chunk) % 2 ^ 32 ≡ pos + chunk = omega arith in
          let here1 : (fs1.file_table slot).fd_pos ≡ pos + chunk =
            ap (λ f. f.fd_pos)
              (update_here fs.file_table slot
                (record (fs.file_table slot) { fd_pos = (pos + chunk) % 2 ^ 32 }))
            ∙ wrap in
          let (buf', fs', run, from) =
            read_loop_lem fuel fs1 slot (pos + chunk) io_buf blocks (bytes_read + chunk)
              (size_left - chunk) buf1 (omega arith) some_buf here1 (omega arith)
              (λ k lo hi. inside k (omega arith) (omega arith)) in
          let total : bytes_read + chunk + (size_left - chunk) ≡ bytes_read + size_left =
            omega arith in
          (
            buf',
            fs',
            read_step fuel fs slot io_buf blocks bytes_read size_left buf pos here more some_buf
                  (inside (pos / 512) (omega arith) (omega arith))
                ∙ run
                ∙ ap (λ t. done (t, buf') fs') total,
            record {
              position = from.position ∙ omega arith;
              disk = from.disk;
              new = λ j below. elim (Bool-cases (ltb j chunk)) [
                | inl e ↦
                    from.old (bytes_read + j) (ground arith)
                    ∙ chunk_byte fs.disk blocks buf pos bytes_read chunk j block (ground arith)
                | inr later ↦
                    let at : bytes_read + j ≡ bytes_read + chunk + (j - chunk) = ground arith in
                    let there : pos + chunk + (j - chunk) ≡ pos + j = ground arith in
                    ap buf' at
                    ∙ from.new (j - chunk) (ground arith)
                    ∙ ap (byte_in fs.disk blocks) there
              ];
              old = λ j below.
                  from.old j (omega arith)
                  ∙ copy_bytes_below
                      (copy_bytes fs.disk (blocks (pos / 512) * 512) blank 0 (1 * 512)) (pos % 512)
                      buf bytes_read chunk j below;
            },
          )
    ]
