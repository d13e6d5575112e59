-- ===== src/File/Chunk.antt =====
-- One round of the loop of file_write of file.c, and the sector it writes.
use ukernel.Prelude.{
  ℕ, suc, ◌+◌, ◌-◌, ◌*◌, ◌/◌, ◌%◌, ◌^◌, ◌≤◌, ◌<◌, ◌≡◌, ◌≢◌, refl, ap, ◌∙◌, inl, inr, Bool, true,
  false, arith, ltb, if◌then◌else◌, Bool-cases, update, ne→==,
}
use ukernel.Disk.{copy_bytes, max_lba}
use ukernel.Disk.Transfer.{
  ide_read-copy_bytes, ide_write-copy_bytes, copy_bytes_inside, copy_bytes_below, copy_bytes_above,
}
use ukernel.Inode.{Fs, blank}
use ukernel.File.Write.{next_chunk, write_blocks}

module _ (fs : Fs) (slot addr size : ℕ) (blocks buf : ℕ → ℕ) (written left : ℕ) (first : Bool) where
  abbrev pub old_sector : ℕ → ℕ
  old_sector =
      if first then copy_bytes fs.disk (blocks (size / 512) * 512) blank 0 (1 * 512) else blank

  pub old_byte :
      (q : ℕ) → first ≡ true → q < 512 → old_sector q ≡ fs.disk (blocks (size / 512) * 512 + q)
  old_byte q f low =
      let place : blocks (size / 512) * 512 + (q - 0) ≡ blocks (size / 512) * 512 + q =
        omega arith in
      rw f (
        copy_bytes_inside fs.disk (blocks (size / 512) * 512) blank 0 (1 * 512) q (omega arith)
          (omega arith)
        ∙ ap fs.disk place)

  abbrev pub new_disk : ℕ → ℕ
  new_disk =
      copy_bytes (copy_bytes buf written old_sector (size % 512) (next_chunk size left)) 0 fs.disk
        (blocks (size / 512) * 512) (1 * 512)

  abbrev pub after_write : Fs
  after_write =
      let chunk = next_chunk size left in
      record fs {
        disk = new_disk;
        inodes =
            update fs.inodes addr (record (fs.inodes addr) { i_size = (size + chunk) % 2 ^ 32 });
        file_table = update fs.file_table slot (record (fs.file_table slot) {
          fd_pos = ((fs.file_table slot).fd_pos + chunk) % 2 ^ 32;
        });
      }

  pub write_step :
      (fuel : ℕ)
      → (fs.inodes addr).i_size ≡ size
      → left ≢ 0
      → blocks (size / 512) ≤ max_lba
      → write_blocks (suc fuel) slot addr blocks buf written left first fs
        ≡ write_blocks fuel slot addr blocks buf
            (written + next_chunk size left)
            (left - next_chunk size left)
            false
            after_write
  unfolding write_blocks
  write_step fuel here more inside = elim (Bool-cases first) [
    | inl e ↦
        rw
          (
            ne→== left 0 more,
            e,
            here,
            ide_read-copy_bytes fs.part.dev_no fs.disk (blocks (size / 512)) blank 1 (omega arith)
                (omega arith),
            ide_write-copy_bytes fs.part.dev_no fs.disk (blocks (size / 512))
                (copy_bytes buf written
                  (copy_bytes fs.disk (blocks (size / 512) * 512) blank 0 (1 * 512)) (size % 512)
                  (next_chunk size left))
                1 (omega arith) (omega arith),
          )
          refl
    | inr n ↦
        rw
          (
            ne→== left 0 more,
            n,
            here,
            ide_write-copy_bytes fs.part.dev_no fs.disk (blocks (size / 512))
                (copy_bytes buf written blank (size % 512) (next_chunk size left)) 1 (omega arith)
                (omega arith),
          )
          refl
  ]

-- A sector that is written with a chunk in it.
module _ (disk buf old : ℕ → ℕ) (lba off written chunk : ℕ) where
  abbrev sector_written : ℕ → ℕ
  sector_written = copy_bytes (copy_bytes buf written old off chunk) 0 disk (lba * 512) (1 * 512)

  sector_byte :
      (q : ℕ) → q < 512 → sector_written (lba * 512 + q) ≡ copy_bytes buf written old off chunk q
  sector_byte q low =
      let place : 0 + (lba * 512 + q - lba * 512) ≡ q = omega arith in
      copy_bytes_inside (copy_bytes buf written old off chunk) 0 disk (lba * 512) (1 * 512)
        (lba * 512 + q) (omega arith) (omega arith)
      ∙ ap (copy_bytes buf written old off chunk) place

  pub written_byte :
      (q : ℕ)
      → off ≤ q
      → q < off + chunk
      → off + chunk ≤ 512
      → sector_written (lba * 512 + q) ≡ buf (written + (q - off))
  written_byte q lo hi inside =
      sector_byte q (omega arith) ∙ copy_bytes_inside buf written old off chunk q lo hi

  pub kept_byte : (q : ℕ) → q < off → off ≤ 512 → sector_written (lba * 512 + q) ≡ old q
  kept_byte q lo inside =
      sector_byte q (omega arith) ∙ copy_bytes_below buf written old off chunk q lo

  pub other_sector : (a : ℕ) → a / 512 ≢ lba → sector_written a ≡ disk a
  other_sector a differ = elim (Bool-cases (ltb a (lba * 512))) [
    | inl e ↦
        copy_bytes_below (copy_bytes buf written old off chunk) 0 disk (lba * 512) (1 * 512) a
          (ground arith)
    | inr n ↦
        copy_bytes_above (copy_bytes buf written old off chunk) 0 disk (lba * 512) (1 * 512) a
          (ground arith)
  ]
