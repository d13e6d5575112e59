-- ===== src/File/Appending.antt =====
-- The loop of file_write of file.c appends to the file, block by block.
use ukernel.Prelude.{
  ℕ, zero, suc, ◌+◌, ◌-◌, ◌*◌, ◌/◌, ◌%◌, ◌^◌, ◌≤◌, ◌<◌, ◌≡◌, ◌≢◌, refl, sym, ap, ◌∙◌, inl, inr,
  Bool, true, false, arith, ltb, ◌==◌, Bool-cases, update_here, ==→eq,
}
use ukernel.Disk.{max_lba}
use ukernel.Inode.{Fs}
use ukernel.File.{done}
use ukernel.File.Write.{next_chunk, write_blocks}
use ukernel.File.Chunk.{
  old_sector, new_disk, after_write, old_byte, write_step, written_byte, kept_byte, other_sector,
}
use ukernel.File.Content.{byte_in, chunk_bounds}

-- What the loop leaves, from `left` bytes on.
pub record Appended (disk : ℕ → ℕ) (addr size : ℕ) (blocks buf : ℕ → ℕ) (written left : ℕ)
    (first : Bool) (fs' : Fs) : Type 0 where
  pub new_size : (fs'.inodes addr).i_size ≡ size + left
  pub bytes :
      (p : ℕ) → size ≤ p → p < size + left → byte_in fs'.disk blocks p ≡ buf (written + (p - size))
  pub front :
      (p : ℕ)
      → first ≡ true
      → p < size
      → p / 512 ≡ size / 512
      → byte_in fs'.disk blocks p ≡ byte_in disk blocks p
  pub elsewhere :
      (a : ℕ)
      → ((k : ℕ) → 0 < left → size / 512 ≤ k → k * 512 < size + left → a / 512 ≢ blocks k)
      → fs'.disk a ≡ disk a

-- The sectors that the loop writes are on the disk, and no two blocks share one.
pub record Writable (size left : ℕ) (blocks : ℕ → ℕ) : Type 0 where
  pub on_disk : (k : ℕ) → size / 512 ≤ k → k * 512 < size + left → blocks k ≤ max_lba
  pub apart : (j k : ℕ) → size / 512 ≤ j → j < k → k * 512 < size + left → blocks j ≢ blocks k

rest-Writable :
    (size left chunk : ℕ) (blocks : ℕ → ℕ)
    → chunk ≤ left
    → Writable size left blocks
    → Writable (size + chunk) (left - chunk) blocks
rest-Writable size left chunk blocks within is = record {
  on_disk = λ k lo hi. is.on_disk k (omega arith) (omega arith);
  apart = λ j k lo lt hi. is.apart j k (omega arith) lt (omega arith);
}

-- Nothing is left to write.
unchanged :
    (fs : Fs) (addr size : ℕ) (blocks buf : ℕ → ℕ) (written left : ℕ) (first : Bool)
    → left ≡ 0
    → (fs.inodes addr).i_size ≡ size
    → Appended fs.disk addr size blocks buf written left first fs
unchanged fs addr size blocks buf written left first z here = record {
  new_size = here ∙ omega arith;
  bytes = λ p lo hi. absurd (omega arith);
  front = λ p f lo same. refl;
  elsewhere = λ a differ. refl;
}

-- A chunk that does not take all that is left fills its block.
chunk_fills :
    (size left : ℕ) → next_chunk size left < left → size % 512 + next_chunk size left ≡ 512
unfolding next_chunk
chunk_fills size left more = ground arith

-- What the loop writes after the first chunk is not in the chunk's block.
later_blocks :
    (size left chunk a : ℕ) (blocks : ℕ → ℕ)
    → Writable size left blocks
    → chunk ≤ left
    → (chunk < left → size % 512 + chunk ≡ 512)
    → a / 512 ≡ blocks (size / 512)
    → (k : ℕ) → 0 < left - chunk
    → (size + chunk) / 512 ≤ k
    → k * 512 < size + chunk + (left - chunk)
    → a / 512 ≢ blocks k
later_blocks size left chunk a blocks is within fills here k more lo hi same =
    let full : size % 512 + chunk ≡ 512 = fills (omega arith) in
    let after : size / 512 < k = omega arith in
    is.apart (size / 512) k (omega arith) after (omega arith) (sym here ∙ same)

-- The first chunk, and what is appended after it.
module _ (fs : Fs) (slot addr size : ℕ) (blocks buf : ℕ → ℕ) (written left : ℕ) (first : Bool)
    (fs' : Fs) (within : next_chunk size left ≤ left)
    (block : size % 512 + next_chunk size left ≤ 512) (is : Writable size left blocks)
    (rest : Appended
      (new_disk fs slot addr size blocks buf written left first)
      addr
      (size + next_chunk size left)
      blocks
      buf
      (written + next_chunk size left)
      (left - next_chunk size left)
      false
      fs') where
  stays :
      (p : ℕ)
      → p / 512 ≡ size / 512
      → byte_in fs'.disk blocks p
        ≡ new_disk fs slot addr size blocks buf written left first
            (blocks (size / 512) * 512 + p % 512)
  stays p same =
      let place : (blocks (p / 512) * 512 + p % 512) / 512 ≡ blocks (p / 512) = omega arith in
      rest.elsewhere (blocks (p / 512) * 512 + p % 512) (
        later_blocks size left (next_chunk size left) (blocks (p / 512) * 512 + p % 512) blocks is
          within (chunk_fills size left) (place ∙ ap blocks same))
      ∙ ap
          (λ k. new_disk fs slot addr size blocks buf written left first (blocks k * 512 + p % 512))
          same

  chunk_bytes :
      (p : ℕ) → size ≤ p → p < size + left → byte_in fs'.disk blocks p ≡ buf (written + (p - size))
  chunk_bytes p lo hi =
      let chunk = next_chunk size left in
      elim (Bool-cases (ltb p (size + chunk))) [
        | inl e ↦
            let below : p < size + chunk = ground arith in
            let same : p / 512 ≡ size / 512 = omega arith in
            let place : written + (p % 512 - size % 512) ≡ written + (p - size) = omega arith in
            stays p same
            ∙ written_byte fs.disk buf (old_sector fs slot addr size blocks buf written left first)
                (blocks (size / 512)) (size % 512) written chunk (p % 512) (omega arith)
                (omega arith) block
            ∙ ap buf place
        | inr n ↦
            let above : size + chunk ≤ p = ground arith in
            let place : written + chunk + (p - (size + chunk)) ≡ written + (p - size) =
              omega arith in
            rest.bytes p above (omega arith) ∙ ap buf place
      ]

  front_bytes :
      (p : ℕ)
      → first ≡ true
      → p < size
      → p / 512 ≡ size / 512
      → byte_in fs'.disk blocks p ≡ byte_in fs.disk blocks p
  front_bytes p f lo same =
      let lba = blocks (size / 512) in
      stays p same
      ∙ kept_byte fs.disk buf (old_sector fs slot addr size blocks buf written left first) lba
          (size % 512) written (next_chunk size left) (p % 512) (omega arith) (omega arith)
      ∙ old_byte fs slot addr size blocks buf written left first (p % 512) f (omega arith)
      ∙ ap (λ k. fs.disk (blocks k * 512 + p % 512)) (sym same)

  other_bytes :
      (a : ℕ)
      → ((k : ℕ) → 0 < left → size / 512 ≤ k → k * 512 < size + left → a / 512 ≢ blocks k)
      → 0 < next_chunk size left
      → fs'.disk a ≡ fs.disk a
  other_bytes a differ positive =
      rest.elsewhere a (λ k more lo hi. differ k (omega arith) (omega arith) (omega arith))
      ∙ other_sector fs.disk buf (old_sector fs slot addr size blocks buf written left first)
          (blocks (size / 512)) (size % 512) written (next_chunk size left) a
          (differ (size / 512) (omega arith) (omega arith) (omega arith))

  after_chunk :
      0 < next_chunk size left → Appended fs.disk addr size blocks buf written left first fs'
  after_chunk positive = record {
    new_size = rest.new_size ∙ omega arith;
    bytes = chunk_bytes;
    front = front_bytes;
    elsewhere = λ a differ. other_bytes a differ positive;
  }

-- file_write's loop, started at the end of the file (byte `size`) with `left` bytes still to write,
-- fuel for each of them and a size that stays below 2^32, where the blocks it writes lie on the disk
-- and no two are the same: it ends and returns `written` and `left` together. The file is then
-- `left` bytes longer, and the bytes past the old end are those of the buffer from `written` on;
-- when it is the loop's first round, the file's last block keeps the bytes it had; and a byte of
-- the disk outside the blocks that are written is as it was.
pub write_blocks_lem :
    (fuel : ℕ) (fs : Fs) (slot addr size : ℕ) (blocks buf : ℕ → ℕ) (written left : ℕ) (first : Bool)
    → left ≤ fuel
    → (fs.inodes addr).i_size ≡ size
    → size + left < 2 ^ 32
    → Writable size left blocks
    → (fs' : Fs) × (write_blocks fuel slot addr blocks buf written left first fs
        ≡ done (written + left) fs')
      × Appended fs.disk addr size blocks buf written left first fs'
unfolding write_blocks
write_blocks_lem zero fs slot addr size blocks buf written left first enough here small is =
    let z : left ≡ 0 = omega arith in
    let w : written ≡ written + left = omega arith in
    (fs, ap (λ n. done n fs) w, unchanged fs addr size blocks buf written left first z here)
write_blocks_lem (suc fuel) fs slot addr size blocks buf written left first enough here small is =
    elim (Bool-cases (left == 0)) [
      | inl e ↦
          let z : left ≡ 0 = ==→eq left 0 e in
          let w : written ≡ written + left = omega arith in
          (
            fs,
            rw e (ap (λ n. done n fs) w),
            unchanged fs addr size blocks buf written left first z here,
          )
      | inr n ↦
          let more : left ≢ 0 = λ z. ground arith in
          let chunk = next_chunk size left in
          let (positive, within, block) = chunk_bounds size left more in
          let fs1 = after_write fs slot addr size blocks buf written left first in
          let wrap : (size + chunk) % 2 ^ 32 ≡ size + chunk = omega arith in
          let here1 : (fs1.inodes addr).i_size ≡ size + chunk =
            ap (λ i. i.i_size)
              (update_here fs.inodes addr
                (record (fs.inodes addr) { i_size = (size + chunk) % 2 ^ 32 }))
            ∙ wrap in
          let (fs', run, rest) =
            write_blocks_lem fuel fs1 slot addr (size + chunk) blocks buf (written + chunk)
              (left - chunk) false (omega arith) here1 (omega arith)
              (rest-Writable size left chunk blocks within is) in
          let total : written + chunk + (left - chunk) ≡ written + left = omega arith in
          (
            fs',
            write_step fs slot addr size blocks buf written left first fuel here more
                  (is.on_disk (size / 512) (omega arith) (omega arith))
                ∙ run
                ∙ ap (λ t. done t fs') total,
            after_chunk fs slot addr size blocks buf written left first fs' within block is rest
                positive,
          )
    ]
