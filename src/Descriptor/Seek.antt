-- ===== src/Descriptor/Seek.antt =====
-- sys_lseek of fs.c on every branch.
use ukernel.Prelude.{
  ℕ, ◌+◌, ◌-◌, ◌%◌, ◌^◌, ◌<◌, ◌≡◌, refl, true, false, ◌&&◌, ◌||◌, arith, ltb, leb, if◌then◌else◌,
  update, lt→ltb, some, Bool-cases, inl, inr,
}
use ukernel.Inode.{Fs}
use ukernel.File.{done, minus_one}
use ukernel.Descriptor.{fd_local2global, sys_lseek, seek_pos, negative, greater}

pub fd_local2global_lem :
    (fs : Fs) (fd slot : ℕ)
    → fs.fd_table fd ≡ some slot
    → slot < 32
    → fd_local2global fd fs ≡ done slot fs
unfolding fd_local2global
fd_local2global_lem fs fd slot e small = rw (e, lt→ltb slot 32 small) refl

-- A position is refused exactly where it is not below the size.
refused :
    (new size : ℕ)
    → new < 2 ^ 32
    → size < 2 ^ 31
    → (negative new || greater new ((size + (2 ^ 32 - 1)) % 2 ^ 32)) ≡ leb size new
refused new size word small = ground arith

seek_word :
    (whence fd_pos size offset : ℕ) → offset < 2 ^ 32 → seek_pos whence fd_pos size offset < 2 ^ 32
unfolding seek_pos
seek_word whence fd_pos size offset word = ground arith

-- What sys_lseek moves to.
abbrev pub sought : Fs → (slot offset whence : ℕ) → ℕ
sought fs slot offset whence =
    seek_pos whence (fs.file_table slot).fd_pos (fs.inodes (fs.file_table slot).fd_inode).i_size
      offset

-- For a descriptor of an open file of fewer than 2 ^ 31 bytes, `whence` 1, 2 or 3, and the word of
-- the offset, sys_lseek returns the new position and sets it if it lies within the file, and
-- otherwise returns -1 and changes nothing: the position is the offset, the old position plus the
-- offset or the size plus the offset, on 32 bits.
pub sys_lseek_lem :
    (fs : Fs) (fd slot offset whence : ℕ)
    → fd < 2 ^ 31
    → fs.fd_table fd ≡ some slot
    → slot < 32
    → 0 < whence
    → whence < 4
    → offset < 2 ^ 32
    → (fs.inodes (fs.file_table slot).fd_inode).i_size < 2 ^ 31
    → sys_lseek fd offset whence fs ≡ (
        if ltb (sought fs slot offset whence) (fs.inodes (fs.file_table slot).fd_inode).i_size
        then done (sought fs slot offset whence) (record fs {
          file_table =
              update fs.file_table slot
                (record (fs.file_table slot) { fd_pos = sought fs slot offset whence });
        })
        else minus_one fs)
unfolding sys_lseek
sys_lseek_lem fs fd slot offset whence positive here small lo hi word size =
    let i_size = (fs.inodes (fs.file_table slot).fd_inode).i_size in
    let new = sought fs slot offset whence in
    let not_negative : negative fd ≡ false = ground arith in
    let valid : (ltb 0 whence && ltb whence 4) ≡ true = ground arith in
    let test =
      refused new i_size (seek_word whence (fs.file_table slot).fd_pos i_size offset word) size in
    elim (Bool-cases (leb i_size new)) [
      | inl e ↦
          let behind : ltb new i_size ≡ false = ground arith in
          rw (behind, not_negative, valid, fd_local2global_lem fs fd slot here small, test, e) refl
      | inr n ↦
          let within : ltb new i_size ≡ true = ground arith in
          rw (within, not_negative, valid, fd_local2global_lem fs fd slot here small, test, n) refl
    ]
