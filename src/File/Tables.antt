-- ===== src/File/Tables.antt =====
-- The places of file.c in file_table and fd_table: free ones, and what file_open and file_close do.
use ukernel.Prelude.{
  ℕ, zero, suc, ◌+◌, ◌%◌, ◌^◌, ◌≤◌, ◌<◌, ◌≡◌, ◌≢◌, refl, ap, ◌∙◌, inl, inr, ◌⊎◌, Bool, true, false,
  not, ◌||◌, ◌&&◌, arith, ltb, ◌==◌, Bool-cases, update, ne→==, update_here, Option, none, some,
  ==→eq, ret,
}
use ukernel.Inode.{File, Fs, inode_open, find_open}
use ukernel.File.{
  done, minus_one, free_from, get_free_slot_in_global, pcb_fd_install, is_minus_one, file_open,
  opened, free_slot, claim_write, bind_done, bind_minus_one,
}

-- The first free place, or that there is none.
abbrev pub FirstFree : (free : ℕ → Bool) (idx left : ℕ) → Option ℕ → Type 0
FirstFree free idx left none = (j : ℕ) → idx ≤ j → j < idx + left → free j ≡ false
FirstFree free idx left (some i) =
    (idx ≤ i) × (i < idx + left) × (free i ≡ true) × ((j : ℕ) → idx ≤ j → j < i → free j ≡ false)

-- One place more in front, which is taken.
one_more_taken :
    (free : ℕ → Bool) (idx left : ℕ) (o : Option ℕ)
    → free idx ≡ false
    → FirstFree free (idx + 1) left o
    → FirstFree free idx (suc left) o
one_more_taken free idx left none taken rest = λ j lo hi. elim (Bool-cases (j == idx)) [
  | inl e ↦ ap free (==→eq j idx e) ∙ taken
  | inr n ↦ rest j (ground arith) (omega arith)
]
one_more_taken free idx left (some i) taken (lo, hi, is, before) = (
  omega arith,
  omega arith,
  is,
  λ j low high. elim (Bool-cases (j == idx)) [
    | inl e ↦ ap free (==→eq j idx e) ∙ taken
    | inr n ↦ before j (ground arith) high
  ],
)

free_from-FirstFree :
    (left idx : ℕ) (free : ℕ → Bool) → FirstFree free idx left (free_from left idx free)
unfolding free_from
free_from-FirstFree zero idx free = λ j lo hi. absurd (omega arith)
free_from-FirstFree (suc left) idx free = elim (Bool-cases (free idx)) [
  | inl e ↦ rw e (omega arith, omega arith, e, λ j lo hi. absurd (omega arith))
  | inr n ↦ rw n (
      one_more_taken free idx left (free_from left (idx + 1) free) n
        (free_from-FirstFree left (idx + 1) free))
]

-- get_free_slot_in_global returns the lowest place from 3 to 31 whose inode is NULL, and -1 only if
-- there is none.
pub get_free_slot_in_global-FirstFree :
    (fs : Fs) → FirstFree (λ i. (fs.file_table i).fd_inode == 0) 3 29 (get_free_slot_in_global fs)
unfolding get_free_slot_in_global
get_free_slot_in_global-FirstFree fs =
    free_from-FirstFree 29 3 (λ i. (fs.file_table i).fd_inode == 0)

-- If place `fd` from 3 to 7 is the lowest of the thread's table that is -1, pcb_fd_install returns it
-- and puts the number there, and nothing else changes.
pub pcb_fd_install_lem :
    (fs : Fs) (global : Option ℕ) (fd : ℕ)
    → 3 ≤ fd
    → fd < 8
    → fs.fd_table fd ≡ none
    → ((j : ℕ) → 3 ≤ j → j < fd → is_minus_one (fs.fd_table j) ≡ false)
    → pcb_fd_install global fs ≡ done fd (record fs { fd_table = update fs.fd_table fd global })
unfolding pcb_fd_install
pcb_fd_install_lem fs global fd low high free before =
    rw
      (
        pcb_fd_install,
        first (free_from 5 3 (λ i. is_minus_one (fs.fd_table i)))
            (free_from-FirstFree 5 3 (λ i. is_minus_one (fs.fd_table i))),
      )
      refl
  where
    first : (o : Option ℕ) → FirstFree (λ i. is_minus_one (fs.fd_table i)) 3 5 o → o ≡ some fd
    first none all =
        let used = all fd low high in let unused = ap is_minus_one free in absurd (ground arith)
    first (some i) (lo, hi, is, earlier) = elim (Bool-cases (ltb i fd)) [
      | inl e ↦ let used = before i lo (ground arith) in absurd (ground arith)
      | inr n ↦ elim (Bool-cases (ltb fd i)) [
        | inl e ↦
            let used = earlier fd low (ground arith) in
            let unused = ap is_minus_one free in absurd (ground arith)
        | inr m ↦ let same : i ≡ fd = ground arith in ap (λ k. some k) same
      ]
    ]

claim_write-denied :
    (fs : Fs) (addr flag : ℕ)
    → (((flag == 1) || (flag == 2)) && not ((fs.inodes addr).write_deny == 0)) ≡ true
    → claim_write addr flag fs ≡ minus_one fs
unfolding claim_write
claim_write-denied fs addr flag test = rw test refl

inode_open-listed :
    (fs : Fs) (inode_no addr : ℕ)
    → find_open fs.inodes inode_no fs.open_inodes ≡ some addr
    → inode_open fs inode_no
      ≡ ret (
        addr,
        record fs {
          inodes = update fs.inodes addr (record (fs.inodes addr) {
            i_open_cnts = ((fs.inodes addr).i_open_cnts + 1) % 2 ^ 32;
          });
        },
      )
unfolding inode_open
inode_open-listed fs inode_no addr listed = rw (inode_open, listed) refl

-- If a place of file_table is free, the inode is open and its write_deny is set, then file_open for
-- writing returns -1, but the place stays taken and the inode counted as opened once more.
pub file_open-denied :
    (fs : Fs) (inode_no flag fd_idx addr : ℕ)
    → get_free_slot_in_global fs ≡ some fd_idx
    → find_open fs.inodes inode_no fs.open_inodes ≡ some addr
    → (fs.inodes addr).write_deny ≢ 0
    → (flag ≡ 1) ⊎ (flag ≡ 2)
    → (fs' : Fs) × (file_open inode_no flag fs ≡ minus_one fs')
      × ((fs'.file_table fd_idx).fd_inode ≡ addr)
      × ((fs'.inodes addr).i_open_cnts ≡ ((fs.inodes addr).i_open_cnts + 1) % 2 ^ 32)
      × (fs'.fd_table ≡ fs.fd_table)
unfolding file_open
file_open-denied fs inode_no flag fd_idx addr place listed denied writes =
    let inode = fs.inodes addr in
    let counted = record inode { i_open_cnts = (inode.i_open_cnts + 1) % 2 ^ 32 } in
    let file : File = record { fd_pos = 0; fd_flag = flag; fd_inode = addr } in
    let kept = update_here fs.inodes addr counted in
    let writing : ((flag == 1) || (flag == 2)) ≡ true = ground arith in
    let after : Fs = record fs {
      inodes = update fs.inodes addr counted;
      file_table = update fs.file_table fd_idx file;
    } in
    let test : (((flag == 1) || (flag == 2))
          && not ((update fs.inodes addr counted addr).write_deny == 0))
        ≡ true =
      rw (writing, kept, ne→== inode.write_deny 0 denied) refl in
    (
      after,
      bind_done (free_slot (get_free_slot_in_global fs)) _ fs (ap (λ o. free_slot o fs) place)
          ∙ bind_done (λ fs1. opened (inode_open fs1 inode_no)) _ fs
              (ap opened (inode_open-listed fs inode_no addr listed))
          ∙ bind_minus_one (claim_write addr flag) (λ _. pcb_fd_install (some fd_idx)) after
              (claim_write-denied after addr flag test),
      ap (λ f. f.fd_inode) (update_here fs.file_table fd_idx file),
      ap (λ n. n.i_open_cnts) kept,
      refl,
    )
