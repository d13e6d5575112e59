-- ===== src/Inode/Words.antt =====
-- The bytes of an inode and the inode in bytes: inode.c copies a struct inode to the disk and back.
use ukernel.Prelude.{ℕ, ◌+◌, ◌-◌, ◌*◌, ◌/◌, ◌%◌, ◌^◌, ◌<◌, ◌≡◌, refl, ap, ◌∙◌, arith}
use ukernel.Inode.{Inode, byte_of, word_at, inode_word, inode_bytes, inode_of}

-- Four bytes hold a 32-bit word.
pub byte_of-word :
    (w : ℕ)
    → w < 2 ^ 32
    → byte_of w 0 + 256 * byte_of w 1 + 65536 * byte_of w 2 + 16777216 * byte_of w 3 ≡ w
unfolding byte_of
byte_of-word w small = omega arith

-- Every word of an inode is 32 bits wide.
pub record IsInode (inode : Inode) : Type 0 where
  pub no : inode.i_no < 2 ^ 32
  pub size : inode.i_size < 2 ^ 32
  pub cnts : inode.i_open_cnts < 2 ^ 32
  pub deny : inode.write_deny < 2 ^ 32
  pub sectors : (k : ℕ) → k < 13 → inode.i_sectors k < 2 ^ 32

inode_word-lt : (inode : Inode) (k : ℕ) → IsInode inode → inode_word inode k < 2 ^ 32
unfolding inode_word
inode_word-lt inode k is = ground (arith, is.no, is.size, is.cnts, is.deny, is.sectors (k - 4))

-- A word of the inode is read back from its bytes.
pub word_at-inode_bytes :
    (inode : Inode) (k : ℕ)
    → IsInode inode
    → word_at (inode_bytes inode) (4 * k) ≡ inode_word inode k
unfolding word_at inode_bytes
word_at-inode_bytes inode k is =
    let q0 : 4 * k / 4 ≡ k = omega arith in
    let q1 : (4 * k + 1) / 4 ≡ k = omega arith in
    let q2 : (4 * k + 2) / 4 ≡ k = omega arith in
    let q3 : (4 * k + 3) / 4 ≡ k = omega arith in
    let r0 : 4 * k % 4 ≡ 0 = omega arith in
    let r1 : (4 * k + 1) % 4 ≡ 1 = omega arith in
    let r2 : (4 * k + 2) % 4 ≡ 2 = omega arith in
    let r3 : (4 * k + 3) % 4 ≡ 3 = omega arith in
    rw (q0, q1, q2, q3, r0, r1, r2, r3)
      (byte_of-word (inode_word inode k) (inode_word-lt inode k is))

-- The inode that memory holds at `at` depends on 76 bytes.
pub word_at-same :
    (mem mem' : ℕ → ℕ) (at at' k : ℕ)
    → ((i : ℕ) → i < 76 → mem (at + i) ≡ mem' (at' + i))
    → k + 3 < 76
    → word_at mem (at + k) ≡ word_at mem' (at' + k)
unfolding word_at
word_at-same mem mem' at at' k same inside =
    let a1 : at + k + 1 ≡ at + (k + 1) = omega arith in
    let a2 : at + k + 2 ≡ at + (k + 2) = omega arith in
    let a3 : at + k + 3 ≡ at + (k + 3) = omega arith in
    let b1 : at' + k + 1 ≡ at' + (k + 1) = omega arith in
    let b2 : at' + k + 2 ≡ at' + (k + 2) = omega arith in
    let b3 : at' + k + 3 ≡ at' + (k + 3) = omega arith in
    rw
      (
        a1,
        a2,
        a3,
        b1,
        b2,
        b3,
        same k (omega arith),
        same (k + 1) (omega arith),
        same (k + 2) (omega arith),
        same (k + 3) (omega arith),
      )
      refl

-- Two inodes agree but for the count of openings.
pub record Same (a b : Inode) : Type 0 where
  pub no : a.i_no ≡ b.i_no
  pub size : a.i_size ≡ b.i_size
  pub deny : a.write_deny ≡ b.write_deny
  pub sectors : (k : ℕ) → k < 13 → a.i_sectors k ≡ b.i_sectors k

inode_word-sector : (inode : Inode) (k : ℕ) → k < 13 → inode_word inode (k + 4) ≡ inode.i_sectors k
unfolding inode_word
inode_word-sector inode k below = let back : k + 4 - 4 ≡ k = omega arith in rw back (ground arith)

-- Where memory holds the bytes of an inode, the inode is there.
pub inode_of-inode_bytes :
    (inode : Inode) (mem : ℕ → ℕ) (at : ℕ)
    → IsInode inode
    → ((i : ℕ) → i < 76 → mem (at + i) ≡ inode_bytes inode i)
    → Same (inode_of mem at) inode
unfolding inode_of inode_word
inode_of-inode_bytes inode mem at is held =
    let word : (k : ℕ) → k < 17 → word_at mem (at + 4 * k) ≡ inode_word inode k = λ k below.
      word_at-same mem (inode_bytes inode) at 0 (4 * k)
        (λ i lt. let z : 0 + i ≡ i = omega arith in rw z (held i lt)) (omega arith)
      ∙ (let z : 0 + 4 * k ≡ 4 * k = omega arith in rw z (word_at-inode_bytes inode k is)) in
    record {
      no = (let z : at ≡ at + 4 * 0 = omega arith in ap (word_at mem) z ∙ word 0 (omega arith));
      size = word 1 (omega arith);
      deny = word 3 (omega arith);
      sectors = λ k below.
          let z : at + 16 + 4 * k ≡ at + 4 * (k + 4) = omega arith in
          ap (word_at mem) z ∙ word (k + 4) (omega arith) ∙ inode_word-sector inode k below;
    }
