-- ===== src/Format/FreeBlocks.antt =====
-- The block bitmap that partition_format of fs.c writes.

use ukernel.Prelude.{
  ℕ, ◌+◌, ◌-◌, ◌/◌, ◌%◌, ◌≤◌, ◌<◌, ◌≡◌, refl, ◌∙◌, inl, inr, true, false, ◌&&◌, ◌||◌, arith, ltb,
  leb, ◌==◌, ==_refl, Bool-cases, all_below, all_below_sound, same, same→eq, ==→eq,
}
use ukernel.Bitmap.{byte_test, byte_set, bitmap_scan_test}
use ukernel.Bitmap.Bytes.{byte_test-ff, byte_test-zero}
use ukernel.Format.{clear_bits, new_block_bitmap}

-- The last byte: of its bits, those after `last_bit` stay set.
clear_table :
    all_below 8 (λ last_bit.
      all_below 8 (λ k. same (byte_test (clear_bits (last_bit + 1) 0 0xff) k) (ltb last_bit k)))
    ≡ true
unfolding all_below clear_bits byte_set byte_test
clear_table = refl

clear_bits_lem :
    (last_bit k : ℕ)
    → last_bit < 8
    → k < 8
    → byte_test (clear_bits (last_bit + 1) 0 0xff) k ≡ ltb last_bit k
clear_bits_lem last_bit k small low =
    same→eq (byte_test (clear_bits (last_bit + 1) 0 0xff) k) (ltb last_bit k) (
      all_below_sound 8
        (λ i. same (byte_test (clear_bits (last_bit + 1) 0 0xff) i) (ltb last_bit i)) k
        (all_below_sound 8
          (λ r. all_below 8 (λ i. same (byte_test (clear_bits (r + 1) 0 0xff) i) (ltb r i)))
          last_bit clear_table small)
        low)

first_table : all_below 8 (λ k. same (byte_test 1 k) (k == 0)) ≡ true
unfolding all_below byte_test
first_table = refl

module _ (bit_len i : ℕ) where
  byte_last : i ≡ bit_len / 8 → new_block_bitmap bit_len i ≡ clear_bits (bit_len % 8 + 1) 0 0xff
  unfolding new_block_bitmap
  byte_last e =
      let here : (leb (bit_len / 8) (bit_len / 8)
            && ltb (bit_len / 8) (bit_len / 8 + (512 - bit_len / 8 % 512)))
          ≡ true =
        ground arith in
      rw (e, ==_refl (bit_len / 8), here) refl

  byte_behind : bit_len / 8 < i → i / 512 ≤ bit_len / 8 / 512 → new_block_bitmap bit_len i ≡ 0xff
  unfolding new_block_bitmap
  byte_behind lo hi = ground arith

  byte_first : i ≡ 0 → 8 ≤ bit_len → new_block_bitmap bit_len i ≡ 1
  unfolding new_block_bitmap
  byte_first e some_blocks = rw e (ground arith)

  byte_before : 0 < i → i < bit_len / 8 → new_block_bitmap bit_len i ≡ 0
  unfolding new_block_bitmap
  byte_before lo hi = ground arith

last_order :
    (bit_len j : ℕ)
    → 8 ≤ bit_len
    → j / 8 ≡ bit_len / 8
    → ltb (bit_len % 8) (j % 8) ≡ ((j == 0) || ltb bit_len j)
last_order bit_len j some_blocks e = ground arith

-- For 8 blocks or more, and a bit up to the end of the sector in which bit `bit_len` lies, the bit is
-- set in the new bitmap if it is bit 0 or comes after bit `bit_len`, and otherwise clear: bit
-- `bit_len` itself, for which there is no block, is clear.
pub new_block_bitmap_lem :
    (bit_len j len : ℕ)
    → 8 ≤ bit_len
    → j / 4096 ≤ bit_len / 4096
    → bitmap_scan_test (record { btmp_bytes_len = len; bits = new_block_bitmap bit_len }) j
      ≡ ((j == 0) || ltb bit_len j)
unfolding bitmap_scan_test
new_block_bitmap_lem bit_len j len some_blocks inside = elim (Bool-cases (j / 8 == bit_len / 8)) [
  | inl e ↦ rw (byte_last bit_len (j / 8) (==→eq (j / 8) (bit_len / 8) e)) (
      clear_bits_lem (bit_len % 8) (j % 8) (omega arith) (omega arith)
      ∙ last_order bit_len j some_blocks (==→eq (j / 8) (bit_len / 8) e))
  | inr n ↦ elim (Bool-cases (ltb (bit_len / 8) (j / 8))) [
    | inl behind ↦
        let after : ltb bit_len j ≡ true = ground arith in
        rw (byte_behind bit_len (j / 8) (ground arith) (omega arith), after)
          (byte_test-ff (j % 8) (omega arith) ∙ ground arith)
    | inr before ↦ elim (Bool-cases (j / 8 == 0)) [
      | inl z ↦
          let zero_byte : j / 8 ≡ 0 = ==→eq (j / 8) 0 z in
          let low : ltb bit_len j ≡ false = ground arith in
          let bit : (j % 8 == 0) ≡ (j == 0) = ground arith in
          rw (byte_first bit_len (j / 8) zero_byte some_blocks, low)
            (same→eq (byte_test 1 (j % 8)) (j % 8 == 0) (
                all_below_sound 8 (λ k. same (byte_test 1 k) (k == 0)) (j % 8) first_table
                  (omega arith))
              ∙ bit
              ∙ ground arith)
      | inr nz ↦
          let low : ((j == 0) || ltb bit_len j) ≡ false = ground arith in
          rw (byte_before bit_len (j / 8) (ground arith) (ground arith), low)
            (byte_test-zero (j % 8) (omega arith))
    ]
  ]
]
