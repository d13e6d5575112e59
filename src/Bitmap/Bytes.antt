-- ===== src/Bitmap/Bytes.antt =====
-- One byte of a bitmap: what a set or a cleared bit does to the eight tests. Checked at every byte.

use ukernel.Prelude.{
  ℕ, zero, suc, ◌<◌, ◌≡◌, refl, Bool, true, false, not, ◌&&◌, arith, ltb, ◌==◌, if◌then◌else◌,
  all_below, all_below_sound, all_below_of, same, same→eq,
}
use ukernel.Bitmap.{byte_test, byte_set}

-- what a test of bit `j` sees after `value` is written to bit `k`
abbrev written : ℕ → ℕ → ℕ → ℕ → Bool
written value byte k j = if j == k then not (value == 0) else byte_test byte j

set_row : ℕ → ℕ → ℕ → Bool
unfolding all_below byte_test byte_set
set_row value byte k =
    ltb (byte_set value byte k) 256
    && all_below 8 (λ j. same (byte_test (byte_set value byte k) j) (written value byte k j))

set_table : ℕ → Bool
unfolding set_row all_below
set_table value = all_below 256 (λ byte. all_below 8 (set_row value byte))

set_table_zero : set_table 0 ≡ true
unfolding set_table
set_table_zero = refl

set_table_one : set_table 1 ≡ true
unfolding set_table
set_table_one = refl

full_table : all_below 256 (λ byte. same (byte == 0xff) (all_below 8 (byte_test byte))) ≡ true
unfolding all_below byte_test
full_table = refl

module _ (value byte k : ℕ) (small : value < 2) (hb : byte < 256) (hk : k < 8) where
  set_row-true : set_row value byte k ≡ true
  unfolding set_table
  set_row-true =
      all_below_sound 8 (set_row value byte) k
        (all_below_sound 256 (λ x. all_below 8 (set_row value x)) byte (table value small) hb) hk
    where
      table : (v : ℕ) → v < 2 → set_table v ≡ true
      table zero h = set_table_zero
      table (suc zero) h = set_table_one
      table (suc (suc v)) h = absurd (omega arith)

  -- A written byte is still a byte.
  pub byte_set-lt : byte_set value byte k < 256
  unfolding set_row
  byte_set-lt = ground (arith, set_row-true)

  -- Bit `k` reads as it was written, every other bit as before.
  pub byte_test-byte_set :
      (j : ℕ) → j < 8 → byte_test (byte_set value byte k) j ≡ written value byte k j
  byte_test-byte_set j hj = same→eq _ _ (all_below_sound 8 _ j row hj)
    where
      row :
          all_below 8 (λ j. same (byte_test (byte_set value byte k) j) (written value byte k j))
          ≡ true
      row = unfold set_row in ground (arith, set_row-true)

-- A byte with eight set bits is 0xff, and 0xff has eight set bits.
pub eq_ff_of_all :
    (byte : ℕ) → byte < 256 → ((k : ℕ) → k < 8 → byte_test byte k ≡ true) → byte ≡ 0xff
eq_ff_of_all byte h all =
    ground (arith, all_below_sound 256 _ byte full_table h, all_below_of 8 (byte_test byte) all)

pub byte_test-ff : (k : ℕ) → k < 8 → byte_test 0xff k ≡ true
unfolding byte_test all_below
byte_test-ff k h = all_below_sound 8 (byte_test 0xff) k refl h

zero_table : all_below 8 (λ k. not (byte_test 0 k)) ≡ true
unfolding byte_test all_below
zero_table = refl

pub byte_test-zero : (k : ℕ) → k < 8 → byte_test 0 k ≡ false
byte_test-zero k h = ground (arith, all_below_sound 8 (λ k. not (byte_test 0 k)) k zero_table h)
