-- ===== src/Bitmap/First.antt =====
-- The two loops at the head of bitmap_scan: the first byte that is not full, and its first clear
-- bit.
use ukernel.Prelude.{
  ℕ, zero, suc, ◌+◌, ◌*◌, ◌/◌, ◌%◌, ◌≤◌, ◌<◌, ◌≡◌, ◌≢◌, refl, inl, inr, Bool, true, false, arith,
  ◌==◌, if◌then◌else◌, Bool-cases,
}
use ukernel.Bitmap.{
  Bitmap, bit_cnt, byte_test, bitmap_scan_test, skip_full_bytes, first_clear_bit, clear_bit_from,
}
use ukernel.Bitmap.Bytes.{eq_ff_of_all, byte_test-ff}
use ukernel.Bitmap.Set.{IsBytes}

-- The first of the numbers i, …, i + left - 1 at which `p` fails, or i + left.
first_not : ℕ → (ℕ → Bool) → ℕ → ℕ
first_not zero p i = i
first_not (suc left) p i = if p i then first_not left p (i + 1) else i

module _ (p : ℕ → Bool) where
  first_not_bounds : (left i : ℕ) → (i ≤ first_not left p i) × (first_not left p i ≤ i + left)
  unfolding first_not
  first_not_bounds zero i = omega arith
  first_not_bounds (suc left) i = ground (arith, first_not_bounds left (i + 1))

  first_not_before : (left i j : ℕ) → i ≤ j → j < first_not left p i → p j ≡ true
  unfolding first_not
  first_not_before zero i j h k = absurd (omega arith)
  first_not_before (suc left) i j h k = elim (Bool-cases (i == j)) [
    | inl e ↦ ground arith
    | inr n ↦ ground (arith, first_not_before left (i + 1) j)
  ]

  first_not_stop : (left i : ℕ) → first_not left p i < i + left → p (first_not left p i) ≡ false
  unfolding first_not
  first_not_stop zero i h = absurd (omega arith)
  first_not_stop (suc left) i h = ground (arith, first_not_stop left (i + 1))

skip_full_bytes-first_not :
    (left : ℕ) (b : Bitmap) (i : ℕ)
    → skip_full_bytes left b i ≡ first_not left (λ i. b.bits i == 0xff) i
unfolding skip_full_bytes first_not
skip_full_bytes-first_not zero b i = refl
skip_full_bytes-first_not (suc left) b i = rw (skip_full_bytes-first_not left b (i + 1)) refl

first_clear_bit-first_not :
    (left byte i : ℕ) → first_clear_bit left byte i ≡ first_not left (byte_test byte) i
unfolding first_clear_bit first_not
first_clear_bit-first_not zero byte i = refl
first_clear_bit-first_not (suc left) byte i = rw (first_clear_bit-first_not left byte (i + 1)) refl

pub test_at :
    (b : Bitmap) (i k : ℕ) → k < 8 → bitmap_scan_test b (i * 8 + k) ≡ byte_test (b.bits i) k
unfolding bitmap_scan_test
test_at b i k h =
    let e : (i * 8 + k) / 8 ≡ i = omega arith in
    let f : (i * 8 + k) % 8 ≡ k = omega arith in rw (e, f)

-- the byte where the search begins
abbrev pub first_byte : Bitmap → ℕ
first_byte b = skip_full_bytes b.btmp_bytes_len b 0

pub first_byte-le : (b : Bitmap) → first_byte b ≤ b.btmp_bytes_len
first_byte-le b =
    rw (skip_full_bytes-first_not b.btmp_bytes_len b 0)
      (omega (arith, first_not_bounds (λ i. b.bits i == 0xff) b.btmp_bytes_len 0))

full_before : (b : Bitmap) (i : ℕ) → i < first_byte b → b.bits i ≡ 0xff
full_before b i h = ground (
  arith,
  skip_full_bytes-first_not b.btmp_bytes_len b 0,
  first_not_before (λ i. b.bits i == 0xff) b.btmp_bytes_len 0 i,
)

not_full : (b : Bitmap) → first_byte b < b.btmp_bytes_len → b.bits (first_byte b) ≢ 0xff
not_full b h = ground (
  arith,
  skip_full_bytes-first_not b.btmp_bytes_len b 0,
  first_not_stop (λ i. b.bits i == 0xff) b.btmp_bytes_len 0,
)

-- Every bit of the bytes before `first_byte` is set.
pub set_before_byte : (b : Bitmap) (j : ℕ) → j / 8 < first_byte b → bitmap_scan_test b j ≡ true
unfolding bitmap_scan_test
set_before_byte b j h = rw (full_before b (j / 8) h) (byte_test-ff (j % 8) (omega arith))

module _ (b : Bitmap) (bytes : IsBytes b) (room : first_byte b < b.btmp_bytes_len) where
  abbrev byte : ℕ
  byte = b.bits (first_byte b)

  abbrev bit : ℕ
  bit = first_not 8 (byte_test byte) 0

  bit-lt : bit < 8
  bit-lt = elim (Bool-cases (bit == 8)) [
    | inl e ↦ absurd (
        not_full b room (
          eq_ff_of_all byte (bytes (first_byte b))
            λ k h. first_not_before (byte_test byte) 8 0 k (omega arith) (ground arith)))
    | inr n ↦ ground (arith, first_not_bounds (byte_test byte) 8 0)
  ]

  clear_bit_from-eq : clear_bit_from b (first_byte b) ≡ first_byte b * 8 + bit
  unfolding clear_bit_from
  clear_bit_from-eq = rw (first_clear_bit-first_not 8 byte 0)

  pub start-lt : clear_bit_from b (first_byte b) < bit_cnt b
  start-lt = omega (arith, clear_bit_from-eq, bit-lt)

  -- The bit found is clear.
  pub start_clear : bitmap_scan_test b (clear_bit_from b (first_byte b)) ≡ false
  start_clear =
      rw (clear_bit_from-eq, test_at b (first_byte b) bit bit-lt)
        (first_not_stop (byte_test byte) 8 0 (omega (arith, bit-lt)))

  -- Every bit below it is set.
  pub set_before : (j : ℕ) → j < clear_bit_from b (first_byte b) → bitmap_scan_test b j ≡ true
  unfolding bitmap_scan_test
  set_before j h = elim (Bool-cases (j / 8 == first_byte b)) [
    | inl e ↦ ground (arith, clear_bit_from-eq, first_not_before (byte_test byte) 8 0 (j % 8))
    | inr n ↦ set_before_byte b j (ground (arith, clear_bit_from-eq, bit-lt))
  ]
