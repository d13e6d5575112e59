-- ===== src/Bitmap/Set.antt =====
-- bitmap_set and bitmap_init against bitmap_scan_test.
use ukernel.Prelude.{
  ℕ, ◌/◌, ◌%◌, ◌<◌, ◌≡◌, false, not, refl, lt→ltb, arith, ◌==◌, if◌then◌else◌, ret, panic,
}
use ukernel.Bitmap.{Bitmap, bit_cnt, bitmap_init, bitmap_scan_test, write_bit, bitmap_set}
use ukernel.Bitmap.Bytes.{byte_set-lt, byte_test-byte_set, byte_test-zero}

-- Memory holds bytes.
abbrev pub IsBytes : Bitmap → Type 0
IsBytes b = (i : ℕ) → b.bits i < 256

pub write_bit-IsBytes :
    (b : Bitmap) (i value : ℕ) → value < 2 → IsBytes b → IsBytes (write_bit b i value)
unfolding write_bit
write_bit-IsBytes b i value small bytes j =
    ground (arith, bytes j, byte_set-lt value (b.bits (i / 8)) (i % 8) small (bytes (i / 8)))

-- Two bits are one if they agree in byte and place.
bit_eq : (i j : ℕ) → i / 8 ≡ j / 8 → i % 8 ≡ j % 8 → i ≡ j
bit_eq i j p q = omega arith

pub test-write_bit :
    (b : Bitmap) (i value j : ℕ)
    → value < 2
    → IsBytes b
    → bitmap_scan_test (write_bit b i value) j
      ≡ (if j == i then not (value == 0) else bitmap_scan_test b j)
unfolding bitmap_scan_test write_bit
test-write_bit b i value j small bytes = ground (
  arith,
  bit_eq i j,
  byte_test-byte_set value (b.bits (i / 8)) (i % 8) small (bytes (i / 8)) (omega arith) (j % 8),
)

pub bitmap_set-ret :
    (b : Bitmap) (i value : ℕ) → value < 2 → bitmap_set b i value ≡ ret (write_bit b i value)
unfolding bitmap_set
bitmap_set-ret b i value small = ground arith

-- bitmap_set of 0 or 1 returns a bitmap of bytes, of the same length, in which bit `i` reads as
-- written and every other bit reads as before.
bitmap_set_lem :
    (b : Bitmap) (i value : ℕ)
    → value < 2
    → IsBytes b
    → (b' : Bitmap) × (bitmap_set b i value ≡ ret b')
      × (b'.btmp_bytes_len ≡ b.btmp_bytes_len)
      × IsBytes b'
      × ((j : ℕ)
          → bitmap_scan_test b' j ≡ (if j == i then not (value == 0) else bitmap_scan_test b j))
unfolding write_bit
bitmap_set_lem b i value small bytes = (
  write_bit b i value,
  bitmap_set-ret b i value small,
  refl,
  write_bit-IsBytes b i value small bytes,
  λ j. test-write_bit b i value j small bytes,
)

-- bitmap_set stops the machine at every value but 0 and 1.
pub bitmap_set-panic : (b : Bitmap) (i value : ℕ) → 1 < value → bitmap_set b i value ≡ panic
unfolding bitmap_set
bitmap_set-panic b i value big = ground arith

-- After bitmap_init every bit that the bitmap owns is clear.
pub test-bitmap_init :
    (b : Bitmap) (j : ℕ) → j < bit_cnt b → bitmap_scan_test (bitmap_init b) j ≡ false
unfolding bitmap_init bitmap_scan_test
test-bitmap_init b j h = ground (arith, lt→ltb (j / 8) b.btmp_bytes_len, byte_test-zero (j % 8))
