-- ===== src/Bitmap.antt =====
-- bitmap.h and bitmap.c: the bitmaps from which pages, pids, blocks and inodes are handed out.
-- `bits` is the memory from the data pointer on, one byte to an index; the bitmap owns the first
-- `btmp_bytes_len` bytes, and a read past them sees whatever memory holds there. Bit numbers stay
-- below 8 * btmp_bytes_len + 1, which for every bitmap of the kernel is far below 2 ^ 31, so no
-- `int` or `uint32_t` of this file wraps.
pub mod Bytes
pub mod Set
pub mod First
pub mod Scan
pub mod FirstFit
pub mod Overrun
mod Tests
use Prim.Native.Nat.{bit_and, bit_or}
use ukernel.Prelude.{
  ℕ, zero, suc, ◌+◌, ◌-◌, ◌*◌, ◌/◌, ◌%◌, ◌^◌, Bool, true, false, not, ◌&&◌, ◌||◌, Option, none,
  some, ltb, ◌==◌, if◌then◌else◌, update, Outcome, ret, ◌>>=◌, ◌>>◌, assert,
}

-- struct bitmap
pub record Bitmap : Type 0 where
  pub btmp_bytes_len : ℕ
  pub bits : ℕ → ℕ

-- the number of bits that the bitmap owns
abbrev pub bit_cnt : Bitmap → ℕ
bit_cnt b = b.btmp_bytes_len * 8

-- memset(bits, 0, btmp_bytes_len): bytes past the end stay as they are.
unfoldable pub bitmap_init : Bitmap → Bitmap
bitmap_init b = record b { bits = λ i. if ltb i b.btmp_bytes_len then 0 else b.bits i }

-- bits[byte_idx] & (BITMAP_MASK << bit_odd), as the truth value that every caller takes
unfoldable pub byte_test : ℕ → ℕ → Bool
byte_test byte bit_odd = not (bit_and byte (2 ^ bit_odd) == 0)

unfoldable pub bitmap_scan_test : Bitmap → ℕ → Bool
bitmap_scan_test b bit_idx = byte_test (b.bits (bit_idx / 8)) (bit_idx % 8)

-- the byte that bitmap_set writes: |= (1 << bit_odd), or &= ~(1 << bit_odd) cut to a uint8_t
unfoldable pub byte_set : ℕ → ℕ → ℕ → ℕ
byte_set value byte bit_odd =
    if value == 0 then bit_and byte (255 - 2 ^ bit_odd) else bit_or byte (2 ^ bit_odd)

-- the write of bitmap_set, behind its ASSERT
unfoldable pub write_bit : Bitmap → ℕ → ℕ → Bitmap
write_bit b bit_idx value = record b {
  bits = update b.bits (bit_idx / 8) (byte_set value (b.bits (bit_idx / 8)) (bit_idx % 8));
}

unfoldable pub bitmap_set : Bitmap → ℕ → ℕ → Outcome Bitmap
bitmap_set b bit_idx value = do
  assert ((value == 0) || (value == 1))
  ret (write_bit b bit_idx value)

-- while ((0xff == bits[idx_byte]) && (idx_byte < len)) idx_byte++;
-- The first argument is len - idx_byte, at 0 of which the loop's second test fails.
unfoldable pub skip_full_bytes : ℕ → Bitmap → ℕ → ℕ
skip_full_bytes zero b idx_byte = idx_byte
skip_full_bytes (suc left) b idx_byte =
    let next = skip_full_bytes left b (idx_byte + 1) in
    if b.bits idx_byte == 0xff then next else idx_byte

-- while ((uint8_t)(BITMAP_MASK << idx_bit) & byte) idx_bit++;
-- The first argument is 8 - idx_bit: at idx_bit 8 the cast leaves no bit of the mask, so it stops.
unfoldable pub first_clear_bit : ℕ → ℕ → ℕ → ℕ
first_clear_bit zero byte idx_bit = idx_bit
first_clear_bit (suc left) byte idx_bit =
    let next = first_clear_bit left byte (idx_bit + 1) in
    if byte_test byte idx_bit then next else idx_bit

-- while (bit_left-- > 0) { ... }: `none` is bit_idx_start left at -1. The index is written
-- next_bit + 1 - cnt, which is next_bit - cnt + 1 as `count` never runs ahead of `next_bit`.
unfoldable pub search_run : (bit_left : ℕ) → Bitmap → (cnt next_bit count : ℕ) → Option ℕ
search_run zero b cnt next_bit count = none
search_run (suc bit_left) b cnt next_bit count =
    let count' = if not (bitmap_scan_test b next_bit) then count + 1 else 0 in
    let rest = search_run bit_left b cnt (next_bit + 1) count' in
    if count' == cnt then some (next_bit + 1 - cnt) else rest

-- the first clear bit of the byte at `idx_byte`: bit_idx_start of the second loop
unfoldable pub clear_bit_from : Bitmap → ℕ → ℕ
unfolding first_clear_bit
clear_bit_from b idx_byte = idx_byte * 8 + first_clear_bit 8 (b.bits idx_byte) 0

-- bitmap_scan: `none` is -1.
unfoldable pub bitmap_scan : Bitmap → ℕ → Outcome (Option ℕ)
bitmap_scan b cnt = do
  let idx_byte = skip_full_bytes b.btmp_bytes_len b 0
  assert (ltb idx_byte b.btmp_bytes_len)
  let start = clear_bit_from b idx_byte
  ret (
      if idx_byte == b.btmp_bytes_len
      then none
      else if cnt == 1
      then some start
      else search_run (bit_cnt b - start) b cnt (start + 1) 1)
