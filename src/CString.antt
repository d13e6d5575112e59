-- ===== src/CString.antt =====
-- string.c: the memory and string routines, over memory as bytes by address. A loop that ends at a
-- terminator takes fuel, one for each round; `none` is fuel that ran out. No range of the kernel
-- reaches the end of the address space, so no pointer of this file wraps. NULL is address 0.
pub mod Terminated
pub mod Copies
pub mod Compare
mod Tests
use ukernel.Prelude.{
  ℕ, zero, suc, ◌+◌, ◌-◌, ◌%◌, Bool, true, false, not, ◌&&◌, ◌||◌, Option, none, some, ltb, ◌==◌,
  if◌then◌else◌, update, Outcome, ret, ◌>>=◌, ◌>>◌, assert,
}

abbrev pub null : ℕ
null = 0

-- Fuel that ran out stays so.
infixl 5 ◌>>=?◌
abbrev pub ◌>>=?◌ {ℓ κ} : {A : Type ℓ} {B : Type κ} → Option A → (A → Option B) → Option B
none >>=? f = none
some a >>=? f = f a

-- while (size-- > 0) *dst++ = value;
unfoldable pub set_bytes : (size dst value : ℕ) → (ℕ → ℕ) → ℕ → ℕ
set_bytes zero dst value mem = mem
set_bytes (suc size) dst value mem = set_bytes size (dst + 1) value (update mem dst value)

unfoldable pub memset : (dst value size : ℕ) → (ℕ → ℕ) → Outcome (ℕ → ℕ)
memset dst value size mem = do assert (not (dst == null)); ret (set_bytes size dst value mem)

-- while (size-- > 0) *dst++ = *src++;
unfoldable pub copy_bytes : (size dst src : ℕ) → (ℕ → ℕ) → ℕ → ℕ
copy_bytes zero dst src mem = mem
copy_bytes (suc size) dst src mem = copy_bytes size (dst + 1) (src + 1) (update mem dst (mem src))

unfoldable pub memcpy : (dst src size : ℕ) → (ℕ → ℕ) → Outcome (ℕ → ℕ)
memcpy dst src size mem = do
  assert (not (dst == null) && not (src == null))
  ret (copy_bytes size dst src mem)

-- the answer of a comparison: -1, 0 or 1
pub data Sign : Type 0 where
  minus_one : Sign
  nought : Sign
  one : Sign

-- `*a < *b` of two chars, which are signed: adding 128 puts -128 first.
abbrev pub char_lt : ℕ → ℕ → Bool
char_lt x y = ltb ((x + 128) % 256) ((y + 128) % 256)

unfoldable pub compare_bytes : (size a b : ℕ) → (ℕ → ℕ) → Sign
compare_bytes zero a b mem = nought
compare_bytes (suc size) a b mem =
    let rest = compare_bytes size (a + 1) (b + 1) mem in
    if not (mem a == mem b) then (if char_lt (mem b) (mem a) then one else minus_one) else rest

-- ASSERT(a != NULL || b != NULL), as the source has it
unfoldable pub memcmp : (a b size : ℕ) → (ℕ → ℕ) → Outcome Sign
memcmp a b size mem = do
  assert (not (a == null) || not (b == null))
  ret (compare_bytes size a b mem)

-- while ((*dst_++ = *src_++));
unfoldable pub copy_string : (fuel dst src : ℕ) → (ℕ → ℕ) → Option (ℕ → ℕ)
copy_string zero dst src mem = none
copy_string (suc fuel) dst src mem =
    let mem' = update mem dst (mem src) in
    let rest = copy_string fuel (dst + 1) (src + 1) mem' in if mem src == 0 then some mem' else rest

-- The destination is returned with the memory.
unfoldable pub strcpy : (fuel dst src : ℕ) → (ℕ → ℕ) → Outcome (Option (ℕ × (ℕ → ℕ)))
strcpy fuel dst src mem = do
  assert (not (dst == null) && not (src == null))
  ret (copy_string fuel dst src mem >>=? λ mem'. some (dst, mem'))

-- while (*p++); the answer is p, one past the terminator
unfoldable pub past_end : (fuel p : ℕ) → (ℕ → ℕ) → Option ℕ
past_end zero p mem = none
past_end (suc fuel) p mem =
    let rest = past_end fuel (p + 1) mem in if mem p == 0 then some (p + 1) else rest

unfoldable pub strlen : (fuel str : ℕ) → (ℕ → ℕ) → Outcome (Option ℕ)
strlen fuel str mem = do
  assert (not (str == null))
  ret (past_end fuel str mem >>=? λ p. some (p - str - 1))

-- return *a < *b ? -1 : *a > *b;
abbrev pub compare_chars : ℕ → ℕ → Sign
compare_chars x y = if char_lt x y then minus_one else if char_lt y x then one else nought

unfoldable pub compare_strings : (fuel a b : ℕ) → (ℕ → ℕ) → Option Sign
compare_strings zero a b mem = none
compare_strings (suc fuel) a b mem =
    let rest = compare_strings fuel (a + 1) (b + 1) mem in
    if not (mem a == 0) && (mem a == mem b) then rest else some (compare_chars (mem a) (mem b))

unfoldable pub strcmp : (fuel a b : ℕ) → (ℕ → ℕ) → Outcome (Option Sign)
strcmp fuel a b mem = do
  assert (not (a == null) && not (b == null))
  ret (compare_strings fuel a b mem)

unfoldable pub find_first : (fuel str ch : ℕ) → (ℕ → ℕ) → Option ℕ
find_first zero str ch mem = none
find_first (suc fuel) str ch mem =
    let rest = find_first fuel (str + 1) ch mem in
    if mem str == 0 then some null else if mem str == ch then some str else rest

-- `*str == ch` compares a signed char with a uint8_t: a byte of 128 or more is negative on the left
-- and equals no `ch`.
abbrev pub seen_as : ℕ → ℕ
seen_as ch = if ltb ch 128 then ch else 256

unfoldable pub strchr : (fuel str ch : ℕ) → (ℕ → ℕ) → Outcome (Option ℕ)
strchr fuel str ch mem = do assert (not (str == null)); ret (find_first fuel str (seen_as ch) mem)

unfoldable pub find_last : (fuel str ch last_char : ℕ) → (ℕ → ℕ) → Option ℕ
find_last zero str ch last_char mem = none
find_last (suc fuel) str ch last_char mem =
    let rest = find_last fuel (str + 1) ch (if mem str == ch then str else last_char) mem in
    if mem str == 0 then some last_char else rest

unfoldable pub strrchr : (fuel str ch : ℕ) → (ℕ → ℕ) → Outcome (Option ℕ)
strrchr fuel str ch mem = do
  assert (not (str == null))
  ret (find_last fuel str (seen_as ch) null mem)

unfoldable pub strcat : (fuel dst src : ℕ) → (ℕ → ℕ) → Outcome (Option (ℕ × (ℕ → ℕ)))
strcat fuel dst src mem = do
  assert (not (dst == null) && not (src == null))
  ret (
      past_end fuel dst mem >>=? λ p.
      copy_string fuel (p - 1) src mem >>=? λ mem'. some (dst, mem'))

unfoldable pub count_from : (fuel p ch ch_cnt : ℕ) → (ℕ → ℕ) → Option ℕ
count_from zero p ch ch_cnt mem = none
count_from (suc fuel) p ch ch_cnt mem =
    let rest = count_from fuel (p + 1) ch (if mem p == ch then ch_cnt + 1 else ch_cnt) mem in
    if mem p == 0 then some ch_cnt else rest

unfoldable pub strchrs : (fuel str ch : ℕ) → (ℕ → ℕ) → Outcome (Option ℕ)
strchrs fuel str ch mem = do
  assert (not (str == null))
  ret (count_from fuel str (seen_as ch) 0 mem)
