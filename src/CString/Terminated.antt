-- ===== src/CString/Terminated.antt =====
-- Terminated strings in memory, and the routines that only read them.
use ukernel.Prelude.{
  ℕ, zero, suc, ◌+◌, ◌<◌, ◌≡◌, ◌≢◌, refl, false, arith, ◌==◌, some, List, [], ◌∷◌, length, has,
  if◌then◌else◌, ret, ap,
}
use ukernel.CString.{
  null, past_end, strlen, find_last, strrchr, find_first, strchr, seen_as, count_from, strchrs,
}

-- The bytes from `a` on are those of `s`, none of which is 0, and then a 0.
abbrev pub IsString : (ℕ → ℕ) → ℕ → List ℕ → Type 0
IsString mem a [] = mem a ≡ 0
IsString mem a (c ∷ s) = (mem a ≡ c) × (0 < c) × IsString mem (a + 1) s

pub past_end-IsString :
    (fuel : ℕ) (mem : ℕ → ℕ) (a : ℕ) (s : List ℕ)
    → IsString mem a s
    → length s < fuel
    → past_end fuel a mem ≡ some (a + length s + 1)
unfolding past_end
past_end-IsString zero mem a s is h = absurd (omega arith)
past_end-IsString (suc fuel) mem a [] is h = ground arith
past_end-IsString (suc fuel) mem a (c ∷ s) (at, pos, is) h =
    ground (arith, past_end-IsString fuel mem (a + 1) s is (omega arith))

-- The position of the first `ch` in a string that begins at `a`, or NULL.
abbrev pub first_of : List ℕ → ℕ → ℕ → ℕ
first_of [] ch a = null
first_of (c ∷ s) ch a = if c == ch then a else first_of s ch (a + 1)

-- The position of the last one.
abbrev pub last_of : List ℕ → ℕ → ℕ → ℕ
last_of [] ch a = null
last_of (c ∷ s) ch a = if has ch s then last_of s ch (a + 1) else if c == ch then a else null

-- How many there are.
abbrev pub count_of : List ℕ → ℕ → ℕ
count_of [] ch = 0
count_of (c ∷ s) ch = (if c == ch then 1 else 0) + count_of s ch

find_first-IsString :
    (fuel : ℕ) (mem : ℕ → ℕ) (a ch : ℕ) (s : List ℕ)
    → IsString mem a s
    → length s < fuel
    → find_first fuel a ch mem ≡ some (first_of s ch a)
unfolding find_first
find_first-IsString zero mem a ch s is h = absurd (omega arith)
find_first-IsString (suc fuel) mem a ch [] is h = ground arith
find_first-IsString (suc fuel) mem a ch (c ∷ s) (at, pos, is) h =
    ground (arith, find_first-IsString fuel mem (a + 1) ch s is (omega arith))

find_last-IsString :
    (fuel : ℕ) (mem : ℕ → ℕ) (a ch last : ℕ) (s : List ℕ)
    → IsString mem a s
    → length s < fuel
    → find_last fuel a ch last mem ≡ some (if has ch s then last_of s ch a else last)
unfolding find_last
find_last-IsString zero mem a ch last s is h = absurd (omega arith)
find_last-IsString (suc fuel) mem a ch last [] is h = ground arith
find_last-IsString (suc fuel) mem a ch last (c ∷ s) (at, pos, is) h = ground (
  arith,
  find_last-IsString fuel mem (a + 1) ch (if c == ch then a else last) s is (omega arith),
  ap (λ x. find_last fuel (a + 1) ch (if x == ch then a else last) mem) at,
)

count_from-IsString :
    (fuel : ℕ) (mem : ℕ → ℕ) (a ch n : ℕ) (s : List ℕ)
    → IsString mem a s
    → length s < fuel
    → count_from fuel a ch n mem ≡ some (n + count_of s ch)
unfolding count_from
count_from-IsString zero mem a ch n s is h = absurd (omega arith)
count_from-IsString (suc fuel) mem a ch n [] is h = ground arith
count_from-IsString (suc fuel) mem a ch n (c ∷ s) (at, pos, is) h = ground (
  arith,
  count_from-IsString fuel mem (a + 1) ch (if c == ch then n + 1 else n) s is (omega arith),
  ap (λ x. count_from fuel (a + 1) ch (if x == ch then n + 1 else n) mem) at,
)

last_of-none : (s : List ℕ) (ch a : ℕ) → has ch s ≡ false → last_of s ch a ≡ null
last_of-none [] ch a h = refl
last_of-none (c ∷ s) ch a h = ground arith

-- On a string at an address that is not NULL, with fuel for its length: strlen is its length, strchr
-- and strrchr are the addresses of its first and its last `ch`, NULL if there is none, and strchrs
-- is how many there are. (A `ch` of 128 or more counts as 256, which is no byte.)
pub strings_read :
    (fuel : ℕ) (mem : ℕ → ℕ) (a ch : ℕ) (s : List ℕ)
    → IsString mem a s
    → length s < fuel
    → a ≢ null
    → (strlen fuel a mem ≡ ret (some (length s)))
      × (strchr fuel a ch mem ≡ ret (some (first_of s (seen_as ch) a)))
      × (strrchr fuel a ch mem ≡ ret (some (last_of s (seen_as ch) a)))
      × (strchrs fuel a ch mem ≡ ret (some (count_of s (seen_as ch))))
unfolding strlen strchr strrchr strchrs
strings_read fuel mem a ch s is h ne = (
  ground (arith, past_end-IsString fuel mem a s is h),
  ground (arith, find_first-IsString fuel mem a (seen_as ch) s is h),
  ground (
    arith,
    find_last-IsString fuel mem a (seen_as ch) null s is h,
    last_of-none s (seen_as ch) a,
  ),
  ground (arith, count_from-IsString fuel mem a (seen_as ch) 0 s is h),
)
