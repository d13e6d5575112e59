-- ===== src/CString/Copies.antt =====
-- The routines that write: strcpy, strcat, memset and memcpy.
use ukernel.Prelude.{
  ℕ, zero, suc, ◌+◌, ◌-◌, ◌≤◌, ◌<◌, ◌≡◌, ◌≢◌, arith, some, List, [], ◌∷◌, ◌++◌, length, update, ret,
  ap, ◌⊎◌, inl, inr, ◌∙◌,
}
use ukernel.CString.{null, copy_string, strcpy, strcat}
use ukernel.CString.Terminated.{IsString, past_end-IsString}

-- The ranges of `n` bytes at `a` and at `b` share no byte.
abbrev pub Apart : (a b n : ℕ) → Type 0
Apart a b n = (a + n ≤ b) ⊎ (b + n ≤ a)

-- A string that no write has touched is still there.
IsString-same :
    (mem mem' : ℕ → ℕ) (a : ℕ) (s : List ℕ)
    → ((j : ℕ) → a ≤ j → j < a + length s + 1 → mem' j ≡ mem j)
    → IsString mem a s
    → IsString mem' a s
IsString-same mem mem' a [] same is = same a (omega arith) (omega arith) ∙ is
IsString-same mem mem' a (c ∷ s) same (at, pos, is) = (
  same a (omega arith) (omega arith) ∙ at,
  pos,
  IsString-same mem mem' (a + 1) s (λ j h k. same j (omega arith) (omega arith)) is,
)

-- A string behind the bytes of another.
IsString-append :
    (mem mem' : ℕ → ℕ) (a : ℕ) (d s : List ℕ)
    → ((j : ℕ) → a ≤ j → j < a + length d → mem' j ≡ mem j)
    → IsString mem a d
    → IsString mem' (a + length d) s
    → IsString mem' a (d ++ s)
IsString-append mem mem' a [] s same is after = let e : a + 0 ≡ a = omega arith in rw e at after
IsString-append mem mem' a (c ∷ d) s same (at, pos, is) after =
    let e : a + suc (length d) ≡ a + 1 + length d = omega arith in
    (
      same a (omega arith) (omega arith) ∙ at,
      pos,
      IsString-append mem mem' (a + 1) d s (λ j h k. same j (omega arith) (omega arith)) is
          (rw e at after),
    )

-- What a copy of `s` to `dst` leaves: the string, and all other bytes as they were.
pub record Copied (mem : ℕ → ℕ) (dst : ℕ) (s : List ℕ) (mem' : ℕ → ℕ) : Type 0 where
  pub there : IsString mem' dst s
  pub elsewhere : (j : ℕ) → (j < dst) ⊎ (dst + length s + 1 ≤ j) → mem' j ≡ mem j

copy_string-Copied :
    (fuel : ℕ) (mem : ℕ → ℕ) (dst src : ℕ) (s : List ℕ)
    → IsString mem src s
    → length s < fuel
    → Apart dst src (length s + 1)
    → (mem' : ℕ → ℕ) × (copy_string fuel dst src mem ≡ some mem') × Copied mem dst s mem'
unfolding copy_string
copy_string-Copied zero mem dst src s is h ap = absurd (omega arith)
copy_string-Copied (suc fuel) mem dst src [] is h far = (
  update mem dst (mem src),
  ground arith,
  record {
    there = ground arith;
    elsewhere = λ j out. elim out [ inl a ↦ ground arith | inr a ↦ ground arith ];
  },
)
copy_string-Copied (suc fuel) mem dst src (c ∷ s) (at, pos, is) h far =
    let mem1 = update mem dst (mem src) in
    let is1 = IsString-same mem mem1 (src + 1) s (untouched mem1) is in
    let (mem', e, d) = copy_string-Copied fuel mem1 (dst + 1) (src + 1) s is1 (omega arith) far1 in
    (
      mem',
      ground arith,
      record {
        there = (d.elsewhere dst (inl (omega arith)) ∙ ground arith, pos, d.there);
        elsewhere = λ j out. elim out [
          | inl a ↦ d.elsewhere j (inl (omega arith)) ∙ ground arith
          | inr a ↦ d.elsewhere j (inr (omega arith)) ∙ ground arith
        ];
      },
    )
  where
    far1 : Apart (dst + 1) (src + 1) (length s + 1)
    far1 = elim far [ inl a ↦ inl (omega arith) | inr a ↦ inr (omega arith) ]

    untouched :
        (mem1 : ℕ → ℕ) (j : ℕ)
        → src + 1 ≤ j
        → j < src + 1 + length s + 1
        → update mem dst (mem src) j ≡ mem j
    untouched mem1 j a b = elim far [ inl f ↦ ground arith | inr f ↦ ground arith ]

-- strcpy of a string to a place that the string does not overlap, with fuel for its length: it
-- returns the destination; the string stands there, and every other byte is as it was.
strcpy_lem :
    (fuel : ℕ) (mem : ℕ → ℕ) (dst src : ℕ) (s : List ℕ)
    → IsString mem src s
    → length s < fuel
    → dst ≢ null
    → src ≢ null
    → Apart dst src (length s + 1)
    → (mem' : ℕ → ℕ) × (strcpy fuel dst src mem ≡ ret (some (dst, mem'))) × Copied mem dst s mem'
unfolding strcpy
strcpy_lem fuel mem dst src s is h nd ns far =
    let (mem', e, d) = copy_string-Copied fuel mem dst src s is h far in (mem', ground arith, d)

-- strcat of `s` to `d`, where the result does not reach the source, with fuel for the longer: it
-- returns the destination; `d ++ s` stands there, and every byte outside that is as it was.
strcat_lem :
    (fuel : ℕ) (mem : ℕ → ℕ) (dst src : ℕ) (d s : List ℕ)
    → IsString mem dst d
    → IsString mem src s
    → length d < fuel
    → length s < fuel
    → dst ≢ null
    → src ≢ null
    → (dst + length d + length s + 1 ≤ src) ⊎ (src + length s + 1 ≤ dst)
    → (mem' : ℕ → ℕ) × (strcat fuel dst src mem ≡ ret (some (dst, mem')))
      × IsString mem' dst (d ++ s)
      × ((j : ℕ) → (j < dst) ⊎ (dst + length d + length s + 1 ≤ j) → mem' j ≡ mem j)
unfolding strcat
strcat_lem fuel mem dst src d s isd iss hd hs nd ns far =
    let end = past_end-IsString fuel mem dst d isd hd in
    let back : dst + length d + 1 - 1 ≡ dst + length d = omega arith in
    let apart : Apart (dst + length d) src (length s + 1) = elim far [
      | inl a ↦ inl (omega arith)
      | inr a ↦ inr (omega arith)
    ] in
    let (mem', e, c) = copy_string-Copied fuel mem (dst + length d) src s iss hs apart in
    (
      mem',
      ground (arith, ap (λ p. copy_string fuel p src mem) back),
      IsString-append mem mem' dst d s (λ j a b. c.elsewhere j (inl (omega arith))) isd c.there,
      λ j out. elim out [
        | inl a ↦ c.elsewhere j (inl (omega arith))
        | inr a ↦ c.elsewhere j (inr (omega arith))
      ],
    )
