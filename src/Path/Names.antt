-- ===== src/Path/Names.antt =====
-- The names in a pathname, and how path_parse of fs.c takes them off one by one.
use ukernel.Prelude.{
  ℕ, zero, suc, ◌+◌, ◌<◌, ◌≡◌, refl, sym, ap, ◌∙◌, ◌≢◌, ◌⊎◌, inl, inr, Bool, true, false, ◌&&◌, not,
  Option, none, some, List, [], ◌∷◌, arith, ltb, ◌==◌, if◌then◌else◌, Bool-cases, update, length,
}
use ukernel.Path.{
  slash, max_file_name_len, skip_slashes, skip_root, store_name, or_null, path_parse, next_name,
  string_in,
}

-- a name, unless it is empty
unfoldable pub add : List ℕ × List (List ℕ) → List (List ℕ)
add ([], names) = names
add (c ∷ s, names) = (c ∷ s) ∷ names

-- what stands before the first '/', and the names after it
unfoldable pub split : List ℕ → List ℕ × List (List ℕ)
split [] = ([], [])
split (c ∷ s) =
    let (name, names) = split s in if c == slash then ([], add (name, names)) else (c ∷ name, names)

-- the names of a pathname: the runs between slashes that are not empty
abbrev pub components : List ℕ → List (List ℕ)
components s = add (split s)

abbrev pub components_left : Option (List ℕ) → List (List ℕ)
components_left none = []
components_left (some s) = components s

-- every byte passes the test
abbrev pub every : (ℕ → Bool) → List ℕ → Bool
every test [] = true
every test (c ∷ s) = test c && every test s

-- Names that fit the buffer with a terminator and have no NUL.
abbrev pub is_name : List ℕ → Bool
is_name s = every (λ c. not (c == 0)) s && ltb (length s) max_file_name_len

unfoldable pub are_names : List (List ℕ) → Bool
are_names [] = true
are_names (n ∷ ns) = is_name n && are_names ns

-- memory with a string written to it
unfoldable pub write : List ℕ → (at : ℕ) → (ℕ → ℕ) → ℕ → ℕ
write [] at mem = mem
write (c ∷ s) at mem = write s (at + 1) (update mem at c)

pub split-other :
    (c : ℕ) (s : List ℕ) → (c == slash) ≡ false → split (c ∷ s) ≡ (c ∷ (split s).0, (split s).1)
unfolding split
split-other c s n = rw n refl

pub split-slash : (c : ℕ) (s : List ℕ) → (c == slash) ≡ true → split (c ∷ s) ≡ ([], components s)
unfolding split
split-slash c s e = rw e refl

pub skip_slashes-components : (s : List ℕ) → components (skip_slashes s) ≡ components s
unfolding skip_slashes split add
skip_slashes-components [] = refl
skip_slashes-components (c ∷ s) = elim (Bool-cases (c == slash)) [
  | inl e ↦ rw e (skip_slashes-components s)
  | inr n ↦ rw (n, split-other c s n) refl
]

pub skip_root-components : (s : List ℕ) → components (skip_root s) ≡ components s
unfolding skip_root split add
skip_root-components [] = refl
skip_root-components (c ∷ s) = elim (Bool-cases (c == slash)) [
  | inl e ↦ rw e (skip_slashes-components s)
  | inr n ↦ rw (n, split-other c s n) refl
]

pub store_name-write :
    (s : List ℕ) (at : ℕ) (mem : ℕ → ℕ) → (store_name s at mem).1 ≡ write (split s).0 at mem
unfolding store_name split write
store_name-write [] at mem = refl
store_name-write (c ∷ s) at mem = elim (Bool-cases (c == slash)) [
  | inl e ↦ rw e refl
  | inr n ↦ rw n (store_name-write s (at + 1) (update mem at c))
]

pub store_name-components :
    (s : List ℕ) (at : ℕ) (mem : ℕ → ℕ) → components (store_name s at mem).0 ≡ (split s).1
unfolding store_name split add
store_name-components [] at mem = refl
store_name-components (c ∷ s) at mem = elim (Bool-cases (c == slash)) [
  | inl e ↦ rw (e, e) refl
  | inr n ↦ rw n (store_name-components s (at + 1) (update mem at c))
]

pub components_left-or_null : (s : List ℕ) → components_left (or_null s) ≡ components s
unfolding split add
components_left-or_null [] = refl
components_left-or_null (c ∷ s) = refl

-- What a parse of a path leaves, by the names that the path has.
pub data Parsed (mem : ℕ → ℕ) (out : Option (List ℕ) × (ℕ → ℕ)) : List (List ℕ) → Type 0 where
  exhausted : out ≡ (none, mem) → Parsed mem out []
  found :
      (c : ℕ) (s : List ℕ) (names : List (List ℕ))
      → components_left out.0 ≡ names
      → out.1 ≡ write (c ∷ s) 0 mem
      → Parsed mem out ((c ∷ s) ∷ names)

-- What stands at the start once the slashes there are skipped.
abbrev Starts : List ℕ → Type 0
Starts u = (u ≡ []) ⊎ ((c : ℕ) × (t : List ℕ) × (u ≡ c ∷ t) × ((c == slash) ≡ false))

skip_slashes-Starts : (s : List ℕ) → Starts (skip_slashes s)
unfolding skip_slashes
skip_slashes-Starts [] = inl refl
skip_slashes-Starts (c ∷ s) = elim (Bool-cases (c == slash)) [
  | inl e ↦ rw e (skip_slashes-Starts s)
  | inr n ↦ rw n (inr (c, s, refl, n))
]

skip_root-Starts : (s : List ℕ) → Starts (skip_root s)
unfolding skip_root
skip_root-Starts [] = inl refl
skip_root-Starts (c ∷ s) = elim (Bool-cases (c == slash)) [
  | inl e ↦ rw e (skip_slashes-Starts s)
  | inr n ↦ rw n (inr (c, s, refl, n))
]

-- path_parse behind the slashes
abbrev parsed_from : (mem : ℕ → ℕ) → List ℕ → Option (List ℕ) × (ℕ → ℕ)
parsed_from mem u = let (rest, name) = store_name u 0 mem in (or_null rest, name)

parsed_from-Parsed :
    (mem : ℕ → ℕ) (u : List ℕ) → Starts u → Parsed mem (parsed_from mem u) (components u)
unfolding add store_name split
parsed_from-Parsed mem u (inl e) = rw e (exhausted refl)
parsed_from-Parsed mem u (inr (c, t, e, n)) =
    rw (e, split-other c t n)
      (found c (split t).0 (split t).1
        (components_left-or_null (store_name (c ∷ t) 0 mem).0
          ∙ store_name-components (c ∷ t) 0 mem
          ∙ ap (λ q. q.1) (split-other c t n))
        (store_name-write (c ∷ t) 0 mem ∙ ap (λ q. write q.0 0 mem) (split-other c t n)))

-- path_parse takes off the first name, if there is one.
pub path_parse-Parsed : (s : List ℕ) (mem : ℕ → ℕ) → Parsed mem (path_parse s mem) (components s)
unfolding path_parse
path_parse-Parsed s mem =
    rw (sym (skip_root-components s)) (parsed_from-Parsed mem (skip_root s) (skip_root-Starts s))

-- what memset leaves of a name
abbrev pub cleared : (ℕ → ℕ) → ℕ → ℕ
cleared name i = if ltb i max_file_name_len then 0 else name i

pub next_name-Parsed :
    (p : Option (List ℕ)) (name : ℕ → ℕ)
    → Parsed (cleared name) (next_name p name) (components_left p)
unfolding next_name
next_name-Parsed none name = exhausted refl
next_name-Parsed (some s) name = path_parse-Parsed s (cleared name)

write_before : (s : List ℕ) (at : ℕ) (mem : ℕ → ℕ) (i : ℕ) → i < at → write s at mem i ≡ mem i
unfolding write
write_before [] at mem i below = refl
write_before (c ∷ s) at mem i below =
    write_before s (at + 1) (update mem at c) i (omega arith) ∙ ground arith

pub write_first : (c : ℕ) (s : List ℕ) (at : ℕ) (mem : ℕ → ℕ) → write (c ∷ s) at mem at ≡ c
unfolding write
write_first c s at mem = write_before s (at + 1) (update mem at c) at (omega arith) ∙ ground arith

-- A name that was written to cleared memory is read back.
pub string_in-write :
    (n : ℕ) (s : List ℕ) (at : ℕ) (mem : ℕ → ℕ)
    → every (λ c. not (c == 0)) s ≡ true
    → length s < n
    → mem (at + length s) ≡ 0
    → string_in n (write s at mem) at ≡ s
unfolding string_in write
string_in-write zero s at mem bytes fits clear = absurd (omega arith)
string_in-write (suc n) [] at mem bytes fits clear =
    let place : at ≡ at + 0 = omega arith in rw (ap mem place ∙ clear) refl
string_in-write (suc n) (c ∷ s) at mem bytes fits clear =
    let place : at + 1 + length s ≡ at + suc (length s) = omega arith in
    let ih =
      string_in-write n s (at + 1) (update mem at c) (ground arith) (omega arith)
        (ground (arith, clear, ap mem place)) in
    let first = write_first c s at mem in ground (arith, ih, first)

-- A name that a parse finds is not empty.
pub name_nonzero : (c : ℕ) (s : List ℕ) → is_name (c ∷ s) ≡ true → c ≢ 0
name_nonzero c s ok e = ground arith
