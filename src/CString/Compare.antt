-- ===== src/CString/Compare.antt =====
-- strcmp against the order of the strings.
use ukernel.Prelude.{
  ℕ, zero, suc, ◌+◌, ◌<◌, ◌≡◌, ◌≢◌, ◌↔◌, refl, false, arith, ◌==◌, some, List, [], ◌∷◌, length,
  if◌then◌else◌, ret, ap, Bool-cases, inl, inr, ◌∙◌, sym,
}
use ukernel.CString.{null, Sign, nought, compare_chars, compare_strings, strcmp}
use ukernel.CString.Terminated.{IsString}

-- The order of two strings, by the first place where they differ; the end counts as 0.
abbrev pub compare_lists : List ℕ → List ℕ → Sign
compare_lists [] [] = nought
compare_lists [] (d ∷ t) = compare_chars 0 d
compare_lists (c ∷ s) [] = compare_chars c 0
compare_lists (c ∷ s) (d ∷ t) = if c == d then compare_lists s t else compare_chars c d

-- The elements are bytes.
abbrev pub AreBytes : List ℕ → Type 0
AreBytes [] = Unit {0}
AreBytes (c ∷ s) = (0 < c) × (c < 256) × AreBytes s

compare_strings-IsString :
    (fuel : ℕ) (mem : ℕ → ℕ) (a b : ℕ) (s t : List ℕ)
    → IsString mem a s
    → IsString mem b t
    → length s < fuel
    → compare_strings fuel a b mem ≡ some (compare_lists s t)
unfolding compare_strings
compare_strings-IsString zero mem a b s t p q h = absurd (omega arith)
compare_strings-IsString (suc fuel) mem a b [] [] p q h = rw (p, q) refl
compare_strings-IsString (suc fuel) mem a b [] (d ∷ t) p (at, pos, q) h = rw (p, at) refl
compare_strings-IsString (suc fuel) mem a b (c ∷ s) [] (at, pos, p) q h =
    let nz : (c == 0) ≡ false = ground arith in rw (at, q, nz) refl
compare_strings-IsString (suc fuel) mem a b (c ∷ s) (d ∷ t) (at, pos, p) (bt, qos, q) h =
    let nz : (c == 0) ≡ false = ground arith in
    let rest = compare_strings-IsString fuel mem (a + 1) (b + 1) s t p q (omega arith) in
    elim (Bool-cases (c == d)) [ inl e ↦ rw (at, bt, nz, e) rest | inr e ↦ rw (at, bt, nz, e) refl ]

compare_chars-nought : (x y : ℕ) → x < 256 → y < 256 → compare_chars x y ≡ nought → x ≡ y
compare_chars-nought x y h k e = ground arith

compare_lists-nought : (s t : List ℕ) → AreBytes s → AreBytes t → compare_lists s t ≡ nought → s ≡ t
compare_lists-nought [] [] p q e = refl
compare_lists-nought [] (d ∷ t) p (pos, lt, q) e =
    absurd (omega (arith, compare_chars-nought 0 d (omega arith) lt e))
compare_lists-nought (c ∷ s) [] (pos, lt, p) q e =
    absurd (omega (arith, compare_chars-nought c 0 lt (omega arith) e))
compare_lists-nought (c ∷ s) (d ∷ t) (pos, lt, p) (qos, mt, q) e = elim (Bool-cases (c == d)) [
  | inl same ↦
      let head : c ≡ d = ground arith in
      let tail = compare_lists-nought s t p q (ground arith) in rw (head, tail) refl
  | inr differ ↦ let head = compare_chars-nought c d lt mt (ground arith) in absurd (ground arith)
]

compare_lists-same : (s : List ℕ) → compare_lists s s ≡ nought
compare_lists-same [] = refl
compare_lists-same (c ∷ s) = ground (arith, compare_lists-same s)

-- strcmp of two strings of bytes, with fuel for the first: it is their order by signed chars, and it
-- is 0 exactly if they are equal.
pub strcmp_lem :
    (fuel : ℕ) (mem : ℕ → ℕ) (a b : ℕ) (s t : List ℕ)
    → IsString mem a s
    → IsString mem b t
    → AreBytes s
    → AreBytes t
    → length s < fuel
    → a ≢ null
    → b ≢ null
    → (strcmp fuel a b mem ≡ ret (some (compare_lists s t)))
      × ((strcmp fuel a b mem ≡ ret (some nought)) ↔ (s ≡ t))
unfolding strcmp
strcmp_lem fuel mem a b s t p q bs bt h na nb =
    let e = compare_strings-IsString fuel mem a b s t p q h in
    let run : strcmp fuel a b mem ≡ ret (some (compare_lists s t)) = ground arith in
    (
      run,
      (
        λ z. compare_lists-nought s t bs bt (ground arith),
        λ same.
            run
            ∙ ap (λ x. ret (some (compare_lists s x))) (sym same)
            ∙ ap (λ x. ret (some x)) (compare_lists-same s),
      ),
    )
