-- ===== src/Path/Wash.antt =====
-- wash_path of buildin_cmd.c resolves the names `.` and `..` of a path.
use ukernel.Prelude.{
  ℕ, zero, suc, ◌+◌, ◌<◌, ◌≡◌, refl, sym, ap, ◌∙◌, inl, inr, Bool, true, false, not, ◌&&◌, Option,
  none, some, List, [], ◌∷◌, ◌++◌, arith, ◌==◌, if◌then◌else◌, Bool-cases, length, ret,
  length-append,
}
use ukernel.Path.{
  slash, dot, max_path_len, max_file_name_len, path_parse, next_name, string_in, same_string,
  before_last, up_one, wash_name, wash_names, starts_with_slash, wash_path,
}
use ukernel.Path.Names.{
  add, split, components, every, are_names, Parsed, exhausted, found, cleared, next_name-Parsed,
  path_parse-Parsed, string_in-write, write_first, name_nonzero,
}

-- The names on the way down, the deepest first.
unfoldable pub enter : List (List ℕ) → List ℕ → List (List ℕ)
enter stack name =
    if same_string (dot ∷ dot ∷ []) name
    then elim stack [ [] ↦ [] | up ∷ above ↦ above ]
    else if same_string (dot ∷ []) name
    then stack
    else name ∷ stack

unfoldable pub resolve : List (List ℕ) → List (List ℕ) → List (List ℕ)
resolve stack [] = stack
resolve stack (name ∷ names) = resolve (enter stack name) names

unfoldable pub prefix : List (List ℕ) → List ℕ
prefix [] = []
prefix (name ∷ stack) = prefix stack ++ slash ∷ name

-- The absolute path of a stack of names.
unfoldable pub render : List (List ℕ) → List ℕ
render [] = slash ∷ []
render (name ∷ stack) = prefix (name ∷ stack)

-- no '/' in a name, and no name empty
abbrev plain : List ℕ → Bool
plain [] = false
plain (c ∷ s) = every (λ d. not (d == slash)) (c ∷ s)

unfoldable pub all_plain : List (List ℕ) → Bool
all_plain [] = true
all_plain (n ∷ ns) = plain n && all_plain ns

add-plain :
    (name : List ℕ) (names : List (List ℕ))
    → every (λ d. not (d == slash)) name ≡ true
    → all_plain names ≡ true
    → all_plain (add (name, names)) ≡ true
unfolding add all_plain
add-plain [] names one all = all
add-plain (c ∷ s) names one all = ground arith

split-plain :
    (s : List ℕ)
    → (every (λ d. not (d == slash)) (split s).0 ≡ true) × (all_plain (split s).1 ≡ true)
unfolding split all_plain
split-plain [] = (refl, refl)
split-plain (c ∷ s) = elim (Bool-cases (c == slash)) [
  | inl e ↦ rw e (refl, add-plain (split s).0 (split s).1 (split-plain s).0 (split-plain s).1)
  | inr n ↦ let (one, all) = split-plain s in rw (n, n, one) (refl, all)
]

pub components-plain : (s : List ℕ) → all_plain (components s) ≡ true
components-plain s = add-plain (split s).0 (split s).1 (split-plain s).0 (split-plain s).1

before_last-plain : (s : List ℕ) → every (λ d. not (d == slash)) s ≡ true → before_last s ≡ none
unfolding before_last
before_last-plain [] ok = refl
before_last-plain (c ∷ s) ok = rw (before_last-plain s (ground arith)) (ground arith)

before_last-append :
    (p name : List ℕ)
    → every (λ d. not (d == slash)) name ≡ true
    → before_last (p ++ slash ∷ name) ≡ some p
unfolding before_last
before_last-append [] name ok = rw (before_last-plain name ok) refl
before_last-append (c ∷ p) name ok = rw (before_last-append p name ok) refl

up_one_above :
    (path xs ys : List ℕ) (d : ℕ)
    → before_last path ≡ some (xs ++ d ∷ ys)
    → up_one path ≡ xs ++ d ∷ ys
unfolding up_one
up_one_above path [] ys d e = rw (e, up_one) refl
up_one_above path (x ∷ xs) ys d e = rw (e, up_one) refl

up_one-render :
    (name : List ℕ) (stack : List (List ℕ))
    → plain name ≡ true
    → up_one (render (name ∷ stack)) ≡ render stack
unfolding up_one render prefix before_last
up_one-render [] stack ok = ground arith
up_one-render (c ∷ s) [] ok = rw (before_last-plain (c ∷ s) ok, up_one) refl
up_one-render (c ∷ s) (above ∷ stack) ok =
    up_one_above (prefix (above ∷ stack) ++ slash ∷ c ∷ s) (prefix stack) above slash
      (before_last-append (prefix (above ∷ stack)) (c ∷ s) ok)

same_string-length : (s t : List ℕ) → same_string s t ≡ true → length s ≡ length t
unfolding same_string
same_string-length [] [] e = refl
same_string-length [] (d ∷ t) e = ground arith
same_string-length (c ∷ s) [] e = ground arith
same_string-length (c ∷ s) (d ∷ t) e = ap suc (same_string-length s t (ground arith))

-- Only the root is written "/".
same_string-render :
    (name : List ℕ) (stack : List (List ℕ))
    → plain name ≡ true
    → same_string (render (name ∷ stack)) (slash ∷ []) ≡ false
unfolding render prefix
same_string-render [] stack ok = ground arith
same_string-render (c ∷ s) stack ok =
    elim (Bool-cases (same_string (prefix stack ++ slash ∷ c ∷ s) (slash ∷ []))) [
      | inl e ↦ absurd (
          omega (
            arith,
            same_string-length (prefix stack ++ slash ∷ c ∷ s) (slash ∷ []) e,
            length-append (prefix stack) (slash ∷ c ∷ s),
          ))
      | inr n ↦ n
    ]

append_one : (xs : List ℕ) (d : ℕ) (ys : List ℕ) → (xs ++ d ∷ []) ++ ys ≡ xs ++ d ∷ ys
append_one [] d ys = refl
append_one (x ∷ xs) d ys = ap (λ l. x ∷ l) (append_one xs d ys)

-- What a name other than the two special ones does to the path.
append_name :
    (name : List ℕ) (stack : List (List ℕ))
    → all_plain stack ≡ true
    → (if not (same_string (render stack) (slash ∷ []))
          then render stack ++ slash ∷ []
          else render stack)
        ++ name
      ≡ render (name ∷ stack)
unfolding render prefix all_plain same_string
append_name name [] ok = refl
append_name name (above ∷ stack) ok =
    rw (same_string-render above stack (ground arith))
      (append_one (prefix (above ∷ stack)) slash name)

up_one-root : up_one (slash ∷ []) ≡ slash ∷ []
unfolding up_one before_last
up_one-root = refl

up_one-stack :
    (stack : List (List ℕ))
    → all_plain stack ≡ true
    → up_one (render stack) ≡ render (elim stack [ [] ↦ [] | up ∷ above ↦ above ])
unfolding all_plain render
up_one-stack [] ok = up_one-root
up_one-stack (name ∷ stack) ok = up_one-render name stack (ground arith)

wash_name-enter :
    (name : List ℕ) (stack : List (List ℕ))
    → all_plain stack ≡ true
    → wash_name name (render stack) ≡ render (enter stack name)
unfolding wash_name enter
wash_name-enter name stack ok = elim (Bool-cases (same_string (dot ∷ dot ∷ []) name)) [
  | inl e ↦ rw e (up_one-stack stack ok)
  | inr n ↦ elim (Bool-cases (same_string (dot ∷ []) name)) [
    | inl e ↦ rw (n, e) refl
    | inr m ↦ rw (n, m) (append_name name stack ok)
  ]
]

enter-plain :
    (name : List ℕ) (stack : List (List ℕ))
    → plain name ≡ true
    → all_plain stack ≡ true
    → all_plain (enter stack name) ≡ true
unfolding enter all_plain
enter-plain name [] one all = ground arith
enter-plain name (up ∷ above) one all = ground arith

wash_names_lem :
    (fuel : ℕ) (names stack : List (List ℕ)) (mem : ℕ → ℕ) (p : Option (List ℕ)) (name : ℕ → ℕ)
    → Parsed mem (p, name) names
    → are_names names ≡ true
    → all_plain names ≡ true
    → all_plain stack ≡ true
    → ((i : ℕ) → i < max_file_name_len → mem i ≡ 0)
    → length names < fuel
    → wash_names fuel (p, name) (render stack) ≡ some (render (resolve stack names))
unfolding wash_names are_names all_plain resolve
wash_names_lem zero names stack mem p name parsed ok plains deep zeroed fits = absurd (omega arith)
wash_names_lem (suc fuel) [] stack mem p name (exhausted e) ok plains deep zeroed fits =
    let head : name 0 ≡ 0 = ap (λ q. q.1 0) e ∙ zeroed 0 (omega arith) in ground arith
wash_names_lem (suc fuel) ([] ∷ names) stack mem p name parsed ok plains deep zeroed fits =
    elim parsed [ ]
wash_names_lem (suc fuel) ((c ∷ s) ∷ names) stack mem p name (found _ _ _ e w) ok plains deep zeroed
      fits =
    let head : name 0 ≡ c = ap (λ m. m 0) w ∙ write_first c s 0 mem in
    let read : string_in max_path_len name 0 ≡ c ∷ s =
      ap (λ m. string_in max_path_len m 0) w
      ∙ string_in-write max_path_len (c ∷ s) 0 mem (ground arith) (ground arith)
          (zeroed (0 + length (c ∷ s)) (ground arith)) in
    let step : wash_name (string_in max_path_len name 0) (render stack)
        ≡ render (enter stack (c ∷ s)) =
      ap (λ n. wash_name n (render stack)) read ∙ wash_name-enter (c ∷ s) stack deep in
    let ih =
      wash_names_lem fuel names (enter stack (c ∷ s)) (cleared name) (next_name p name).0
        (next_name p name).1 (rw (sym e) (next_name-Parsed p name)) (ground arith) (ground arith)
        (enter-plain (c ∷ s) stack (ground arith) deep) (λ i below. ground arith) (omega arith) in
    let follow = ap (wash_names fuel (next_name p name)) step ∙ ih in
    ground (arith, follow, head, name_nonzero c s (ground arith))

-- The early return for a path with no name is what the loop would leave.
wash_names_root :
    (fuel : ℕ) (first : Option (List ℕ) × (ℕ → ℕ))
    → (if first.1 0 == 0 then some (slash ∷ []) else wash_names (suc fuel) first (slash ∷ []))
      ≡ wash_names (suc fuel) first (slash ∷ [])
unfolding wash_names
wash_names_root fuel (p, name) = ground arith

-- For an absolute path whose names are shorter than 16 bytes, wash_path leaves, if it is given more
-- fuel than there are names, the absolute path that has the same names with every `.` left out and
-- every `..` taking away the name before it, if there is one; "/" where none is left.
pub wash_path-resolve :
    (fuel : ℕ) (path : List ℕ)
    → starts_with_slash path ≡ true
    → are_names (components path) ≡ true
    → length (components path) < fuel
    → wash_path fuel path ≡ ret (some (render (resolve [] (components path))))
unfolding wash_path path_parse render all_plain
wash_path-resolve zero path absolute ok fits = absurd (omega arith)
wash_path-resolve (suc fuel) path absolute ok fits =
    let first = path_parse-Parsed path (λ i. 0) in
    let all =
      wash_names_lem (suc fuel) (components path) [] (λ i. 0) (path_parse path (λ i. 0)).0
        (path_parse path (λ i. 0)).1 first ok (components-plain path) refl (λ i below. refl) fits in
    rw absolute (ap ret (wash_names_root fuel (path_parse path (λ i. 0)) ∙ all))
