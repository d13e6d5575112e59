-- ===== src/KernelList/Walk.antt =====
-- The routines that walk a list, over the list that the links hold.
use ukernel.Prelude.{
  ℕ, zero, suc, ◌+◌, ◌≡◌, ◌<◌, refl, ◌∙◌, ap, inl, inr, Bool, true, false, Option, none, some, List,
  [], ◌∷◌, arith, if◌then◌else◌, has, length, Bool-cases,
}
use ukernel.KernelList.{
  Links, Ends, list_empty, find_from, elem_find, len_from, list_len, traverse_from, list_traversal,
}
use ukernel.KernelList.Chain.{Chain, IsList}

-- whether there is no element
abbrev pub is_nil : List ℕ → Bool
is_nil [] = true
is_nil (x ∷ xs) = false

-- the callback at each element in turn, until one stops it
unfoldable pub visit : {S : Type 0} → (ℕ → S → Bool × S) → List ℕ → S → Option ℕ × S
visit func [] s = (none, s)
visit func (x ∷ xs) s =
    let (stop, s') = func x s in let rest = visit func xs s' in if stop then (some x, s') else rest

-- list_empty says whether there is no element.
pub list_empty-is_nil :
    (h : Links) (l : Ends) (xs : List ℕ) → IsList h l xs → list_empty l h ≡ is_nil xs
unfolding list_empty
list_empty-is_nil h l [] is = ground (arith, is.chain.0)
list_empty-is_nil h l (x ∷ xs) is = ground (arith, is.chain.0, is.tail_out)

module _ (h : Links) (l : Ends) where
  find_from-has :
      (fuel : ℕ) (obj p : ℕ) (xs : List ℕ)
      → Chain h p xs l.tail
      → has l.tail xs ≡ false
      → length xs < fuel
      → find_from fuel l h obj (h.next p) ≡ some (has obj xs)
  unfolding find_from
  find_from-has zero obj p xs c t f = absurd (omega arith)
  find_from-has (suc fuel) obj p [] c t f = ground (arith, c.0)
  find_from-has (suc fuel) obj p (x ∷ xs) c t f =
      let e : h.next p ≡ x = c.0 in rw e (ground (arith, find_from-has fuel obj x xs (c.2)))

  len_from-length :
      (fuel len p : ℕ) (xs : List ℕ)
      → Chain h p xs l.tail
      → has l.tail xs ≡ false
      → length xs < fuel
      → len_from fuel l h (h.next p) len ≡ some (len + length xs)
  unfolding len_from
  len_from-length zero len p xs c t f = absurd (omega arith)
  len_from-length (suc fuel) len p [] c t f = ground (arith, c.0)
  len_from-length (suc fuel) len p (x ∷ xs) c t f =
      let e : h.next p ≡ x = c.0 in rw e (ground (arith, len_from-length fuel (len + 1) x xs (c.2)))

  traverse_from-visit :
      {S : Type 0} (func : ℕ → S → Bool × S) (fuel p : ℕ) (xs : List ℕ) (s : S)
      → Chain h p xs l.tail
      → has l.tail xs ≡ false
      → length xs < fuel
      → traverse_from func fuel l h (h.next p) s ≡ some (visit func xs s)
  unfolding traverse_from visit
  traverse_from-visit func zero p xs s c t f = absurd (omega arith)
  traverse_from-visit func (suc fuel) p [] s c t f = ground (arith, c.0)
  traverse_from-visit func (suc fuel) p (x ∷ xs) s c t f =
      let e : h.next p ≡ x = c.0 in
      let ih = traverse_from-visit func fuel x xs (func x s).1 (c.2) (ground arith) (omega arith) in
      rw e (elim (Bool-cases ((func x s).0)) [
        | inl stop ↦ ground arith
        | inr more ↦ ground (arith, ih)
      ])

module _ (h : Links) (l : Ends) (xs : List ℕ) (is : IsList h l xs) where
  -- elem_find ends, and says whether the element is in the list.
  pub elem_find-has : (fuel obj : ℕ) → length xs < fuel → elem_find fuel l h obj ≡ some (has obj xs)
  unfolding elem_find
  elem_find-has fuel obj f = find_from-has h l fuel obj l.head xs is.chain is.tail_out f

  -- list_len ends, and counts the elements.
  pub list_len-length : (fuel : ℕ) → length xs < fuel → list_len fuel l h ≡ some (length xs)
  unfolding list_len
  list_len-length fuel f =
      len_from-length h l fuel 0 l.head xs is.chain is.tail_out f ∙ ap some (omega arith)

  -- list_traversal ends, having called the callback at the elements in order up to the first that
  -- stops it, which it returns.
  pub list_traversal-visit :
      {S : Type 0} (func : ℕ → S → Bool × S) (fuel : ℕ) (s : S)
      → length xs < fuel
      → list_traversal func fuel l h s ≡ some (visit func xs s)
  unfolding list_traversal visit
  list_traversal-visit func fuel s f = elim (Bool-cases (list_empty l h)) [
    | inl e ↦ rw e (nil_of_empty xs is e)
    | inr n ↦ rw n (traverse_from-visit h l func fuel l.head xs s is.chain is.tail_out f)
  ]
    where
      nil_of_empty :
          (ys : List ℕ)
          → IsList h l ys
          → list_empty l h ≡ true
          → some (none, s) ≡ some (visit func ys s)
      nil_of_empty [] i e = refl
      nil_of_empty (y ∷ ys) i e = absurd (ground (arith, i.chain.0, i.tail_out))
