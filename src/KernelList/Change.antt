-- ===== src/KernelList/Change.antt =====
-- Insertion and removal, as changes of the list that the links hold.
use mathlib.Core.List.{append-nil}
use ukernel.Prelude.{
  ℕ, ◌≡◌, ◌≢◌, refl, ◌∙◌, true, false, List, [], ◌∷◌, ◌++◌, arith, ◌==◌, if◌then◌else◌, has,
  without, Distinct, has-append, Distinct-left, Distinct-right, Distinct-apart, Distinct-append_one,
  has-without, Distinct-without, around,
}
use ukernel.KernelList.{
  Links, Ends, list_init, list_insert_before, list_push, list_append, list_remove, list_pop,
}
use ukernel.KernelList.Chain
use ukernel.KernelList.Chain.{Chain, IsList, SameOutside}

-- The element is in no place of the list.
pub record IsFresh (l : Ends) (xs : List ℕ) (elem : ℕ) : Type 0 where
  pub no_head : elem ≢ l.head
  pub no_tail : elem ≢ l.tail
  pub no_elem : has elem xs ≡ false

-- After list_init the list is empty.
pub list_init-IsList : (l : Ends) (h : Links) → l.head ≢ l.tail → IsList (list_init l h) l []
unfolding list_init
list_init-IsList l h ne = record {
  chain = ground arith;
  distinct = tt;
  head_out = refl;
  tail_out = refl;
  ends = ne;
}

module _ (h : Links) (before elem : ℕ) (ne : elem ≢ before) where
  insert_next :
      (a : ℕ)
      → (list_insert_before before elem h).next a
        ≡ (if a == elem then before else if a == h.prev before then elem else h.next a)
  unfolding list_insert_before
  insert_next a = refl

  insert_prev :
      (a : ℕ)
      → (list_insert_before before elem h).prev a
        ≡ (if a == before then elem else if a == elem then h.prev before else h.prev a)
  unfolding list_insert_before
  insert_prev a = refl

  -- The chain that led to `before` leads to `elem`, and from there to `before`.
  insert-Chain :
      (p : ℕ) (xs : List ℕ)
      → Chain h p xs before
      → Distinct (p ∷ xs)
      → has elem (p ∷ xs) ≡ false
      → has before xs ≡ false
      → Chain (list_insert_before before elem h) p xs elem
        × Chain (list_insert_before before elem h) elem [] before
  insert-Chain p xs c d out apart = (
    Chain.relink h (list_insert_before before elem h) p before elem xs c d
        (λ a m. ground (arith, insert_next a)) (λ a m. ground (arith, insert_prev a))
        (ground (arith, insert_prev elem)),
    ground (arith, insert_next elem, insert_prev before),
  )

insert_first :
    (h : Links) (l : Ends) (xs : List ℕ) (elem first : ℕ)
    → IsList h l xs
    → IsFresh l xs elem
    → first ≡ h.next l.head
    → IsList (list_insert_before first elem h) l (elem ∷ xs)
insert_first h l [] elem first is fresh e =
    let at : first ≡ l.tail = e ∙ is.chain.0 in
    let (front, back) =
      insert-Chain h l.tail elem fresh.no_tail l.head [] is.chain (refl, tt)
        (ground (arith, fresh.no_head)) refl in
    rw at (record {
      chain = (front.0, front.1, back);
      distinct = (refl, tt);
      head_out = ground (arith, fresh.no_head);
      tail_out = ground (arith, fresh.no_tail);
      ends = is.ends;
    })
insert_first h l (x ∷ xs) elem first is fresh e =
    let at : first ≡ x = e ∙ is.chain.0 in
    let ne : elem ≢ x = ground (arith, fresh.no_elem) in
    let (front, back) =
      insert-Chain h x elem ne l.head [] (is.chain.0, is.chain.1) (refl, tt)
        (ground (arith, fresh.no_head)) refl in
    let rest =
      Chain.frame h (list_insert_before x elem h) x l.tail xs (is.chain.2)
        (λ a m. ground (arith, insert_next h x elem ne a, is.chain.1, is.head_out, fresh.no_elem))
        (λ a m. ground (
          arith,
          insert_prev h x elem ne a,
          is.distinct.0,
          is.tail_out,
          fresh.no_elem,
          fresh.no_tail,
        )) in
    rw at (record {
      chain = (front.0, front.1, (back.0, back.1, rest));
      distinct = (fresh.no_elem, is.distinct);
      head_out = ground (arith, fresh.no_head, is.head_out);
      tail_out = ground (arith, fresh.no_tail, is.tail_out);
      ends = is.ends;
    })

-- list_push puts the element in front.
pub list_push-IsList :
    (h : Links) (l : Ends) (xs : List ℕ) (elem : ℕ)
    → IsList h l xs
    → IsFresh l xs elem
    → IsList (list_push l elem h) l (elem ∷ xs)
unfolding list_push
list_push-IsList h l xs elem is fresh = insert_first h l xs elem (h.next l.head) is fresh refl

-- list_append puts the element at the end.
pub list_append-IsList :
    (h : Links) (l : Ends) (xs : List ℕ) (elem : ℕ)
    → IsList h l xs
    → IsFresh l xs elem
    → IsList (list_append l elem h) l (xs ++ elem ∷ [])
unfolding list_append
list_append-IsList h l xs elem is fresh =
    let (front, back) =
      insert-Chain h l.tail elem fresh.no_tail l.head xs is.chain (is.head_out, is.distinct)
        (ground (arith, fresh.no_head, fresh.no_elem)) is.tail_out in
    record {
      chain = Chain.append (list_insert_before l.tail elem h) l.head elem l.tail xs [] front back;
      distinct = Distinct-append_one xs elem is.distinct fresh.no_elem;
      head_out = ground (arith, fresh.no_head, is.head_out, has-append l.head xs (elem ∷ []));
      tail_out = ground (arith, fresh.no_tail, is.tail_out, has-append l.tail xs (elem ∷ []));
      ends = is.ends;
    }

module _ (h : Links) (elem : ℕ) (ne : h.prev elem ≢ elem) where
  remove_next :
      (a : ℕ) → (list_remove elem h).next a ≡ (if a == h.prev elem then h.next elem else h.next a)
  unfolding list_remove
  remove_next a = ground arith

  remove_prev :
      (a : ℕ) → (list_remove elem h).prev a ≡ (if a == h.next elem then h.prev elem else h.prev a)
  unfolding list_remove
  remove_prev a = ground arith

  -- The chain that went through `elem` goes past it.
  remove-Chain :
      (p q : ℕ) (us vs : List ℕ)
      → Chain h p us elem
      → Chain h elem vs q
      → Distinct (p ∷ us)
      → has q us ≡ false
      → ((a : ℕ) → has a (p ∷ us) ≡ true → has a (elem ∷ vs) ≡ false)
      → Distinct vs
      → has q vs ≡ false
      → Chain (list_remove elem h) p (us ++ vs) q
  remove-Chain p q us [] c d du qu apart dv qv = rw append-nil (
      Chain.relink h (list_remove elem h) p elem q us c du (λ a m. ground (arith, remove_next a))
        (λ a m. ground (arith, remove_prev a)) (ground (arith, remove_prev q)))
  remove-Chain p q us (v ∷ vs) c d du qu apart dv qv =
      Chain.append (list_remove elem h) p v q us vs
        (Chain.relink h (list_remove elem h) p elem v us c du (λ a m. ground (arith, remove_next a))
          (λ a m. ground (arith, remove_prev a, apart a)) (ground (arith, remove_prev v)))
        (Chain.frame h (list_remove elem h) v q vs (d.2)
          (λ a m. ground (arith, remove_next a, Chain.prev_mem h p elem us c, apart (h.prev elem)))
          (λ a m. ground (arith, remove_prev a)))

-- list_remove takes the element out and leaves the others in order.
pub list_remove-IsList :
    (h : Links) (l : Ends) (xs : List ℕ) (elem : ℕ)
    → IsList h l xs
    → has elem xs ≡ true
    → IsList (list_remove elem h) l (without elem xs)
list_remove-IsList h l xs elem is mem =
    let r = around elem xs mem in
    let us = r.before in
    let vs = r.after in
    let d : Distinct (us ++ elem ∷ vs) = rw r.whole at is.distinct in
    let ho : has l.head (us ++ elem ∷ vs) ≡ false = rw r.whole at is.head_out in
    let to : has l.tail (us ++ elem ∷ vs) ≡ false = rw r.whole at is.tail_out in
    let c : Chain h l.head (us ++ elem ∷ vs) l.tail = rw r.whole at is.chain in
    let (front, back) = Chain.split h l.head elem l.tail us vs c in
    let hs = has-append l.head us (elem ∷ vs) in
    let ts = has-append l.tail us (elem ∷ vs) in
    let right = Distinct-right us (elem ∷ vs) d in
    let apart : (a : ℕ) → has a (l.head ∷ us) ≡ true → has a (elem ∷ vs) ≡ false =
      λ a m. ground (arith, Distinct-apart a us (elem ∷ vs) d) in
    let ne : h.prev elem ≢ elem =
      ground (arith, Chain.prev_mem h l.head elem us front, apart (h.prev elem)) in
    record {
      chain = rw r.rest (
          remove-Chain h elem ne l.head l.tail us vs front back
            (ground arith, Distinct-left us (elem ∷ vs) d) (ground arith) apart (right.1)
            (ground arith));
      distinct = Distinct-without elem xs is.distinct;
      head_out = has-without l.head elem xs is.head_out;
      tail_out = has-without l.tail elem xs is.tail_out;
      ends = is.ends;
    }

-- list_pop takes the first element out and returns it.
list_pop-IsList :
    (h : Links) (l : Ends) (x : ℕ) (xs : List ℕ)
    → IsList h l (x ∷ xs)
    → ((list_pop l h).0 ≡ x) × IsList (list_pop l h).1 l xs
unfolding list_pop
list_pop-IsList h l x xs is =
    let at : h.next l.head ≡ x = is.chain.0 in
    let r = list_remove-IsList h l (x ∷ xs) x is (ground arith) in
    let same : without x (x ∷ xs) ≡ xs = ground arith in (at, rw at (rw same at r))
