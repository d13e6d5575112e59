-- ===== src/KernelList/Frame.antt =====
-- What insertion and removal leave alone: every link outside the list and the element.
use ukernel.Prelude.{ℕ, ◌≡◌, true, false, List, [], ◌∷◌, arith, has}
use ukernel.KernelList.{Links, Ends, list_insert_before, list_push, list_append}
use ukernel.KernelList.Chain.{IsList, SameOutside, tags, prev_mem, IsList-elsewhere}

-- A change of one list is no change of another that shares no tag with it.
module _ (h : Links) (l : Ends) (xs : List ℕ) (elem : ℕ) (is : IsList h l xs) where
  next_head_mem : has (h.next l.head) (tags l xs) ≡ true
  next_head_mem = go xs is
    where
      go : (ys : List ℕ) → IsList h l ys → has (h.next l.head) (tags l ys) ≡ true
      go [] i = ground (arith, i.chain.0)
      go (y ∷ ys) i = ground (arith, i.chain.0)

  prev_tail_mem : has (h.prev l.tail) (tags l xs) ≡ true
  prev_tail_mem = ground (arith, prev_mem h l.head l.tail xs is.chain)

  prev_next_head : h.prev (h.next l.head) ≡ l.head
  prev_next_head = go xs is
    where
      go : (ys : List ℕ) → IsList h l ys → h.prev (h.next l.head) ≡ l.head
      go [] i = ground (arith, i.chain.0, i.chain.1)
      go (y ∷ ys) i = ground (arith, i.chain.0, i.chain.1)

  list_push_same : SameOutside (elem ∷ tags l xs) h (list_push l elem h)
  unfolding list_push list_insert_before
  list_push_same a m = ground (arith, next_head_mem, prev_next_head)

  list_append_same : SameOutside (elem ∷ tags l xs) h (list_append l elem h)
  unfolding list_append list_insert_before
  list_append_same a m = ground (arith, prev_tail_mem)

  module _ (m : Ends) (ys : List ℕ) (other : IsList h m ys) where
    -- A second list that shares no tag with the first, nor with the element put into the first,
    -- holds what it held, whether the element is pushed or appended.
    insert-elsewhere :
        ((a : ℕ) → has a (tags m ys) ≡ true → has a (elem ∷ tags l xs) ≡ false)
        → IsList (list_push l elem h) m ys × IsList (list_append l elem h) m ys
    insert-elsewhere apart = (
      IsList-elsewhere h (list_push l elem h) m ys (elem ∷ tags l xs) other list_push_same apart,
      IsList-elsewhere h (list_append l elem h) m ys (elem ∷ tags l xs) other list_append_same
          apart,
    )
