-- ===== src/KernelList.antt =====
-- list.h and list.c: the doubly linked lists of the kernel, threaded through tags in other
-- structures. The `prev` and `next` words of all tags are two maps from addresses, so that lists
-- share one memory. Each routine runs with interrupts off, hence in one step; where a loop walks
-- a list it takes fuel, and `none` is a walk that did not reach the tail. The theorems give one
-- more than the list's length.
pub mod Chain
pub mod Change
pub mod Frame
pub mod Walk
mod Tests
use ukernel.Prelude.{
  ℕ, zero, suc, ◌+◌, Bool, true, false, Option, none, some, ◌==◌, if◌then◌else◌, update,
}

-- the two words of every struct list_elem
pub record Links : Type 0 where
  pub prev : ℕ → ℕ
  pub next : ℕ → ℕ

-- struct list: the addresses of its two sentinels
pub record Ends : Type 0 where
  pub head : ℕ
  pub tail : ℕ

-- `p->prev = q` and `p->next = q`
abbrev pub set_prev : Links → ℕ → ℕ → Links
set_prev h p q = record h { prev = update h.prev p q }

abbrev pub set_next : Links → ℕ → ℕ → Links
set_next h p q = record h { next = update h.next p q }

unfoldable pub list_init : Ends → Links → Links
list_init l h =
    let h₁ = set_prev h l.head 0 in
    let h₂ = set_next h₁ l.head l.tail in let h₃ = set_prev h₂ l.tail l.head in set_next h₃ l.tail 0

unfoldable pub list_insert_before : (before elem : ℕ) → Links → Links
list_insert_before before elem h =
    let h₁ = set_next h (h.prev before) elem in
    let h₂ = set_prev h₁ elem (h₁.prev before) in
    let h₃ = set_next h₂ elem before in set_prev h₃ before elem

unfoldable pub list_push : Ends → ℕ → Links → Links
list_push l elem h = list_insert_before (h.next l.head) elem h

unfoldable pub list_append : Ends → ℕ → Links → Links
list_append l elem h = list_insert_before l.tail elem h

unfoldable pub list_remove : ℕ → Links → Links
list_remove elem h =
    let h₁ = set_next h (h.prev elem) (h.next elem) in set_prev h₁ (h₁.next elem) (h₁.prev elem)

unfoldable pub list_pop : Ends → Links → ℕ × Links
list_pop l h = let elem = h.next l.head in (elem, list_remove elem h)

unfoldable pub list_empty : Ends → Links → Bool
list_empty l h = h.next l.head == l.tail

find_from : ℕ → Ends → Links → (obj elem : ℕ) → Option Bool
find_from zero l h obj elem = none
find_from (suc fuel) l h obj elem =
    let rest = find_from fuel l h obj (h.next elem) in
    if elem == l.tail then some false else if elem == obj then some true else rest

unfoldable pub elem_find : ℕ → Ends → Links → ℕ → Option Bool
unfolding find_from
elem_find fuel l h obj = find_from fuel l h obj (h.next l.head)

len_from : ℕ → Ends → Links → (elem len : ℕ) → Option ℕ
len_from zero l h elem len = none
len_from (suc fuel) l h elem len =
    let rest = len_from fuel l h (h.next elem) (len + 1) in
    if elem == l.tail then some len else rest

unfoldable pub list_len : ℕ → Ends → Links → Option ℕ
unfolding len_from
list_len fuel l h = len_from fuel l h (h.next l.head) 0

-- The callback reads and changes the state `S` that its structures are in, never the links; an
-- element found is `some elem`, NULL is `none`.
module _ {S : Type 0} (func : ℕ → S → Bool × S) where
  traverse_from : ℕ → Ends → Links → ℕ → S → Option (Option ℕ × S)
  traverse_from zero l h elem s = none
  traverse_from (suc fuel) l h elem s =
      let (stop, s') = func elem s in
      let rest = traverse_from fuel l h (h.next elem) s' in
      if elem == l.tail then some (none, s) else if stop then some (some elem, s') else rest

  unfoldable pub list_traversal : ℕ → Ends → Links → S → Option (Option ℕ × S)
  unfolding traverse_from list_empty
  list_traversal fuel l h s =
      let walk = traverse_from fuel l h (h.next l.head) s in
      if list_empty l h then some (none, s) else walk
