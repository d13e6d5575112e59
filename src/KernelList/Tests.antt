-- ===== src/KernelList/Tests.antt =====
-- Two lists in one memory, and the theorems at them.
use ukernel.Prelude.{ℕ, ◌+◌, ◌≡◌, refl, Bool, false, some, List, [], ◌∷◌, arith, ◌==◌, has}
use ukernel.KernelList.{Links, Ends, list_init, list_push, list_append, list_remove, list_traversal}
use ukernel.KernelList.Chain.{IsList}
use ukernel.KernelList.Change.{
  list_append-IsList, IsFresh, list_init-IsList, list_push-IsList, list_remove-IsList,
}
use ukernel.KernelList.Walk.{visit, list_traversal-visit}

-- the sentinels of two lists
abbrev ready : Ends
ready = record { head = 1; tail = 2 }

abbrev all : Ends
all = record { head = 3; tail = 4 }

abbrev blank : Links
blank = record { prev = λ a. 0; next = λ a. 0 }

abbrev empty : Links
empty = list_init ready blank

empty-IsList : IsList empty ready []
empty-IsList = list_init-IsList ready blank (omega arith)

-- 10 and 12 at the end, then 8 in front
abbrev three : Links
three = list_push ready 8 (list_append ready 12 (list_append ready 10 empty))

IsFresh-of : (xs : List ℕ) (a : ℕ) → has a (1 ∷ 2 ∷ xs) ≡ false → IsFresh ready xs a
IsFresh-of xs a h = ground arith

one-IsList : IsList (list_append ready 10 empty) ready (10 ∷ [])
one-IsList = list_append-IsList empty ready [] 10 empty-IsList (IsFresh-of [] 10 refl)

two-IsList : IsList (list_append ready 12 (list_append ready 10 empty)) ready (10 ∷ 12 ∷ [])
two-IsList =
    list_append-IsList (list_append ready 10 empty) ready (10 ∷ []) 12 one-IsList
      (IsFresh-of (10 ∷ []) 12 refl)

three-IsList : IsList three ready (8 ∷ 10 ∷ 12 ∷ [])
three-IsList =
    list_push-IsList (list_append ready 12 (list_append ready 10 empty)) ready (10 ∷ 12 ∷ []) 8
      two-IsList (IsFresh-of (10 ∷ 12 ∷ []) 8 refl)

list_remove-IsList_example : IsList (list_remove 10 three) ready (8 ∷ 12 ∷ [])
list_remove-IsList_example = list_remove-IsList three ready (8 ∷ 10 ∷ 12 ∷ []) 10 three-IsList refl

-- counts the elements that it sees, and stops at 10
abbrev stop_at_ten : ℕ → ℕ → Bool × ℕ
stop_at_ten a seen = (a == 10, seen + 1)

list_traversal-visit_example :
    list_traversal stop_at_ten 4 ready three 0 ≡ some (visit stop_at_ten (8 ∷ 10 ∷ 12 ∷ []) 0)
list_traversal-visit_example =
    list_traversal-visit three ready (8 ∷ 10 ∷ 12 ∷ []) three-IsList stop_at_ten 4 0 (omega arith)

visit_stops : visit stop_at_ten (8 ∷ 10 ∷ 12 ∷ []) 0 ≡ (some 10, 2)
unfolding visit
visit_stops = refl

-- the second list, empty, beside the first
abbrev both : Links
both = list_init all empty

both-ready : IsList both ready []
unfolding list_init
both-ready = record {
  chain = (refl, refl);
  distinct = tt;
  head_out = refl;
  tail_out = refl;
  ends = omega arith;
}
