-- ===== src/Thread/Schedule.antt =====
-- schedule as a whole.
use ukernel.Prelude.{
  ℕ, ◌≡◌, ◌≢◌, refl, sym, ◌∙◌, ap, true, false, inl, inr, List, [], ◌∷◌, arith, if◌then◌else◌, has,
  Bool-cases, ret,
}
use ukernel.Thread.Pcb.{running, ready, is_status}
use ukernel.Thread.{Kernel, null, is_empty, thread_unblock, requeue, dispatch, schedule}
use ukernel.Thread.Invariant.{
  IsValid, IsLeaving, IsParked, with_current, or_idle, parked, requeue-parked, parked-list,
  parked-rest, parked-IsParked, idle_may_wait, woken, thread_unblock-woken, woken-IsQueue, switched,
  dispatch-switched, switched-IsValid,
}

-- What schedule does with a state: the first of the queue runs, on its page tables; the threads
-- that neither left nor came are as they were.
pub record Scheduled (k k' : Kernel) : Type 0 where
  pub valid : IsValid k'
  pub order : k'.current ∷ k'.ready_list ≡ or_idle k (with_current k)
  pub intr_same : k'.intr_on ≡ k.intr_on
  pub all_same : k'.all_list ≡ k.all_list
  pub tables : k'.pgdir ≡ (k'.tasks k'.current).pgdir
  pub others : (p : ℕ) → p ≢ k.current → p ≢ k'.current → k'.tasks p ≡ k.tasks p
  pub stopped :
      k.current ≢ k'.current
      → (k'.tasks k.current).status ≡ (
          if is_status (k.tasks k.current).status running
          then ready
          else (k.tasks k.current).status)
  pub refilled :
      is_status (k.tasks k.current).status running ≡ true
      → (k'.tasks k.current).ticks ≡ (k.tasks k.current).priority

-- the state after the idle thread has been woken, if need be
abbrev roused : Kernel → Kernel
roused k = if is_empty k.ready_list then woken k k.idle_thread else k

roused-IsParked : (k : Kernel) → IsParked k → IsParked (roused k)
roused-IsParked k v = elim (Bool-cases (is_empty k.ready_list)) [
  | inl e ↦
      let w = idle_may_wait k v (nil k.ready_list e) in
      rw e (record {
        queue = woken-IsQueue k k.idle_thread v.queue v.queue.idle_null w;
        no_running = λ p. ground (arith, v.no_running p);
      })
  | inr n ↦ rw n v
]
  where
    nil : (xs : List ℕ) → is_empty xs ≡ true → xs ≡ []
    nil xs h = ground arith

rouse :
    (k : Kernel)
    → IsParked k
    → (if is_empty k.ready_list then thread_unblock k.idle_thread k else ret k) ≡ ret (roused k)
rouse k v = elim (Bool-cases (is_empty k.ready_list)) [
  | inl e ↦
      rw e (thread_unblock-woken k k.idle_thread v.queue (idle_may_wait k v (nil k.ready_list e)))
  | inr n ↦ rw n refl
]
  where
    nil : (xs : List ℕ) → is_empty xs ≡ true → xs ≡ []
    nil xs h = ground arith

roused-list : (k : Kernel) → (roused k).ready_list ≡ or_idle k k.ready_list
roused-list k = cases k.ready_list refl
  where
    cases : (xs : List ℕ) → k.ready_list ≡ xs → (roused k).ready_list ≡ or_idle k k.ready_list
    cases [] e = ground arith
    cases (x ∷ xs) e = ground arith

schedule_steps :
    (k k₁ k₂ : Kernel)
    → k.intr_on ≡ false
    → requeue k ≡ ret k₁
    → (if is_empty k₁.ready_list then thread_unblock k₁.idle_thread k₁ else ret k₁) ≡ ret k₂
    → schedule k ≡ dispatch k₂.ready_list k₂
unfolding schedule
schedule_steps k k₁ k₂ off e f = ground arith

or_idle_cons : (k : Kernel) (xs : List ℕ) → (x : ℕ) × (r : List ℕ) × (or_idle k xs ≡ x ∷ r)
or_idle_cons k [] = (k.idle_thread, [], refl)
or_idle_cons k (x ∷ xs) = (x, xs, refl)

module _ (k : Kernel) (v : IsLeaving k) (off : k.intr_on ≡ false) where
  abbrev chosen_from : Kernel
  chosen_from = roused (parked k v)

  chosen_from-IsParked : IsParked chosen_from
  chosen_from-IsParked = roused-IsParked (parked k v) (parked-IsParked k v)

  schedule-dispatch : schedule k ≡ dispatch chosen_from.ready_list chosen_from
  schedule-dispatch =
      schedule_steps k (parked k v) chosen_from off (requeue-parked k v)
        (rouse (parked k v) (parked-IsParked k v))

  chosen_from-list : chosen_from.ready_list ≡ or_idle k (with_current k)
  chosen_from-list = ground (arith, roused-list (parked k v), parked-list k v, parked-rest k v)

  module _ (next : ℕ) (rest : List ℕ) (at : chosen_from.ready_list ≡ next ∷ rest) where
    next_null : next ≢ null
    next_null e =
        let n : has null (next ∷ rest) ≡ false = rw at at chosen_from-IsParked.queue.no_null in
        ground arith

    schedule_to : schedule k ≡ ret (switched chosen_from next rest)
    schedule_to =
        schedule-dispatch
        ∙ ap (λ t. dispatch t chosen_from) at
        ∙ dispatch-switched chosen_from next rest next_null

    -- Only a thread that was woken or that left has changed.
    chosen_from-others : (p : ℕ) → p ≢ k.current → p ≢ next → chosen_from.tasks p ≡ k.tasks p
    chosen_from-others p a b = ground arith

    switched-Scheduled : Scheduled k (switched chosen_from next rest)
    switched-Scheduled = record {
      valid = switched-IsValid chosen_from next rest chosen_from-IsParked at next_null;
      order = sym at ∙ chosen_from-list;
      intr_same = ground arith;
      all_same = ground arith;
      tables = ground arith;
      others = λ p a b. ground (arith, chosen_from-others p a b);
      stopped = λ ne. ground arith;
      refilled = λ r. ground arith;
    }

-- Interrupts are off; the queue lists exactly the threads whose status is ready, each once and none
-- at NULL; the idle thread is not NULL and has not died; the current thread is not NULL, and no other
-- thread is running. Then schedule fails no ASSERT: it returns a state in which the queue again lists
-- exactly the ready threads and exactly the current one is running, which is the first of the
-- queue, to which the thread that still ran was appended, or the idle thread if there is none; it
-- runs on its page tables. No thread but the old and the new one has changed; the old one, if it was
-- running, has its ticks refilled, and is ready unless it goes on.
pub schedule-Scheduled :
    (k : Kernel)
    → IsLeaving k
    → k.intr_on ≡ false
    → (k' : Kernel) × (schedule k ≡ ret k') × Scheduled k k'
schedule-Scheduled k v off =
    let (next, rest, e) = or_idle_cons k (with_current k) in
    let at : (chosen_from k v off).ready_list ≡ next ∷ rest = chosen_from-list k v off ∙ e in
    (
      switched (chosen_from k v off) next rest,
      schedule_to k v off next rest at,
      switched-Scheduled k v off next rest at,
    )
