-- ===== src/Thread/Turns.antt =====
-- The timer's handler, and the turns that it gives: every ready thread has its turn.
use ukernel.Prelude.{
  ℕ, zero, suc, ◌+◌, ◌-◌, ◌%◌, ◌^◌, ◌<◌, ◌≡◌, refl, ◌∙◌, ap, false, some, List, [], ◌∷◌, ◌++◌,
  arith, get_elem?, Outcome, ret, ◌>>=◌,
}
use ukernel.Thread.{Kernel, set_task, schedule, intr_timer_handler}
use ukernel.Thread.Invariant.{IsValid, with_current, or_idle}
use ukernel.Thread.Schedule.{Scheduled, schedule-Scheduled}
use ukernel.Thread.Blocking.{IsLeaving-of_valid, current_running}

-- `n` rounds of a step, each from where the last one ended
pub rounds {ℓ} : {S : Type ℓ} → (S → Outcome S) → ℕ → S → Outcome S
rounds step zero s = ret s
rounds step (suc n) s = step s >>= λ s'. rounds step n s'

cons-injective : (a b : ℕ) (xs ys : List ℕ) → a ∷ xs ≡ b ∷ ys → (a ≡ b) × (xs ≡ ys)
cons-injective a b xs ys e = (cc, cc)

get_elem?-append :
    (xs ys : List ℕ) (i : ℕ) {p : ℕ} → get_elem? xs i ≡ some p → get_elem? (xs ++ ys) i ≡ some p
get_elem?-append [] ys i h = absurd (ground arith)
get_elem?-append (x ∷ xs) ys zero h = h
get_elem?-append (x ∷ xs) ys (suc i) h = get_elem?-append xs ys i h

or_idle-append_one :
    (k : Kernel) (x y : ℕ) (xs ys : List ℕ)
    → x ∷ xs ≡ or_idle k (ys ++ y ∷ [])
    → x ∷ xs ≡ ys ++ y ∷ []
or_idle-append_one k x y xs [] e = e
or_idle-append_one k x y xs (z ∷ zs) e = e

-- schedule from a valid state turns the queue by one place.
schedule_turn :
    (k : Kernel)
    → IsValid k
    → k.intr_on ≡ false
    → (k' : Kernel) × (schedule k ≡ ret k')
      × Scheduled k k'
      × (k'.current ∷ k'.ready_list ≡ k.ready_list ++ k.current ∷ [])
schedule_turn k v off =
    let (k', e, r) = schedule-Scheduled k (IsLeaving-of_valid k v) off in
    let whole : with_current k ≡ k.ready_list ++ k.current ∷ [] =
      ground (arith, current_running k v) in
    (
      k',
      e,
      r,
      or_idle-append_one k k'.current k.current k'.ready_list k.ready_list
          (r.order ∙ ap (or_idle k) whole),
    )

-- From a valid state, the thread that stands at place `i` of the queue runs after i + 1 turns, if
-- the queue changes by turns alone.
pub schedule_fair :
    (i : ℕ) (k : Kernel) (p : ℕ)
    → IsValid k
    → k.intr_on ≡ false
    → get_elem? k.ready_list i ≡ some p
    → (k' : Kernel) × (rounds schedule (suc i) k ≡ ret k') × IsValid k' × (k'.current ≡ p)
unfolding rounds
schedule_fair zero k p v off at =
    let (k', e, r, turn) = schedule_turn k v off in
    (k', rw e refl, r.valid, first k.ready_list at turn)
  where
    first :
        {c : ℕ} {cs : List ℕ} (xs : List ℕ)
        → get_elem? xs 0 ≡ some p
        → c ∷ cs ≡ xs ++ k.current ∷ []
        → c ≡ p
    first [] h e = absurd (ground arith)
    first (x ∷ xs) h e = ground arith
schedule_fair (suc i) k p v off at =
    let (k', e, r, turn) = schedule_turn k v off in
    let later = next k.ready_list at turn in
    let (k'', e', v', c) = schedule_fair i k' p r.valid (r.intr_same ∙ off) later in
    (k'', rw e e', v', c)
  where
    next :
        {c : ℕ} {cs : List ℕ} (xs : List ℕ)
        → get_elem? xs (suc i) ≡ some p
        → c ∷ cs ≡ xs ++ k.current ∷ []
        → get_elem? cs i ≡ some p
    next [] h e = absurd (ground arith)
    next {c} {cs} (x ∷ xs) h e =
        rw ((cons-injective c x cs (xs ++ k.current ∷ []) e).1)
          (get_elem?-append xs (k.current ∷ []) i h)

-- what the handler counts, whatever it does then
abbrev counted : Kernel → Kernel
counted k =
    let t = k.tasks k.current in
    record (set_task k k.current (record t { elapsed_ticks = (t.elapsed_ticks + 1) % 2 ^ 32 })) {
      ticks = (k.ticks + 1) % 2 ^ 32;
    }

counted-IsValid : (k : Kernel) → IsValid k → IsValid (counted k)
counted-IsValid k v = record {
  queue = record {
    distinct = v.queue.distinct;
    listed = λ p. ground (arith, v.queue.listed p);
    no_null = v.queue.no_null;
    idle_alive = ground (arith, v.queue.idle_alive);
    idle_null = v.queue.idle_null;
  };
  one_running = λ p. ground (arith, v.one_running p);
  current_null = v.current_null;
}

abbrev pub stack_mark : ℕ
stack_mark = 0x19970630

-- What one tick does to a valid state.
pub record Ticked (k k' : Kernel) : Type 0 where
  pub valid : IsValid k'
  pub intr_same : k'.intr_on ≡ k.intr_on
  pub counted_down :
      0 < (k.tasks k.current).ticks
      → (k'.current ≡ k.current)
        × (k'.ready_list ≡ k.ready_list)
        × ((k'.tasks k.current).ticks + 1 ≡ (k.tasks k.current).ticks)
        × ((k'.tasks k.current).stack_magic ≡ (k.tasks k.current).stack_magic)
  pub turned :
      (k.tasks k.current).ticks ≡ 0
      → (k'.current ∷ k'.ready_list ≡ k.ready_list ++ k.current ∷ [])
        × ((k'.tasks k.current).ticks ≡ (k.tasks k.current).priority)

tick_down :
    (k : Kernel) (t : ℕ)
    → IsValid k
    → (k.tasks k.current).ticks ≡ suc t
    → (k.tasks k.current).stack_magic ≡ stack_mark
    → (k' : Kernel) × (intr_timer_handler k ≡ ret k') × Ticked k k'
unfolding intr_timer_handler
tick_down k t v e m =
    let c = counted-IsValid k v in
    let down =
      set_task (counted k) k.current
        (record ((counted k).tasks k.current) { ticks = (k.tasks k.current).ticks - 1 }) in
    (
      down,
      ground arith,
      record {
        valid = record {
          queue = record {
            distinct = v.queue.distinct;
            listed = λ p. ground (arith, v.queue.listed p);
            no_null = v.queue.no_null;
            idle_alive = ground (arith, v.queue.idle_alive);
            idle_null = v.queue.idle_null;
          };
          one_running = λ p. ground (arith, v.one_running p);
          current_null = v.current_null;
        };
        intr_same = refl;
        counted_down = λ h. (refl, refl, ground arith, ground arith);
        turned = λ h. absurd (omega arith);
      },
    )

tick_over :
    (k : Kernel)
    → IsValid k
    → k.intr_on ≡ false
    → (k.tasks k.current).ticks ≡ 0
    → (k.tasks k.current).stack_magic ≡ stack_mark
    → (k' : Kernel) × (intr_timer_handler k ≡ ret k') × Ticked k k'
unfolding intr_timer_handler
tick_over k v off e m =
    let (k', s, r, turn) = schedule_turn (counted k) (counted-IsValid k v) off in
    (
      k',
      ground (arith, s),
      record {
        valid = r.valid;
        intr_same = r.intr_same;
        counted_down = λ h. absurd (omega arith);
        turned = λ h.
            (turn, r.refilled (current_running (counted k) (counted-IsValid k v)) ∙ ground arith);
      },
    )

-- A tick at a valid state, interrupts off and the stack mark whole: the current thread's ticks go
-- down by one and it goes on, or, with none left, they are refilled from its priority and the
-- queue turns by one place.
pub intr_timer_handler-Ticked :
    (k : Kernel)
    → IsValid k
    → k.intr_on ≡ false
    → (k.tasks k.current).stack_magic ≡ stack_mark
    → (k' : Kernel) × (intr_timer_handler k ≡ ret k') × Ticked k k'
intr_timer_handler-Ticked k v off m = split (k.tasks k.current).ticks refl
  where
    split :
        (t : ℕ)
        → (k.tasks k.current).ticks ≡ t
        → (k' : Kernel) × (intr_timer_handler k ≡ ret k') × Ticked k k'
    split zero e = tick_over k v off e m
    split (suc t) e = tick_down k t v e m

-- A thread with `t` ticks left keeps the processor for t more ticks; the next one turns the queue.
intr_timer_handler_quantum :
    (t : ℕ) (k : Kernel)
    → IsValid k
    → k.intr_on ≡ false
    → (k.tasks k.current).stack_magic ≡ stack_mark
    → (k.tasks k.current).ticks ≡ t
    → (k' : Kernel) × (rounds intr_timer_handler (suc t) k ≡ ret k')
      × IsValid k'
      × (k'.current ∷ k'.ready_list ≡ k.ready_list ++ k.current ∷ [])
unfolding rounds
intr_timer_handler_quantum zero k v off m e =
    let (k', s, r) = tick_over k v off e m in (k', rw s refl, r.valid, (r.turned e).0)
intr_timer_handler_quantum (suc t) k v off m e =
    let (k', s, r) = tick_down k t v e m in
    let (same, list, ticks, mark) = r.counted_down (omega arith) in
    let (k'', s', v', turn) =
      intr_timer_handler_quantum t k' r.valid (r.intr_same ∙ off)
        (ap (λ c. (k'.tasks c).stack_magic) same ∙ mark ∙ m)
        (ap (λ c. (k'.tasks c).ticks) same ∙ omega arith) in
    (
      k'',
      rw s s',
      v',
      turn ∙ ap (λ c. k'.ready_list ++ c ∷ []) same ∙ ap (λ l. l ++ k.current ∷ []) list,
    )
