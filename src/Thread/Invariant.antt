-- ===== src/Thread/Invariant.antt =====
-- The scheduler's invariant, and schedule as a whole: it never fails an ASSERT.
use ukernel.Prelude.{
  ℕ, ◌+◌, ◌%◌, ◌^◌, ◌≡◌, ◌≢◌, refl, true, false, inl, inr, List, [], ◌∷◌, ◌++◌, arith, ◌==◌,
  if◌then◌else◌, has, Distinct, has-append, Distinct-append_one, Bool-cases, ne→==, ret,
}
use ukernel.Thread.Pcb.{Status, running, ready, died, is_status}
use ukernel.Thread.{
  Kernel, null, set_status, set_task, may_wait, thread_unblock, requeue, process_activate, dispatch,
}

-- What holds of the queue whoever has the processor. It does not hold between init_thread, which
-- makes a thread ready, and the list_append of its creator (thread_start, process_execute).
pub record IsQueue (k : Kernel) : Type 0 where
  pub distinct : Distinct k.ready_list
  pub listed : (p : ℕ) → has p k.ready_list ≡ is_status (k.tasks p).status ready
  pub no_null : has null k.ready_list ≡ false
  pub idle_alive : is_status (k.tasks k.idle_thread).status died ≡ false
  pub idle_null : k.idle_thread ≢ null

-- The queue holds exactly the ready threads, and exactly the current thread is running.
pub record IsValid (k : Kernel) : Type 0 where
  pub queue : IsQueue k
  pub one_running : (p : ℕ) → is_status (k.tasks p).status running ≡ (p == k.current)
  pub current_null : k.current ≢ null

-- As `schedule` is entered: no thread but the current one is running, and perhaps not that.
pub record IsLeaving (k : Kernel) : Type 0 where
  pub queue : IsQueue k
  pub only_current : (p : ℕ) → is_status (k.tasks p).status running ≡ true → p ≡ k.current
  pub current_null : k.current ≢ null

-- Within `schedule`: nobody is running.
pub record IsParked (k : Kernel) : Type 0 where
  pub queue : IsQueue k
  pub no_running : (p : ℕ) → is_status (k.tasks p).status running ≡ false

-- the queue that `schedule` chooses from
abbrev pub with_current : Kernel → List ℕ
with_current k =
    if is_status (k.tasks k.current).status running
    then k.ready_list ++ k.current ∷ []
    else k.ready_list

abbrev pub or_idle : Kernel → List ℕ → List ℕ
or_idle k [] = k.idle_thread ∷ []
or_idle k (x ∷ xs) = x ∷ xs

pub status-running-ready : (s : Status) → is_status s running ≡ true → is_status s ready ≡ false
status-running-ready s h = ground arith

module _ (k : Kernel) (v : IsLeaving k) where
  abbrev pub parked : Kernel
  parked =
      if is_status (k.tasks k.current).status running
      then set_task (record k { ready_list = k.ready_list ++ k.current ∷ [] }) k.current
          (record (k.tasks k.current) { ticks = (k.tasks k.current).priority; status = ready })
      else k

  pub requeue-parked : requeue k ≡ ret parked
  unfolding requeue
  requeue-parked = elim (Bool-cases (is_status (k.tasks k.current).status running)) [
    | inl r ↦
        ground (arith, v.queue.listed k.current, status-running-ready (k.tasks k.current).status r)
    | inr n ↦ rw n refl
  ]

  pub parked-list : parked.ready_list ≡ with_current k
  parked-list = ground arith

  pub parked-rest :
      (parked.idle_thread ≡ k.idle_thread)
      × (parked.all_list ≡ k.all_list)
      × (parked.current ≡ k.current)
  parked-rest = ground arith

  pub parked-IsParked : IsParked parked
  parked-IsParked = elim (Bool-cases (is_status (k.tasks k.current).status running)) [
    | inl r ↦
        let out : has k.current k.ready_list ≡ false =
          ground
            (arith, v.queue.listed k.current, status-running-ready (k.tasks k.current).status r) in
        rw r (record {
          queue = record {
            distinct = Distinct-append_one k.ready_list k.current v.queue.distinct out;
            listed =
                λ p. ground (arith, v.queue.listed p, has-append p k.ready_list (k.current ∷ []));
            no_null = ground (
              arith,
              v.current_null,
              v.queue.no_null,
              has-append null k.ready_list (k.current ∷ []),
            );
            idle_alive = ground (arith, v.queue.idle_alive);
            idle_null = v.queue.idle_null;
          };
          no_running = λ p. ground (arith, v.only_current p);
        })
    | inr n ↦ rw n (record { queue = v.queue; no_running = λ p. ground (arith, v.only_current p) })
  ]

-- The idle thread can be woken when nothing else is ready.
pub idle_may_wait :
    (k : Kernel) → IsParked k → k.ready_list ≡ [] → may_wait (k.tasks k.idle_thread).status ≡ true
idle_may_wait k v e =
    wakes (k.tasks k.idle_thread).status (v.no_running k.idle_thread)
      (ground (arith, v.queue.listed k.idle_thread)) v.queue.idle_alive
  where
    wakes :
        (s : Status)
        → is_status s running ≡ false
        → is_status s ready ≡ false
        → is_status s died ≡ false
        → may_wait s ≡ true
    wakes s a b c = ground arith

abbrev pub woken : Kernel → ℕ → Kernel
woken k p = set_status (record k { ready_list = p ∷ k.ready_list }) p ready

-- Waking a thread that waits puts it at the head of the queue.
pub thread_unblock-woken :
    (k : Kernel) (p : ℕ)
    → IsQueue k
    → may_wait (k.tasks p).status ≡ true
    → thread_unblock p k ≡ ret (woken k p)
unfolding thread_unblock
thread_unblock-woken k p q w = ground (arith, q.listed p, not_ready (k.tasks p).status w)
  where
    not_ready : (s : Status) → may_wait s ≡ true → is_status s ready ≡ false
    not_ready s h = ground arith

pub waiting_status :
    (s : Status)
    → may_wait s ≡ true
    → (is_status s ready ≡ false) × (is_status s running ≡ false) × (is_status s died ≡ false)
waiting_status s h = ground arith

pub woken-IsQueue :
    (k : Kernel) (p : ℕ)
    → IsQueue k
    → p ≢ null
    → may_wait (k.tasks p).status ≡ true
    → IsQueue (woken k p)
woken-IsQueue k p q ne w =
    let (not_ready, not_running, alive) = waiting_status (k.tasks p).status w in
    record {
      distinct = (ground (arith, q.listed p), q.distinct);
      listed = λ a. ground (arith, q.listed a);
      no_null = ground (arith, q.no_null);
      idle_alive = ground (arith, q.idle_alive);
      idle_null = q.idle_null;
    }

-- the state in which `next` runs
abbrev pub switched : Kernel → ℕ → List ℕ → Kernel
switched k next rest =
    let k' = set_status (record k { ready_list = rest }) next running in
    record k' {
      current = next;
      pgdir = (k.tasks next).pgdir;
      esp0 = if (k.tasks next).pgdir == null then k.esp0 else (next + 4096) % 2 ^ 32;
    }

pub dispatch-switched :
    (k : Kernel) (next : ℕ) (rest : List ℕ)
    → next ≢ null
    → dispatch (next ∷ rest) k ≡ ret (switched k next rest)
unfolding dispatch process_activate
dispatch-switched k next rest ne = ground (arith, ne→== next null ne)

pub switched-IsValid :
    (k : Kernel) (next : ℕ) (rest : List ℕ)
    → IsParked k
    → k.ready_list ≡ next ∷ rest
    → next ≢ null
    → IsValid (switched k next rest)
switched-IsValid k next rest v e ne =
    let d : Distinct (next ∷ rest) = rw e at v.queue.distinct in
    let n : has null (next ∷ rest) ≡ false = rw e at v.queue.no_null in
    let l : (p : ℕ) → has p (next ∷ rest) ≡ is_status (k.tasks p).status ready =
      λ p. rw e at (v.queue.listed p) in
    record {
      queue = record {
        distinct = d.1;
        listed = λ p. ground (arith, l p, d.0);
        no_null = ground arith;
        idle_alive = ground (arith, v.queue.idle_alive);
        idle_null = v.queue.idle_null;
      };
      one_running = λ p. ground (arith, v.no_running p);
      current_null = ne;
    }
