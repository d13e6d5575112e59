-- ===== src/Thread/Blocking.antt =====
-- thread_block, thread_unblock, thread_yield and enlist between valid states.
use ukernel.Prelude.{
  ℕ, ◌≡◌, ◌≢◌, refl, ◌∙◌, true, false, List, [], ◌∷◌, ◌++◌, arith, has, has-append,
  Distinct-append_one, ret, panic,
}
use ukernel.Thread.Pcb.{Status, running, ready, is_status, Task}
use ukernel.Thread.{
  Kernel, null, set_task, set_status, may_wait, thread_unblock, thread_block, thread_yield, enlist,
}
use ukernel.Thread.Invariant.{
  IsValid, IsLeaving, or_idle, woken, thread_unblock-woken, woken-IsQueue, waiting_status,
  status-running-ready,
}
use ukernel.Thread.Schedule.{schedule-Scheduled}

-- A valid state may be left.
pub IsLeaving-of_valid : (k : Kernel) → IsValid k → IsLeaving k
IsLeaving-of_valid k v = record {
  queue = v.queue;
  only_current = λ p h. ground (arith, v.one_running p);
  current_null = v.current_null;
}

pub current_running : (k : Kernel) → IsValid k → is_status (k.tasks k.current).status running ≡ true
current_running k v = ground (arith, v.one_running k.current)

pub current_not_listed : (k : Kernel) → IsValid k → has k.current k.ready_list ≡ false
current_not_listed k v = ground (
  arith,
  v.queue.listed k.current,
  status-running-ready (k.tasks k.current).status (current_running k v),
)

or_idle-append : (k : Kernel) (xs : List ℕ) (x : ℕ) → or_idle k (xs ++ x ∷ []) ≡ xs ++ x ∷ []
or_idle-append k [] x = refl
or_idle-append k (y ∷ ys) x = refl

-- the state that thread_block hands to schedule
abbrev stopping : Kernel → Status → Kernel
stopping k s = set_status (record k { intr_on = false }) k.current s

stopping-IsLeaving :
    (k : Kernel) (s : Status) → IsValid k → may_wait s ≡ true → IsLeaving (stopping k s)
stopping-IsLeaving k s v w =
    let (not_ready, not_running, alive) = waiting_status s w in
    record {
      queue = record {
        distinct = v.queue.distinct;
        listed = λ p. ground (arith, v.queue.listed p, current_not_listed k v);
        no_null = v.queue.no_null;
        idle_alive = ground (arith, v.queue.idle_alive);
        idle_null = v.queue.idle_null;
      };
      only_current = λ p h. ground (arith, v.one_running p);
      current_null = v.current_null;
    }

-- thread_block from a valid state, with a status that a thread may wait in, returns a valid state:
-- the first ready thread runs, or the idle thread if none is ready, and the thread that left has
-- the status, unless it is the idle thread and was woken at once.
pub thread_block_lem :
    (k : Kernel) (s : Status)
    → IsValid k
    → may_wait s ≡ true
    → (k' : Kernel) × (thread_block s k ≡ ret k')
      × IsValid k'
      × (k'.current ∷ k'.ready_list ≡ or_idle k k.ready_list)
      × (k.current ≢ k'.current → (k'.tasks k.current).status ≡ s)
unfolding thread_block
thread_block_lem k s v w =
    let (k', e, r) = schedule-Scheduled (stopping k s) (stopping-IsLeaving k s v w) refl in
    let (not_ready, not_running, alive) = waiting_status s w in
    (k', rw w e, r.valid, ground (arith, r.order), λ ne. ground (arith, r.stopped ne))

-- thread_yield from a valid state goes to the end of the queue and runs the first of it.
thread_yield_lem :
    (k : Kernel)
    → IsValid k
    → (k' : Kernel) × (thread_yield k ≡ ret k')
      × IsValid k'
      × (k'.current ∷ k'.ready_list ≡ k.ready_list ++ k.current ∷ [])
unfolding thread_yield
thread_yield_lem k v =
    let out = current_not_listed k v in
    let (k', e, r) = schedule-Scheduled yielding (yielding-IsLeaving out) refl in
    (k', rw out e, r.valid, r.order ∙ ground (arith, or_idle-append k k.ready_list k.current))
  where
    yielding : Kernel
    yielding =
        set_status (record k { intr_on = false; ready_list = k.ready_list ++ k.current ∷ [] })
          k.current ready

    yielding-IsLeaving : has k.current k.ready_list ≡ false → IsLeaving yielding
    yielding-IsLeaving out = record {
      queue = record {
        distinct = Distinct-append_one k.ready_list k.current v.queue.distinct out;
        listed = λ p. ground (arith, v.queue.listed p, has-append p k.ready_list (k.current ∷ []));
        no_null =
            ground (
              arith,
              v.current_null,
              v.queue.no_null,
              has-append null k.ready_list (k.current ∷ []),
            );
        idle_alive = ground (arith, v.queue.idle_alive);
        idle_null = v.queue.idle_null;
      };
      only_current = λ p h. ground (arith, v.one_running p);
      current_null = v.current_null;
    }

-- thread_unblock of a thread that waits keeps the state valid: the thread is ready and stands
-- first in the queue, the current thread goes on, and no other thread has changed.
thread_unblock_lem :
    (k : Kernel) (p : ℕ)
    → IsValid k
    → p ≢ null
    → may_wait (k.tasks p).status ≡ true
    → (k' : Kernel) × (thread_unblock p k ≡ ret k')
      × IsValid k'
      × (k'.current ≡ k.current)
      × (k'.ready_list ≡ p ∷ k.ready_list)
      × ((k'.tasks p).status ≡ ready)
      × ((q : ℕ) → q ≢ p → k'.tasks q ≡ k.tasks q)
thread_unblock_lem k p v ne w =
    let (not_ready, not_running, alive) = waiting_status (k.tasks p).status w in
    (
      woken k p,
      thread_unblock-woken k p v.queue w,
      record {
        queue = woken-IsQueue k p v.queue ne w;
        one_running = λ q. ground (arith, v.one_running q);
        current_null = v.current_null;
      },
      refl,
      refl,
      ground arith,
      λ q other. ground arith,
    )

-- thread_unblock stops the machine at a thread that does not wait: one that is running, ready or
-- dead.
pub thread_unblock-panic :
    (k : Kernel) (p : ℕ) → may_wait (k.tasks p).status ≡ false → thread_unblock p k ≡ panic
unfolding thread_unblock
thread_unblock-panic k p h = rw h refl

-- A new thread, made ready and in neither list, goes to the end of both, and the state stays valid.
pub enlist_lem :
    (k : Kernel) (p : ℕ) (t : Task)
    → IsValid k
    → p ≢ null
    → p ≢ k.current
    → p ≢ k.idle_thread
    → has p k.ready_list ≡ false
    → has p k.all_list ≡ false
    → t.status ≡ ready
    → (k' : Kernel) × (enlist p (set_task k p t) ≡ ret k')
      × IsValid k'
      × (k'.ready_list ≡ k.ready_list ++ p ∷ [])
      × (k'.all_list ≡ k.all_list ++ p ∷ [])
unfolding enlist
enlist_lem k p t v ne nc ni out outall st = (
  record (set_task k p t) { ready_list = k.ready_list ++ p ∷ []; all_list = k.all_list ++ p ∷ [] },
  ground arith,
  record {
    queue = record {
      distinct = Distinct-append_one k.ready_list p v.queue.distinct out;
      listed = λ q. ground (arith, v.queue.listed q, has-append q k.ready_list (p ∷ []));
      no_null = ground (arith, v.queue.no_null, has-append null k.ready_list (p ∷ []));
      idle_alive = ground (arith, v.queue.idle_alive);
      idle_null = v.queue.idle_null;
    };
    one_running = λ q. ground (arith, v.one_running q);
    current_null = v.current_null;
  },
  refl,
  refl,
)
