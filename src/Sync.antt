-- ===== src/Sync.antt =====
-- sync.h and sync.c: semaphores and recursive locks, with the threads that call them interleaved.
-- sema_down between two blocks, and sema_up, run with interrupts off and are one step each; the
-- statements of lock_acquire and lock_release outside them run with interrupts on, and a step ends
-- wherever another thread may see the difference. A thread is named by its PCB's address, 0 is
-- NULL. What thread_block and thread_unblock do to the queues is in Thread, and so is
-- the ASSERT that a woken thread is not in the ready list; here a thread that
-- sleeps makes no step, and the one that sema_up wakes goes on at the test of sema_down's loop.
pub mod Owner
pub mod Steps
pub mod Calls
pub mod Exclusion
mod Tests
use ukernel.Prelude.{
  ℕ, ◌+◌, ◌-◌, ◌%◌, ◌^◌, ◌<◌, ◌≡◌, Bool, true, false, not, Option, none, some, List, [], ◌∷◌, ◌++◌,
  ltb, ◌==◌, if◌then◌else◌, update, has, Outcome, ret, panic, ◌>>=◌, ◌>>◌, assert,
}

-- struct semaphore
pub record Semaphore : Type 0 where
  pub value : ℕ
  pub waiters : List ℕ

-- struct lock
pub record Lock : Type 0 where
  pub holder : ℕ
  pub semaphore : Semaphore
  pub holder_repeat_nr : ℕ

unfoldable pub sema_init : ℕ → Semaphore
sema_init value = record { value = value % 256; waiters = [] }

unfoldable pub lock_init : Lock
unfolding sema_init
lock_init = record { holder = 0; semaphore = sema_init 1; holder_repeat_nr = 0 }

-- Where a thread stands with respect to one lock: in no call of lock_acquire or lock_release
-- (`idle`, whether it holds the lock or not), before the test of sema_down's loop, in its
-- thread_block, after sema_down, after `holder = running_thread()`, after `holder = NULL`, and
-- before sema_up.
pub data Phase : Type 0 where
  idle testing asleep taken named dropping raising : Phase

-- One pass of sema_down: the thread joins the waiters and sleeps, or takes the value.
unfoldable pub sema_down : ℕ → Semaphore → Outcome (Phase × Semaphore)
sema_down me s =
    if s.value == 0
    then (do
      assert (not (has me s.waiters))
      ret (asleep, record s { waiters = s.waiters ++ me ∷ [] }))
    else (do
      let value' = (s.value + 255) % 256
      assert (value' == 0)
      ret (taken, record s { value = value' }))

-- the waiter that sema_up wakes, and the others
abbrev pub list_pop : List ℕ → Option ℕ × List ℕ
list_pop [] = (none, [])
list_pop (x ∷ xs) = (some x, xs)

unfoldable pub sema_up : Semaphore → Outcome (Option ℕ × Semaphore)
sema_up s = do
  assert (s.value == 0)
  let (woken, rest) = list_pop s.waiters
  let value' = (s.value + 1) % 256
  assert (value' == 1)
  ret (woken, record s { value = value'; waiters = rest })

-- what a thread that is in no call does next
pub data Call : Type 0 where
  acquire release : Call

-- lock_acquire up to its sema_down
unfoldable pub lock_acquire : ℕ → Lock → Phase × Lock
lock_acquire me l =
    if not (l.holder == me)
    then (testing, l)
    else (idle, record l { holder_repeat_nr = (l.holder_repeat_nr + 1) % 2 ^ 32 })

-- lock_release up to `holder = NULL`; only the holder writes what is read here
unfoldable pub lock_release : ℕ → Lock → Outcome (Phase × Lock)
lock_release me l = do
  assert (l.holder == me)
  if ltb 1 l.holder_repeat_nr
      then ret (idle, record l { holder_repeat_nr = (l.holder_repeat_nr + (2 ^ 32 - 1)) % 2 ^ 32 })
      else do assert (l.holder_repeat_nr == 1); ret (dropping, record l { holder = 0 })

pub record Moved : Type 0 where
  pub phase : Phase
  pub lock : Lock
  pub woken : Option ℕ

abbrev pub moved : Phase → Lock → Outcome Moved
moved p l = ret (record { phase = p; lock = l; woken = none })

-- the next step of thread `me`, which stands at the phase
unfoldable pub advance : Call → ℕ → Phase → Lock → Outcome Moved
unfolding lock_acquire lock_release
advance acquire me idle l = let (p, l') = lock_acquire me l in moved p l'
advance release me idle l = lock_release me l >>= λ (p, l'). moved p l'
advance call me testing l =
    sema_down me l.semaphore >>= λ (p, s). moved p (record l { semaphore = s })
advance call me asleep l = moved asleep l
advance call me taken l = moved named (record l { holder = me })
advance call me named l = do
  assert (l.holder_repeat_nr == 0)
  moved idle (record l { holder_repeat_nr = 1 })
advance call me dropping l = moved raising (record l { holder_repeat_nr = 0 })
advance call me raising l = sema_up l.semaphore >>= λ (w, s).
    ret (record { phase = idle; lock = record l { semaphore = s }; woken = w })

-- the lock and all threads
pub record System : Type 0 where
  pub lock : Lock
  pub phase : ℕ → Phase

abbrev pub wake : Option ℕ → (ℕ → Phase) → ℕ → Phase
wake none phases = phases
wake (some w) phases = update phases w testing

abbrev pub is_asleep : Phase → Bool
is_asleep asleep = true
is_asleep p = false

-- the first ASSERT of thread_unblock, on the status of the thread that sema_up wakes
abbrev pub may_unblock : Option ℕ → (ℕ → Phase) → Bool
may_unblock none phases = true
may_unblock (some w) phases = is_asleep (phases w)

unfoldable pub step : Call → ℕ → System → Outcome System
step call me s = do
  m ← advance call me (s.phase me) s.lock
  assert (may_unblock m.woken s.phase)
  ret (record { lock = m.lock; phase = wake m.woken (update s.phase me m.phase) })
