-- ===== src/Thread.antt =====
-- thread.h, the scheduler of thread.c, process_activate of process.c with what it writes, and the
-- timer's handler of timer.c. A thread is named by the address of its PCB, which its two list tags
-- stand for; the two lists are the sequences that the links of list.c hold (KernelList). Every
-- routine here runs with interrupts off. The state that `schedule` returns is the one in which the
-- next thread goes on; intr_set_status(old_status) of the thread that left runs when it is chosen
-- again, and restores that thread's own flag.
pub mod Pcb
pub mod Invariant
pub mod Schedule
pub mod Blocking
pub mod Turns
mod Tests
use ukernel.Prelude.{
  ℕ, ◌+◌, ◌-◌, ◌%◌, ◌^◌, Bool, true, false, not, ◌||◌, List, [], ◌∷◌, ◌++◌, ◌==◌, if◌then◌else◌,
  update, has, Outcome, ret, panic, ◌>>=◌, ◌>>◌, assert,
}
use ukernel.Thread.Pcb.{Status, running, ready, blocked, waiting, hanging, is_status, Task}

pub record Kernel : Type 0 where
  pub tasks : ℕ → Task
  pub ready_list : List ℕ
  pub all_list : List ℕ
  pub current : ℕ
  pub idle_thread : ℕ
  -- the page directory in use (0 is the kernel's own) and tss.esp0
  pub pgdir : ℕ
  pub esp0 : ℕ
  pub ticks : ℕ
  pub intr_on : Bool

abbrev pub null : ℕ
null = 0

abbrev pub set_task : Kernel → ℕ → Task → Kernel
set_task k p t = record k { tasks = update k.tasks p t }

abbrev pub set_status : Kernel → ℕ → Status → Kernel
set_status k p s = set_task k p (record (k.tasks p) { status = s })

-- the test that the ASSERTs of thread_block and thread_unblock make
abbrev pub may_wait : Status → Bool
may_wait s = is_status s blocked || (is_status s waiting || is_status s hanging)

unfoldable pub thread_unblock : ℕ → Kernel → Outcome Kernel
thread_unblock p k = do
  assert (may_wait (k.tasks p).status)
  if is_status (k.tasks p).status ready then ret k else do
    assert (not (has p k.ready_list))
    ret (set_status (record k { ready_list = p ∷ k.ready_list }) p ready)

-- The first part of schedule: a thread whose time is up goes to the end of the queue.
unfoldable pub requeue : Kernel → Outcome Kernel
requeue k =
    let cur = k.current in
    let task = k.tasks cur in
    if is_status task.status running
    then (do
      assert (not (has cur k.ready_list))
      ret (
          set_task (record k { ready_list = k.ready_list ++ cur ∷ [] }) cur
            (record task { ticks = task.priority; status = ready })))
    else ret k

abbrev pub is_empty : List ℕ → Bool
is_empty [] = true
is_empty (x ∷ xs) = false

-- page_dir_activate and update_tss_esp: a kernel thread has pgdir NULL, and leaves esp0 alone.
unfoldable pub process_activate : ℕ → Kernel → Outcome Kernel
process_activate p k = do
  assert (not (p == null))
  let dir = (k.tasks p).pgdir
  ret (record k { pgdir = dir; esp0 = if dir == null then k.esp0 else (p + 4096) % 2 ^ 32 })

-- the last part of schedule, up to the thread that switch_to leaves on the processor
unfoldable pub dispatch : List ℕ → Kernel → Outcome Kernel
dispatch [] k = panic
dispatch (next ∷ rest) k = do
  k' ← process_activate next (set_status (record k { ready_list = rest }) next running)
  ret (record k' { current = next })

unfoldable pub schedule : Kernel → Outcome Kernel
schedule k = do
  assert (not k.intr_on)
  k₁ ← requeue k
  k₂ ← if is_empty k₁.ready_list then thread_unblock k₁.idle_thread k₁ else ret k₁
  dispatch k₂.ready_list k₂

unfoldable pub thread_block : Status → Kernel → Outcome Kernel
thread_block stat k = do
  assert (may_wait stat)
  schedule (set_status (record k { intr_on = false }) k.current stat)

unfoldable pub thread_yield : Kernel → Outcome Kernel
thread_yield k = do
  assert (not (has k.current k.ready_list))
  schedule (
      set_status (record k { intr_on = false; ready_list = k.ready_list ++ k.current ∷ [] })
        k.current ready)

-- The tail of thread_start: a thread made ready by init_thread joins both queues.
unfoldable pub enlist : ℕ → Kernel → Outcome Kernel
enlist p k = do
  assert (not (has p k.ready_list))
  assert (not (has p k.all_list))
  ret (record k { ready_list = k.ready_list ++ p ∷ []; all_list = k.all_list ++ p ∷ [] })

-- intr_timer_handler. The counters wrap as uint32_t; `ticks` of a task is a uint8_t, not 0 when it
-- is decremented.
unfoldable pub intr_timer_handler : Kernel → Outcome Kernel
intr_timer_handler k = do
  let cur = k.tasks k.current
  assert (cur.stack_magic == 0x19970630)
  let cur' = record cur { elapsed_ticks = (cur.elapsed_ticks + 1) % 2 ^ 32 }
  let k' = record (set_task k k.current cur') { ticks = (k.ticks + 1) % 2 ^ 32 }
  if cur'.ticks == 0
      then schedule k'
      else ret (set_task k' k.current (record cur' { ticks = cur'.ticks - 1 }))
