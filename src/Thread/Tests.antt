-- ===== src/Thread/Tests.antt =====
-- A kernel with four threads, and the theorems at it.
use ukernel.Prelude.{ℕ, ◌≡◌, ◌≢◌, refl, false, none, [], ◌∷◌, arith, ◌==◌, if◌then◌else◌, ret}
use ukernel.Thread.Pcb.{Status, running, ready, blocked, waiting, died, Task, init_thread}
use ukernel.Thread.{Kernel, schedule, thread_block, intr_timer_handler}
use ukernel.Thread.Invariant.{IsValid}
use ukernel.Thread.Schedule.{Scheduled, schedule-Scheduled}
use ukernel.Thread.Blocking.{thread_block_lem, IsLeaving-of_valid}
use ukernel.Thread.Turns.{rounds, schedule_fair, Ticked, intr_timer_handler-Ticked}

-- a PCB of priority 3 with two ticks left
abbrev task : Status → Task
task s = record {
  self_kstack = 0;
  pid = 1;
  status = s;
  name = [];
  priority = 3;
  ticks = 2;
  elapsed_ticks = 0;
  pgdir = 0;
  fd_table = [];
  cwd_inode_nr = 0;
  parent_pid = none;
  exit_status = 0;
  stack_magic = 0x19970630;
}

-- Thread 10 runs, 30 and 40 are ready, 20 is the idle thread and 50 waits.
abbrev status_at : ℕ → Status
status_at p =
    if p == 10
    then running
    else if p == 20
    then blocked
    else if p == 30
    then ready
    else if p == 40
    then ready
    else if p == 50
    then waiting
    else died

abbrev four : Kernel
four = record {
  tasks = λ p. task (status_at p);
  ready_list = 30 ∷ 40 ∷ [];
  all_list = 10 ∷ 20 ∷ 30 ∷ 40 ∷ 50 ∷ [];
  current = 10;
  idle_thread = 20;
  pgdir = 0;
  esp0 = 0;
  ticks = 0;
  intr_on = false;
}

four-IsValid : IsValid four
four-IsValid = record {
  queue = record {
    distinct = (refl, (refl, tt));
    listed = λ p. ground arith;
    no_null = refl;
    idle_alive = refl;
    idle_null = omega arith;
  };
  one_running = λ p. ground arith;
  current_null = omega arith;
}

schedule-Scheduled_example : (k' : Kernel) × (schedule four ≡ ret k') × Scheduled four k'
schedule-Scheduled_example = schedule-Scheduled four (IsLeaving-of_valid four four-IsValid) refl

thread_block_lem_example :
    (k' : Kernel) × (thread_block waiting four ≡ ret k')
    × IsValid k'
    × (k'.current ∷ k'.ready_list ≡ 30 ∷ 40 ∷ [])
    × (10 ≢ k'.current → (k'.tasks 10).status ≡ waiting)
thread_block_lem_example = thread_block_lem four waiting four-IsValid refl

-- the PCB that init_thread makes at 60
abbrev made : Task
made = task ready

schedule_fair_example :
    (k' : Kernel) × (rounds schedule 2 four ≡ ret k') × IsValid k' × (k'.current ≡ 40)
schedule_fair_example = schedule_fair 1 four 40 four-IsValid refl refl

intr_timer_handler-Ticked_example :
    (k' : Kernel) × (intr_timer_handler four ≡ ret k') × Ticked four k'
intr_timer_handler-Ticked_example = intr_timer_handler-Ticked four four-IsValid refl refl

init_thread_runs : (init_thread 0xc0100000 0xc009e000 7 [] 300).ticks ≡ 44
unfolding init_thread
init_thread_runs = refl
