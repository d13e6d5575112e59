-- ===== src/Thread/Pcb.antt =====
-- enum task_status and struct task_struct of thread.h, and init_thread of thread.c. The list tags
-- are the PCB's address; the memory fields of a user process belong to the memory manager.
use ukernel.Prelude.{ℕ, ◌+◌, ◌%◌, ◌^◌, Bool, Option, none, some, List, [], ◌∷◌, ◌==◌, if◌then◌else◌}

pub data Status : Type 0 where
  running ready blocked waiting hanging died : Status

-- the enum's values
abbrev pub status_code : Status → ℕ
status_code running = 0
status_code ready = 1
status_code blocked = 2
status_code waiting = 3
status_code hanging = 4
status_code died = 5

abbrev pub is_status : Status → Status → Bool
is_status s t = status_code s == status_code t

-- A descriptor or a parent's pid of -1 is `none`.
pub record Task : Type 0 where
  pub self_kstack : ℕ
  pub pid : ℕ
  pub status : Status
  pub name : List ℕ
  pub priority : ℕ
  pub ticks : ℕ
  pub elapsed_ticks : ℕ
  pub pgdir : ℕ
  pub fd_table : List (Option ℕ)
  pub cwd_inode_nr : ℕ
  pub parent_pid : Option ℕ
  pub exit_status : ℕ
  pub stack_magic : ℕ

-- init_thread on the PCB at `p`, with the pid that allocate_pid gave; `prio` goes into two uint8_t.
unfoldable pub init_thread : (p main_thread pid : ℕ) → (name : List ℕ) → (prio : ℕ) → Task
init_thread p main_thread pid name prio = record {
  self_kstack = (p + 4096) % 2 ^ 32;
  pid = pid;
  status = if p == main_thread then running else ready;
  name = name;
  priority = prio % 256;
  ticks = prio % 256;
  elapsed_ticks = 0;
  pgdir = 0;
  fd_table = some 0 ∷ some 1 ∷ some 2 ∷ none ∷ none ∷ none ∷ none ∷ none ∷ [];
  cwd_inode_nr = 0;
  parent_pid = none;
  exit_status = 0;
  stack_magic = 0x19970630;
}
