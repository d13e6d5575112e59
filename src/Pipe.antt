-- ===== src/Pipe.antt =====
-- pipe_read and pipe_write of pipe.c, over the ring that fd_inode of the pipe's file points to,
-- as ioqueue.h declares it. Both run with interrupts off, as all system calls do; a loop ends where its thread
-- goes to sleep, with the bytes moved so far.
pub mod Loops
mod Tests
use ukernel.Prelude.{
  ℕ, zero, suc, ◌+◌, ◌-◌, false, List, [], ◌∷◌, ◌++◌, ltb, if◌then◌else◌, Outcome, ret, ◌>>=◌, take,
}
use ukernel.Ioqueue.{
  Ioqueue, bufsize, Attempt, returned, at_lock, sleeping, ioq_getchar, ioq_putchar, ioq_length,
}

-- how a loop ends: the bytes moved and the ring left
pub data Progress (A : Type 0) : Type 0 where
  finished stopped : A → Ioqueue → Progress A

-- while (bytes_read < size): `got` is what `buf` holds of this call, first byte first
unfoldable pub read_loop : (me size : ℕ) → (got : List ℕ) → Ioqueue → Outcome (Progress (List ℕ))
read_loop me zero got q = ret (finished got q)
read_loop me (suc size) got q = ioq_getchar false me q >>= λ a. elim a [
  | returned byte woken q' ↦ read_loop me size (got ++ byte ∷ []) q'
  | at_lock ↦ ret (stopped got q)
  | sleeping q' ↦ ret (stopped got q')
]

unfoldable pub pipe_read : (me count : ℕ) → Ioqueue → Outcome (Progress (List ℕ))
unfolding read_loop
pipe_read me count q =
    let size = if ltb count (ioq_length q) then count else ioq_length q in read_loop me size [] q

-- while (bytes_write < size), over the bytes of `buf` that are left to write
unfoldable pub write_loop : ℕ → List ℕ → (bytes_write : ℕ) → Ioqueue → Outcome (Progress ℕ)
write_loop me [] bytes_write q = ret (finished bytes_write q)
write_loop me (byte ∷ bytes) bytes_write q = ioq_putchar false me byte q >>= λ a. elim a [
  | returned done woken q' ↦ write_loop me bytes (bytes_write + 1) q'
  | at_lock ↦ ret (stopped bytes_write q)
  | sleeping q' ↦ ret (stopped bytes_write q')
]

-- `buf` holds at least `count` bytes
unfoldable pub pipe_write : (me : ℕ) (buf : List ℕ) (count : ℕ) → Ioqueue → Outcome (Progress ℕ)
unfolding write_loop
pipe_write me buf count q =
    let ioq_left = bufsize - ioq_length q in
    let size = if ltb count ioq_left then count else ioq_left in write_loop me (take size buf) 0 q
