-- ===== src/Pipe/Tests.antt =====
-- Pipes, and the theorems at them.
use ukernel.Prelude.{ℕ, ◌-◌, ◌≡◌, refl, [], ◌∷◌, arith, ret}
use ukernel.Ioqueue.{Ioqueue, ioq_length}
use ukernel.Ioqueue.Ring.{IsRing, contents, bytes_from}
use ukernel.Pipe.{finished, stopped, pipe_read, pipe_write}
use ukernel.Pipe.Loops.{pipe_write_sleeps, pipe_read-pipe_write}

-- a pipe in which `held` zero bytes wait
abbrev pipe : ℕ → Ioqueue
pipe held = record {
  lock_holder = 0;
  producer = 0;
  consumer = 0;
  buf = λ i. 0;
  head = held;
  tail = 0;
}

three-IsRing : IsRing (pipe 3)
three-IsRing = omega arith

length-pipe : ioq_length (pipe 3) ≡ 3
unfolding ioq_length
length-pipe = refl

empty-IsRing : IsRing (pipe 0)
empty-IsRing = omega arith

contents-empty : contents (pipe 0) ≡ []
unfolding ioq_length bytes_from
contents-empty = refl

pipe_read-pipe_write_example :
    (q₁ : Ioqueue) × (q₂ : Ioqueue) × (pipe_write 5 (1 ∷ 2 ∷ []) 2 (pipe 0) ≡ ret (finished 2 q₁))
    × (pipe_read 6 2 q₁ ≡ ret (finished (1 ∷ 2 ∷ []) q₂))
pipe_read-pipe_write_example =
    pipe_read-pipe_write 5 6 2 (1 ∷ 2 ∷ []) (pipe 0) empty-IsRing contents-empty (omega arith)
      (omega arith)

-- 4092 bytes wait: three fit, the fourth does not
nearly_full-IsRing : IsRing (pipe 4092)
nearly_full-IsRing = omega arith

length-nearly_full : ioq_length (pipe 4092) ≡ 4092
unfolding ioq_length
length-nearly_full = refl

pipe_write_sleeps_example :
    (q' : Ioqueue) × (pipe_write 5 (1 ∷ 2 ∷ 3 ∷ 4 ∷ []) 4 (pipe 4092)
      ≡ ret (stopped (4095 - ioq_length (pipe 4092)) q'))
    × (q'.producer ≡ 5)
    × (ioq_length q' ≡ 4095)
pipe_write_sleeps_example =
    pipe_write_sleeps 5 4 (1 ∷ 2 ∷ 3 ∷ 4 ∷ []) (pipe 4092) nearly_full-IsRing (omega arith) refl
      refl (omega (arith, length-nearly_full))
