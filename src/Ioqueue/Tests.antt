-- ===== src/Ioqueue/Tests.antt =====
-- A ring near the end of its buffer, and the theorems at it.
use ukernel.Prelude.{ℕ, ◌<◌, ◌≡◌, refl, false, [], ◌∷◌, ◌++◌, arith, ◌==◌, if◌then◌else◌, ret}
use ukernel.Ioqueue.{Ioqueue, ioq_length, returned, sleeping, ioq_getchar, ioq_putchar}
use ukernel.Ioqueue.Ring.{IsRing, contents, bytes_from}
use ukernel.Ioqueue.Transfer.{ioq_putchar_lem, ioq_getchar_lem}

-- two bytes, 7 at the last place and 8 at the first; thread 5 waits for more
abbrev wrapped : Ioqueue
wrapped = record {
  lock_holder = 5;
  producer = 0;
  consumer = 5;
  buf = λ i. if i == 4095 then 7 else 8;
  head = 1;
  tail = 4095;
}

wrapped-IsRing : IsRing wrapped
wrapped-IsRing = omega arith

contents-wrapped : contents wrapped ≡ 7 ∷ 8 ∷ []
unfolding bytes_from ioq_length
contents-wrapped = refl

length-wrapped : ioq_length wrapped ≡ 2
unfolding ioq_length
length-wrapped = refl

ioq_putchar_lem_example :
    (ioq_length wrapped < 4095
      → (q' : Ioqueue) × (ioq_putchar false 9 3 wrapped ≡ ret (returned tt 5 q'))
        × IsRing q'
        × (contents q' ≡ contents wrapped ++ 3 ∷ [])
        × (q'.consumer ≡ 0)
        × (q'.producer ≡ 0)
        × (q'.lock_holder ≡ 5))
    × (ioq_length wrapped ≡ 4095
        → ◌≡◌ {A = ℕ} 5 0
        → ◌≡◌ {A = ℕ} 0 0
        → ioq_putchar false 9 3 wrapped
          ≡ ret (sleeping (record wrapped { lock_holder = 9; producer = 9 })))
ioq_putchar_lem_example = ioq_putchar_lem wrapped wrapped-IsRing 9 3

ioq_getchar_lem_example :
    (0 < ioq_length wrapped
      → (byte : ℕ) × (q' : Ioqueue) × (ioq_getchar false 9 wrapped ≡ ret (returned byte 0 q'))
        × IsRing q'
        × (contents wrapped ≡ byte ∷ contents q')
        × (q'.producer ≡ 0)
        × (q'.consumer ≡ 5)
        × (q'.lock_holder ≡ 5))
    × (ioq_length wrapped ≡ 0
        → ◌≡◌ {A = ℕ} 5 0
        → ◌≡◌ {A = ℕ} 5 0
        → ioq_getchar false 9 wrapped
          ≡ ret (sleeping (record wrapped { lock_holder = 9; consumer = 9 })))
ioq_getchar_lem_example = ioq_getchar_lem wrapped wrapped-IsRing 9
