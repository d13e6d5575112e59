-- ===== src/Ioqueue/Transfer.antt =====
-- ioq_putchar and ioq_getchar as the two ends of a queue of bytes.
use ukernel.Prelude.{
  ℕ, ◌+◌, ◌-◌, ◌<◌, ◌≡◌, refl, sym, ap, ◌∙◌, true, false, [], ◌∷◌, ◌++◌, arith, update, ret,
}
use ukernel.Ioqueue.{
  Ioqueue, next_pos, ioq_full, ioq_empty, ioq_length, returned, sleeping, ioq_getchar, ioq_putchar,
  ioqueue_init,
}
use ukernel.Ioqueue.Ring.{
  IsRing, contents, bytes_from, bytes_from-update, bytes_from-suc, ioq_length_bounds, head_at,
}

-- A fresh queue is a ring and holds nothing.
pub ioqueue_init-IsRing :
    (memory : ℕ → ℕ) → IsRing (ioqueue_init memory) × (contents (ioqueue_init memory) ≡ [])
unfolding ioqueue_init ioq_length bytes_from
ioqueue_init-IsRing memory = (record { head_in = omega arith; tail_in = omega arith }, refl)

module _ (q : Ioqueue) (v : IsRing q) (me : ℕ) where
  abbrev after_put : ℕ → Ioqueue
  after_put byte = record q { buf = update q.buf q.head byte; head = next_pos q.head; consumer = 0 }

  after_put-length :
      (byte : ℕ) → ioq_length q < 4095 → ioq_length (after_put byte) ≡ ioq_length q + 1
  unfolding ioq_length
  after_put-length byte room = let h = v.head_in in let t = v.tail_in in ground arith

  -- With fewer than 4095 bytes in the queue ioq_putchar returns: the byte is the last of the
  -- queue's, and a consumer that slept is the thread woken, and no longer the queue's consumer.
  -- With 4095 it leaves the queue's bytes and sleeps as its producer, if the lock is free and no
  -- producer waits.
  pub ioq_putchar_lem :
      (byte : ℕ)
      → (ioq_length q < 4095
          → (q' : Ioqueue) × (ioq_putchar false me byte q ≡ ret (returned tt q.consumer q'))
            × IsRing q'
            × (contents q' ≡ contents q ++ byte ∷ [])
            × (q'.consumer ≡ 0)
            × (q'.producer ≡ q.producer)
            × (q'.lock_holder ≡ q.lock_holder))
        × (ioq_length q ≡ 4095
            → q.lock_holder ≡ 0
            → q.producer ≡ 0
            → ioq_putchar false me byte q
              ≡ ret (sleeping (record q { lock_holder = me; producer = me })))
  unfolding ioq_putchar
  ioq_putchar_lem byte = (puts, sleeps)
    where
      not_full : ioq_length q < 4095 → ioq_full q ≡ false
      not_full room = ground (arith, (ioq_length_bounds q v).1.0)

      puts :
          ioq_length q < 4095
          → (q' : Ioqueue) × (ioq_putchar false me byte q ≡ ret (returned tt q.consumer q'))
            × IsRing q'
            × (contents q' ≡ contents q ++ byte ∷ [])
            × (q'.consumer ≡ 0)
            × (q'.producer ≡ q.producer)
            × (q'.lock_holder ≡ q.lock_holder)
      puts room = (
        after_put byte,
        rw (not_full room) refl,
        record { head_in = omega arith; tail_in = v.tail_in },
        ap (bytes_from (update q.buf q.head byte) q.tail)
              (after_put-length byte room ∙ (omega arith))
            ∙ bytes_from-update q.buf byte q.head (ioq_length q) q.tail v.tail_in (omega arith)
                (head_at q v),
        refl,
        refl,
        refl,
      )

      sleeps :
          ioq_length q ≡ 4095
          → q.lock_holder ≡ 0
          → q.producer ≡ 0
          → ioq_putchar false me byte q
            ≡ ret (sleeping (record q { lock_holder = me; producer = me }))
      sleeps full free none_waits =
          let f : ioq_full q ≡ true = (ioq_length_bounds q v).1.1 full in rw f (ground arith)

  abbrev after_get : Ioqueue
  after_get = record q { tail = next_pos q.tail; producer = 0 }

  after_get-length : 0 < ioq_length q → ioq_length after_get ≡ ioq_length q - 1
  unfolding ioq_length
  after_get-length some_left = let h = v.head_in in let t = v.tail_in in ground arith

  -- With bytes in the queue ioq_getchar returns the oldest and takes it out, and a producer that
  -- slept is the thread woken, and no longer the queue's producer. With none it sleeps as the
  -- queue's consumer, if the lock is free and no consumer waits.
  pub ioq_getchar_lem :
      (0 < ioq_length q
        → (byte : ℕ) × (q' : Ioqueue) × (ioq_getchar false me q ≡ ret (returned byte q.producer q'))
          × IsRing q'
          × (contents q ≡ byte ∷ contents q')
          × (q'.producer ≡ 0)
          × (q'.consumer ≡ q.consumer)
          × (q'.lock_holder ≡ q.lock_holder))
      × (ioq_length q ≡ 0
          → q.lock_holder ≡ 0
          → q.consumer ≡ 0
          → ioq_getchar false me q ≡ ret (sleeping (record q { lock_holder = me; consumer = me })))
  unfolding ioq_getchar
  ioq_getchar_lem = (gets, sleeps)
    where
      not_empty : 0 < ioq_length q → ioq_empty q ≡ false
      not_empty some_left = ground (arith, (ioq_length_bounds q v).2.0)

      gets :
          0 < ioq_length q
          → (byte : ℕ) × (q' : Ioqueue) × (ioq_getchar false me q
              ≡ ret (returned byte q.producer q'))
            × IsRing q'
            × (contents q ≡ byte ∷ contents q')
            × (q'.producer ≡ 0)
            × (q'.consumer ≡ q.consumer)
            × (q'.lock_holder ≡ q.lock_holder)
      gets some_left = (
        q.buf q.tail,
        after_get,
        rw (not_empty some_left) refl,
        record { head_in = v.head_in; tail_in = omega arith },
        bytes_from-suc q.buf q.tail (ioq_length q) (ground arith)
            ∙ ap (λ n. q.buf q.tail ∷ bytes_from q.buf (next_pos q.tail) n)
                (sym (after_get-length some_left)),
        refl,
        refl,
        refl,
      )

      sleeps :
          ioq_length q ≡ 0
          → q.lock_holder ≡ 0
          → q.consumer ≡ 0
          → ioq_getchar false me q ≡ ret (sleeping (record q { lock_holder = me; consumer = me }))
      sleeps none_left free none_waits =
          let f : ioq_empty q ≡ true = (ioq_length_bounds q v).2.1 none_left in rw f (ground arith)
