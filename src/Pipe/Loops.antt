-- ===== src/Pipe/Loops.antt =====
-- What a read or a write of a pipe moves, and when a write sleeps.
use mathlib.Core.List.{append_assoc, append-nil}
use ukernel.Prelude.{
  ℕ, zero, suc, ◌+◌, ◌-◌, ◌≤◌, ◌≡◌, refl, sym, ap, ◌∙◌, true, List, [], ◌∷◌, ◌++◌, arith, ltb,
  if◌then◌else◌, length, take, length-append, length-take_le, ret,
}
use ukernel.Ioqueue.{Ioqueue, ioq_length}
use ukernel.Ioqueue.Ring.{IsRing, contents, length-contents, ioq_length_bounds}
use ukernel.Ioqueue.Transfer.{ioq_putchar_lem, ioq_getchar_lem}
use ukernel.Pipe.{finished, stopped, read_loop, pipe_read, write_loop, pipe_write}

-- the ring holds what it held and the bytes, and nobody holds its lock who did not
abbrev pub Extended : Ioqueue → List ℕ → Ioqueue → Type 0
Extended q bytes q' = IsRing q' × (contents q' ≡ contents q ++ bytes)

grown :
    (q q' : Ioqueue) (byte : ℕ)
    → contents q' ≡ contents q ++ byte ∷ []
    → ioq_length q' ≡ ioq_length q + 1
grown q q' byte e = omega (
  arith,
  length-contents q,
  length-contents q',
  ap length e,
  length-append (contents q) (byte ∷ []),
)

shrunk :
    (q q' : Ioqueue) (byte : ℕ) → contents q ≡ byte ∷ contents q' → ioq_length q ≡ ioq_length q' + 1
shrunk q q' byte e = omega (arith, length-contents q, length-contents q', ap length e)

write_loop_fits :
    (me n : ℕ) (bytes : List ℕ) (q : Ioqueue)
    → IsRing q
    → ioq_length q + length bytes ≤ 4095
    → (q' : Ioqueue) × (write_loop me bytes n q ≡ ret (finished (n + length bytes) q'))
      × Extended q bytes q'
unfolding write_loop
write_loop_fits me n [] q v room =
    (q, ap (λ k. ret (finished k q)) (omega arith), (v, sym (append-nil (contents q))))
write_loop_fits me n (byte ∷ bytes) q v room =
    let (q₁, e₁, v₁, c₁, _, _, _) = (ioq_putchar_lem q v me byte).0 (omega arith) in
    let (q₂, e₂, (v₂, c₂)) =
      write_loop_fits me (n + 1) bytes q₁ v₁ (omega (arith, grown q q₁ byte c₁)) in
    (
      q₂,
      rw e₁ (e₂ ∙ ap (λ k. ret (finished k q₂)) (omega arith)),
      (v₂, c₂ ∙ rw c₁ (append_assoc (contents q) (byte ∷ []) bytes)),
    )

-- One byte more than fits: all but the last are written, and the thread sleeps as the producer.
write_loop_sleeps :
    (me n : ℕ) (bytes : List ℕ) (q : Ioqueue)
    → IsRing q
    → q.lock_holder ≡ 0
    → q.producer ≡ 0
    → ioq_length q + length bytes ≡ 4096
    → (q' : Ioqueue) × (write_loop me bytes n q ≡ ret (stopped (n + length bytes - 1) q'))
      × (q'.producer ≡ me)
      × (ioq_length q' ≡ 4095)
unfolding write_loop
write_loop_sleeps me n [] q v free none_waits over =
    absurd (omega (arith, (ioq_length_bounds q v).0))
write_loop_sleeps me n (byte ∷ []) q v free none_waits over =
    let e = (ioq_putchar_lem q v me byte).1 (omega arith) free none_waits in
    (
      record q { lock_holder = me; producer = me },
      rw e (ap (λ k. ret (stopped k (record q { lock_holder = me; producer = me }))) (omega arith)),
      refl,
      unfold ioq_length in omega arith,
    )
write_loop_sleeps me n (byte ∷ next ∷ bytes) q v free none_waits over =
    let (q₁, e₁, v₁, c₁, _, p₁, l₁) = (ioq_putchar_lem q v me byte).0 (omega arith) in
    let (q₂, e₂, p₂, full) =
      write_loop_sleeps me (n + 1) (next ∷ bytes) q₁ v₁ (l₁ ∙ free) (p₁ ∙ none_waits)
        (omega (arith, grown q q₁ byte c₁)) in
    (q₂, rw e₁ (e₂ ∙ ap (λ k. ret (stopped k q₂)) (omega arith)), p₂, full)

module _ (me count : ℕ) (buf : List ℕ) (q : Ioqueue) (v : IsRing q)
    (whole : count ≤ length buf) where
  -- A write that leaves the pipe with 4095 bytes at most writes all `count` bytes of the buffer,
  -- behind those that the pipe held.
  pipe_write_fits :
      ioq_length q + count ≤ 4095
      → (q' : Ioqueue) × (pipe_write me buf count q ≡ ret (finished count q'))
        × IsRing q'
        × (contents q' ≡ contents q ++ take count buf)
  unfolding pipe_write
  pipe_write_fits room =
      let len = length-take_le count buf whole in
      let (q', e, (v', c)) = write_loop_fits me 0 (take count buf) q v (omega arith) in
      let small : ltb count (4096 - ioq_length q) ≡ true = ground arith in
      (q', rw small (e ∙ ap (λ k. ret (finished k q')) (omega arith)), v', c)

  -- A write of as many bytes as bufsize less what the pipe holds, or of more, goes to sleep with
  -- the pipe full, although the size was cut so that it should not: the ring holds one byte less
  -- than bufsize.
  pub pipe_write_sleeps :
      q.lock_holder ≡ 0
      → q.producer ≡ 0
      → 4096 ≤ ioq_length q + count
      → (q' : Ioqueue) × (pipe_write me buf count q ≡ ret (stopped (4095 - ioq_length q) q'))
        × (q'.producer ≡ me)
        × (ioq_length q' ≡ 4095)
  unfolding pipe_write
  pipe_write_sleeps free none_waits over =
      let most = (ioq_length_bounds q v).0 in
      let size : (if ltb count (4096 - ioq_length q) then count else 4096 - ioq_length q)
          ≡ 4096 - ioq_length q =
        ground arith in
      let len = length-take_le (4096 - ioq_length q) buf (omega arith) in
      let (q', e, p, full) =
        write_loop_sleeps me 0 (take (4096 - ioq_length q) buf) q v free none_waits (omega arith) in
      (
        q',
        ap (λ n. write_loop me (take n buf) 0 q) size
            ∙ e
            ∙ ap (λ k. ret (stopped k q')) (omega arith),
        p,
        full,
      )

read_loop_all :
    (me size : ℕ) (got : List ℕ) (q : Ioqueue)
    → IsRing q
    → size ≤ ioq_length q
    → (bytes : List ℕ) × (q' : Ioqueue) × (read_loop me size got q
        ≡ ret (finished (got ++ bytes) q'))
      × IsRing q'
      × (contents q ≡ bytes ++ contents q')
      × (length bytes ≡ size)
unfolding read_loop
read_loop_all me zero got q v room =
    ([], q, ap (λ l. ret (finished l q)) (sym (append-nil got)), v, refl, refl)
read_loop_all me (suc size) got q v room =
    let (byte, q₁, e₁, v₁, c₁, _, _, _) = (ioq_getchar_lem q v me).0 (omega arith) in
    let (bytes, q₂, e₂, v₂, c₂, n) =
      read_loop_all me size (got ++ byte ∷ []) q₁ v₁ (omega (arith, shrunk q q₁ byte c₁)) in
    (
      byte ∷ bytes,
      q₂,
      rw e₁ (e₂ ∙ ap (λ l. ret (finished l q₂)) (append_assoc got (byte ∷ []) bytes)),
      v₂,
      c₁ ∙ ap (λ l. byte ∷ l) c₂,
      ap suc n,
    )

-- A read never sleeps: it takes the oldest bytes of the pipe, `count` of them or all that there
-- are, in order, and leaves the others.
pipe_read_lem :
    (me count : ℕ) (q : Ioqueue)
    → IsRing q
    → (bytes : List ℕ) × (q' : Ioqueue) × (pipe_read me count q ≡ ret (finished bytes q'))
      × IsRing q'
      × (contents q ≡ bytes ++ contents q')
      × (length bytes ≡ (if ltb count (ioq_length q) then count else ioq_length q))
unfolding pipe_read
pipe_read_lem me count q v =
    read_loop_all me (if ltb count (ioq_length q) then count else ioq_length q) [] q v
      (ground arith)

append_whole : (xs ys zs : List ℕ) → zs ≡ xs ++ ys → length xs ≡ length zs → xs ≡ zs
append_whole [] [] zs e n = sym e
append_whole [] (y ∷ ys) zs e n = absurd (omega (arith, ap length e))
append_whole (x ∷ xs) ys [] e n = absurd (omega arith)
append_whole (x ∷ xs) ys (z ∷ zs) e n = ground (arith, append_whole xs ys zs)

-- For a count of at most 4095 that the writer's buffer holds, pipe_write of that many bytes to an
-- empty pipe writes them all without sleeping, and pipe_read of as many returns just these bytes.
pub pipe_read-pipe_write :
    (me you count : ℕ) (buf : List ℕ) (q : Ioqueue)
    → IsRing q
    → contents q ≡ []
    → count ≤ length buf
    → count ≤ 4095
    → (q₁ : Ioqueue) × (q₂ : Ioqueue) × (pipe_write me buf count q ≡ ret (finished count q₁))
      × (pipe_read you count q₁ ≡ ret (finished (take count buf) q₂))
pipe_read-pipe_write me you count buf q v none_yet whole room =
    let none : ioq_length q ≡ 0 = omega (arith, length-contents q, ap length none_yet) in
    let (q₁, e₁, v₁, c₁) = pipe_write_fits me count buf q v whole (omega arith) in
    let held : contents q₁ ≡ take count buf = c₁ ∙ ap (λ l. l ++ take count buf) none_yet in
    let len = length-take_le count buf whole in
    let size : ioq_length q₁ ≡ count = omega (arith, length-contents q₁, ap length held) in
    let (bytes, q₂, e₂, v₂, c₂, n) = pipe_read_lem you count q₁ v₁ in
    let same : bytes ≡ take count buf =
      append_whole bytes (contents q₂) (take count buf) (sym held ∙ c₂) (ground arith) in
    (q₁, q₂, e₁, rw same at e₂)
