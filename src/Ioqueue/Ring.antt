-- ===== src/Ioqueue/Ring.antt =====
-- The bytes that a queue holds, oldest first.
use ukernel.Prelude.{
  ℕ, zero, suc, ◌+◌, ◌-◌, ◌%◌, ◌≤◌, ◌<◌, ◌≡◌, ◌≢◌, ◌↔◌, refl, ap, true, List, [], ◌∷◌, ◌++◌, arith,
  update, length,
}
use ukernel.Ioqueue.{Ioqueue, bufsize, next_pos, ioq_full, ioq_empty, ioq_length}

pub record IsRing (q : Ioqueue) : Type 0 where
  pub head_in : q.head < bufsize
  pub tail_in : q.tail < bufsize

-- the `n` bytes from `pos` on, round the end of the buffer
unfoldable pub bytes_from : (ℕ → ℕ) → ℕ → ℕ → List ℕ
bytes_from buf pos zero = []
bytes_from buf pos (suc n) = buf pos ∷ bytes_from buf (next_pos pos) n

abbrev pub contents : Ioqueue → List ℕ
contents q = bytes_from q.buf q.tail (ioq_length q)

length-bytes_from : (buf : ℕ → ℕ) (pos n : ℕ) → length (bytes_from buf pos n) ≡ n
unfolding bytes_from
length-bytes_from buf pos zero = refl
length-bytes_from buf pos (suc n) = ap suc (length-bytes_from buf (next_pos pos) n)

pub length-contents : (q : Ioqueue) → length (contents q) ≡ ioq_length q
length-contents q = length-bytes_from q.buf q.tail (ioq_length q)

-- A write just past the bytes adds one to them.
pub bytes_from-update :
    (buf : ℕ → ℕ) (byte i n pos : ℕ)
    → pos < bufsize
    → suc n < bufsize
    → i ≡ (pos + n) % bufsize
    → bytes_from (update buf i byte) pos (suc n) ≡ bytes_from buf pos n ++ byte ∷ []
unfolding bytes_from
bytes_from-update buf byte i zero pos hp hn e = ground arith
bytes_from-update buf byte i (suc n) pos hp hn e =
    let off : i ≢ pos = omega arith in
    let rest =
      bytes_from-update buf byte i n (next_pos pos) (omega arith) (omega arith) (omega arith) in
    ground (arith, rest)

-- The oldest byte and the others.
pub bytes_from-suc :
    (buf : ℕ → ℕ) (pos n : ℕ)
    → n ≢ 0
    → bytes_from buf pos n ≡ buf pos ∷ bytes_from buf (next_pos pos) (n - 1)
unfolding bytes_from
bytes_from-suc buf pos zero h = absurd (h refl)
bytes_from-suc buf pos (suc n) h = ap (λ k. buf pos ∷ bytes_from buf (next_pos pos) k) (omega arith)

module _ (q : Ioqueue) (v : IsRing q) where
  -- A ring of 4096 places holds 4095 bytes at most; it is full at 4095 of them and empty at none.
  pub ioq_length_bounds :
      (ioq_length q ≤ 4095)
      × ((ioq_full q ≡ true) ↔ (ioq_length q ≡ 4095))
      × ((ioq_empty q ≡ true) ↔ (ioq_length q ≡ 0))
  unfolding ioq_length ioq_full ioq_empty
  ioq_length_bounds =
      let h = v.head_in in
      let t = v.tail_in in
      (ground arith, (ground arith, ground arith), (ground arith, ground arith))

  -- the place that the next byte goes to
  pub head_at : q.head ≡ (q.tail + ioq_length q) % bufsize
  unfolding ioq_length
  head_at = let h = v.head_in in let t = v.tail_in in ground arith
