-- ===== src/Heap/Layout.antt =====
-- The seven sizes of blocks, and where the blocks of an arena lie.
use ukernel.Prelude.{
  ℕ, zero, suc, ◌+◌, ◌%◌, ◌≤◌, ◌<◌, ◌≡◌, ◌⊎◌, refl, arith, leb, ◌==◌, Bool-cases, inl, inr, ap,
}
use ukernel.Heap.{
  MemBlockDesc, desc_cnt, descs_from, block_desc_init, arena2block, block2arena, find_desc,
}

-- The blocks of an arena of `d` in a page at `a`.
pub record Fits (a : ℕ) (d : MemBlockDesc) : Type 0 where
  pub behind : (idx : ℕ) → idx < d.blocks_per_arena → a + 12 ≤ arena2block a idx d
  pub within : (idx : ℕ) → idx < d.blocks_per_arena → arena2block a idx d + d.block_size ≤ a + 4096
  pub back : (idx : ℕ) → idx < d.blocks_per_arena → block2arena (arena2block a idx d) ≡ a
  pub next : (idx : ℕ) → arena2block a idx d + d.block_size ≡ arena2block a (idx + 1) d
  pub most : a + 4096 < arena2block a (d.blocks_per_arena + 1) d

Fits-at :
    (descs : ℕ → MemBlockDesc) (a i : ℕ) → a % 4096 ≡ 0 → i < 7 → Fits a (block_desc_init descs i)
unfolding arena2block block2arena block_desc_init descs_from
Fits-at descs a zero al h = record {
  behind = λ idx k. omega arith;
  within = λ idx k. omega arith;
  back = λ idx k. omega arith;
  next = λ idx. omega arith;
  most = omega arith;
}
Fits-at descs a (suc zero) al h = record {
  behind = λ idx k. omega arith;
  within = λ idx k. omega arith;
  back = λ idx k. omega arith;
  next = λ idx. omega arith;
  most = omega arith;
}
Fits-at descs a (suc (suc zero)) al h = record {
  behind = λ idx k. omega arith;
  within = λ idx k. omega arith;
  back = λ idx k. omega arith;
  next = λ idx. omega arith;
  most = omega arith;
}
Fits-at descs a (suc (suc (suc zero))) al h = record {
  behind = λ idx k. omega arith;
  within = λ idx k. omega arith;
  back = λ idx k. omega arith;
  next = λ idx. omega arith;
  most = omega arith;
}
Fits-at descs a (suc (suc (suc (suc zero)))) al h = record {
  behind = λ idx k. omega arith;
  within = λ idx k. omega arith;
  back = λ idx k. omega arith;
  next = λ idx. omega arith;
  most = omega arith;
}
Fits-at descs a (suc (suc (suc (suc (suc zero))))) al h = record {
  behind = λ idx k. omega arith;
  within = λ idx k. omega arith;
  back = λ idx k. omega arith;
  next = λ idx. omega arith;
  most = omega arith;
}
Fits-at descs a (suc (suc (suc (suc (suc (suc zero)))))) al h = record {
  behind = λ idx k. omega arith;
  within = λ idx k. omega arith;
  back = λ idx k. omega arith;
  next = λ idx. omega arith;
  most = omega arith;
}
Fits-at descs a (suc (suc (suc (suc (suc (suc (suc i))))))) al h = absurd (omega arith)

-- The descriptors before the one that find_desc answers have blocks too small, and its own are large
-- enough unless it is past the last.
find_desc-least :
    (left i size : ℕ) (descs : ℕ → MemBlockDesc) (k : ℕ)
    → i ≤ k
    → k < find_desc left i size descs
    → (descs k).block_size < size
unfolding find_desc
find_desc-least zero i size descs k a b = absurd (omega arith)
find_desc-least (suc left) i size descs k a b =
    elim (Bool-cases (leb size ((descs i).block_size))) [
      | inl e ↦ absurd (ground arith)
      | inr e ↦ elim (Bool-cases (i == k)) [
        | inl q ↦ let at : i ≡ k = ground arith in ground (arith, ap (λ x. (descs x).block_size) at)
        | inr q ↦ find_desc-least left (i + 1) size descs k (ground arith) (ground arith)
      ]
    ]

find_desc-enough :
    (left i size : ℕ) (descs : ℕ → MemBlockDesc)
    → (find_desc left i size descs ≡ i + left)
      ⊎ ((find_desc left i size descs < i + left)
          × (size ≤ (descs (find_desc left i size descs)).block_size))
unfolding find_desc
find_desc-enough zero i size descs = inl (omega arith)
find_desc-enough (suc left) i size descs = elim (Bool-cases (leb size ((descs i).block_size))) [
  | inl e ↦ inr (rw e (omega arith), rw e (ground arith))
  | inr e ↦ elim (find_desc-enough left (i + 1) size descs) [
    | inl q ↦ inl (rw e (omega arith))
    | inr (q, r) ↦ inr (rw e (omega arith), rw e r)
  ]
]

last_size : (descs : ℕ → MemBlockDesc) → (block_desc_init descs 6).block_size ≡ 1024
unfolding block_desc_init descs_from
last_size descs = refl

-- For a request of 1 to 1024 bytes with the descriptors of block_desc_init: the descriptor that is
-- chosen exists and is the first whose blocks are large enough; each of its blocks in a page at `a`
-- lies behind the header and within the page, its address leads back to the page, and it ends before
-- the next block begins; and one block more would not fit.
pub blocks_fit :
    (descs : ℕ → MemBlockDesc) (size a : ℕ)
    → 0 < size
    → size ≤ 1024
    → a % 4096 ≡ 0
    → let i = find_desc desc_cnt 0 size (block_desc_init descs) in
      (i < 7)
      × (size ≤ (block_desc_init descs i).block_size)
      × ((k : ℕ) → k < i → (block_desc_init descs k).block_size < size)
      × Fits a (block_desc_init descs i)
blocks_fit descs size a pos small al = elim (find_desc-enough 7 0 size (block_desc_init descs)) [
  | inl past ↦
      let big = find_desc-least 7 0 size (block_desc_init descs) 6 (omega arith) (omega arith) in
      absurd (omega (arith, last_size descs))
  | inr (low, enough) ↦ (
    low,
    enough,
    λ k h. find_desc-least 7 0 size (block_desc_init descs) k (omega arith) h,
    Fits-at descs a _ al low,
  )
]
