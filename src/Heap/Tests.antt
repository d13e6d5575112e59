-- ===== src/Heap/Tests.antt =====
-- A request of 100 bytes, and the theorem at it.
use ukernel.Prelude.{ℕ, ◌≤◌, ◌<◌, refl, arith, []}
use ukernel.Heap.{MemBlockDesc, desc_cnt, find_desc, block_desc_init}
use ukernel.Heap.Layout.{Fits, blocks_fit}

abbrev blank : ℕ → MemBlockDesc
blank i = record { block_size = 0; blocks_per_arena = 0; free_list = [] }

blocks_fit_example :
    let i = find_desc desc_cnt 0 100 (block_desc_init blank) in
    (i < 7)
    × (100 ≤ (block_desc_init blank i).block_size)
    × ((k : ℕ) → k < i → (block_desc_init blank k).block_size < 100)
    × Fits 0xc0105000 (block_desc_init blank i)
blocks_fit_example = blocks_fit blank 100 0xc0105000 (omega arith) (omega arith) refl
