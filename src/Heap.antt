-- ===== src/Heap.antt =====
-- memory.c, sys_malloc and sys_free: pages cut into blocks of seven sizes. A free list is the
-- sequence of its blocks' addresses (what KernelList proves the links to hold), and the header of an
-- arena is kept by the address of its page; both lie in the pages themselves in the source. A
-- routine that takes the pool's lock is one step.
pub mod Layout
mod Tests
use ukernel.Prelude.{
  ℕ, zero, suc, ◌+◌, ◌-◌, ◌*◌, ◌/◌, ◌%◌, ◌^◌, ◌&&◌, Bool, true, false, not, Option, none, some, ltb,
  leb, ◌==◌, if◌then◌else◌, update, List, [], ◌∷◌, ◌++◌, has, without, Outcome, ret, panic, ◌>>=◌,
  ◌>>◌, assert,
}
use ukernel.Memory.{pg_size, PoolFlags, pf_kernel, pf_user, Pool, Memory, mem_pool, clear_words}
use ukernel.Memory.Alloc.{malloc_page}
use ukernel.Memory.Free.{mfree_page}
use ukernel.Memory.Init.{k_heap_start}

-- struct mem_block_desc
pub record MemBlockDesc : Type 0 where
  pub block_size : ℕ
  pub blocks_per_arena : ℕ
  pub free_list : List ℕ

-- struct arena: `desc` is the number of its descriptor, `none` is NULL.
pub record Arena : Type 0 where
  pub desc : Option ℕ
  pub cnt : ℕ
  pub large : Bool

abbrev pub desc_cnt : ℕ
desc_cnt = 7

abbrev pub sizeof_arena : ℕ
sizeof_arena = 12

-- The descriptors are those of the running thread's kind: k_block_descs or its own u_block_desc.
pub record Heap : Type 0 where
  pub memory : Memory
  pub descs : ℕ → MemBlockDesc
  pub arenas : ℕ → Arena

-- for (desc_idx = 0; desc_idx < DESC_CNT; desc_idx++), with block_size a uint16_t
unfoldable pub descs_from : (left desc_idx block_size : ℕ) → (ℕ → MemBlockDesc) → ℕ → MemBlockDesc
descs_from zero desc_idx block_size descs = descs
descs_from (suc left) desc_idx block_size descs =
    descs_from left (desc_idx + 1) (block_size * 2 % 2 ^ 16) (
      update descs desc_idx (record {
        block_size = block_size;
        blocks_per_arena = (pg_size - sizeof_arena) / block_size;
        free_list = [];
      }))

unfoldable pub block_desc_init : (ℕ → MemBlockDesc) → ℕ → MemBlockDesc
block_desc_init descs = descs_from desc_cnt 0 16 descs

unfoldable pub arena2block : (a idx : ℕ) → MemBlockDesc → ℕ
arena2block a idx desc = a + sizeof_arena + idx * desc.block_size

-- b & 0xfffff000
unfoldable pub block2arena : ℕ → ℕ
block2arena b = b - b % pg_size

-- for(desc_idx = 0; desc_idx < DESC_CNT; desc_idx++) if(size <= descs[desc_idx].block_size) break;
unfoldable pub find_desc : (left desc_idx size : ℕ) → (ℕ → MemBlockDesc) → ℕ
find_desc zero desc_idx size descs = desc_idx
find_desc (suc left) desc_idx size descs =
    let rest = find_desc left (desc_idx + 1) size descs in
    if leb size ((descs desc_idx).block_size) then desc_idx else rest

-- The blocks of a new arena go to the end of the free list, each after ASSERT(!elem_find(...)).
unfoldable pub append_blocks : (left block_idx a : ℕ) → MemBlockDesc → Outcome MemBlockDesc
append_blocks zero block_idx a d = ret d
append_blocks (suc left) block_idx a d = do
  let b = arena2block a block_idx d
  assert (not (has b (d.free_list)))
  append_blocks left (block_idx + 1) a (record d { free_list = d.free_list ++ b ∷ [] })

-- a page for blocks of descriptor `desc_idx`
unfoldable pub new_arena : (desc_idx : ℕ) → Option ℕ × Memory → Heap → Outcome (Bool × Heap)
new_arena desc_idx (none, m) h = ret (false, record h { memory = m })
new_arena desc_idx (some a, m) h = do
  d ← append_blocks (h.descs desc_idx).blocks_per_arena 0 a (h.descs desc_idx)
  ret (
    true,
    record {
      memory = record m { words = clear_words a pg_size (m.words) };
      descs = update h.descs desc_idx d;
      arenas =
          update h.arenas a
            (record { desc = some desc_idx; cnt = d.blocks_per_arena; large = false });
    },
  )

-- The pop of a block, its memset, and the count of its arena. The list has a block: it had one, or
-- an arena was cut just before. (list_pop of an empty list would write through NULL.)
unfoldable pub take_block : (desc_idx : ℕ) → List ℕ → Heap → Outcome (Option ℕ × Heap)
take_block desc_idx [] h = panic
take_block desc_idx (b ∷ rest) h =
    let d = h.descs desc_idx in
    let a = block2arena b in
    let m = h.memory in
    ret (
      some b,
      record {
        memory = record m { words = clear_words b (d.block_size) (m.words) };
        descs = update h.descs desc_idx (record d { free_list = rest });
        arenas = update h.arenas a (record (h.arenas a) { cnt = (h.arenas a).cnt - 1 });
      },
    )

-- the block branch once there is a block, or no page for an arena
unfoldable pub malloc_block : (desc_idx : ℕ) → Bool × Heap → Outcome (Option ℕ × Heap)
malloc_block desc_idx (false, h) = ret (none, h)
malloc_block desc_idx (true, h) = take_block desc_idx ((h.descs desc_idx).free_list) h

abbrev pub is_empty : List ℕ → Bool
is_empty [] = true
is_empty (b ∷ rest) = false

-- size <= 1024
unfoldable pub malloc_small : PoolFlags → ℕ → Heap → Outcome (Option ℕ × Heap)
malloc_small pf size h = do
  let desc_idx = find_desc desc_cnt 0 size (h.descs)
  ready ←
      if is_empty ((h.descs desc_idx).free_list)
      then (malloc_page pf 1 (h.memory) >>= λ page. new_arena desc_idx page h)
      else ret (true, h)
  malloc_block desc_idx ready

-- the pages of a large request: a header that says so, and the address behind it
unfoldable pub large_arena : (page_cnt : ℕ) → Option ℕ × Memory → Heap → Option ℕ × Heap
large_arena page_cnt (none, m) h = (none, record h { memory = m })
large_arena page_cnt (some a, m) h = (
  some (a + sizeof_arena),
  record h {
    memory = record m { words = clear_words a (page_cnt * pg_size) (m.words) };
    arenas = update h.arenas a (record { desc = none; cnt = page_cnt; large = true });
  },
)

-- size > 1024, with DIV_ROUND_UP written out
unfoldable pub malloc_large : PoolFlags → ℕ → Heap → Outcome (Option ℕ × Heap)
malloc_large pf size h = do
  let page_cnt = (size + sizeof_arena + (pg_size - 1)) / pg_size
  page ← malloc_page pf page_cnt (h.memory)
  ret (large_arena page_cnt page h)

-- a thread with a page directory is a process
abbrev pub pool_flags : Heap → PoolFlags
pool_flags h = if h.memory.has_pgdir then pf_user else pf_kernel

unfoldable pub sys_malloc : ℕ → Heap → Outcome (Option ℕ × Heap)
sys_malloc size h =
    let pf = pool_flags h in
    if not (ltb 0 size && ltb size ((mem_pool pf (h.memory)).pool_size))
    then ret (none, h)
    else if ltb 1024 size
    then malloc_large pf size h
    else malloc_small pf size h

-- The blocks of an arena that is not in use leave the free list, each after ASSERT(elem_find(...)).
unfoldable pub remove_blocks : (left block_idx a : ℕ) → MemBlockDesc → Outcome MemBlockDesc
remove_blocks zero block_idx a d = ret d
remove_blocks (suc left) block_idx a d = do
  let b = arena2block a block_idx d
  assert (has b (d.free_list))
  remove_blocks left (block_idx + 1) a (record d { free_list = without b (d.free_list) })

-- if (++a->cnt == a->desc->blocks_per_arena) { ... }
unfoldable pub drop_arena : PoolFlags → (a desc_idx : ℕ) → Heap → Outcome Heap
drop_arena pf a desc_idx h = do
  d ← remove_blocks (h.descs desc_idx).blocks_per_arena 0 a (h.descs desc_idx)
  m ← mfree_page pf a 1 (h.memory)
  ret (record h { memory = m; descs = update h.descs desc_idx d })

unfoldable pub free_block : PoolFlags → (b desc_idx : ℕ) → Heap → Outcome Heap
free_block pf b desc_idx h =
    let a = block2arena b in
    let d = h.descs desc_idx in
    let cnt = (h.arenas a).cnt + 1 in
    let h' = record h {
      descs = update h.descs desc_idx (record d { free_list = d.free_list ++ b ∷ [] });
      arenas = update h.arenas a (record (h.arenas a) { cnt = cnt });
    } in
    if cnt == d.blocks_per_arena then drop_arena pf a desc_idx h' else ret h'

-- if (a->desc == NULL && a->large == true). A descriptor of NULL in an arena that is not large would
-- be followed; no arena has one.
unfoldable pub free_at : PoolFlags → (ptr : ℕ) → Option ℕ → Arena → Heap → Outcome Heap
free_at pf ptr none a h = do
  assert (a.large)
  m ← mfree_page pf (block2arena ptr) (a.cnt) (h.memory)
  ret (record h { memory = m })
free_at pf ptr (some desc_idx) a h = free_block pf ptr desc_idx h

-- ASSERT((uint32_t)ptr >= K_HEAP_START), of a kernel thread only
abbrev pub may_free : PoolFlags → ℕ → Bool
may_free pf_kernel ptr = leb k_heap_start ptr
may_free pf_user ptr = true

unfoldable pub sys_free : ℕ → Heap → Outcome Heap
sys_free ptr h = do
  assert (not (ptr == 0))
  assert (may_free (pool_flags h) ptr)
  let a = h.arenas (block2arena ptr)
  free_at (pool_flags h) ptr (a.desc) a h
