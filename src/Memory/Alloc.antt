-- ===== src/Memory/Alloc.antt =====
-- memory.c, the routines that hand out pages.
use ukernel.Prelude.{
  ℕ, zero, suc, ◌+◌, ◌-◌, ◌*◌, ◌/◌, ◌%◌, ◌^◌, ◌&&◌, Bool, true, false, not, Option, none, some, ltb,
  if◌then◌else◌, Outcome, ret, ◌>>=◌, ◌>>◌, assert,
}
use ukernel.Bitmap.{bitmap_set}
use ukernel.Memory.{
  pg_size, PoolFlags, pf_kernel, pf_user, VirtualAddr, Memory, mem_pool, with_pool, vaddrs,
  with_vaddrs, vaddr_get, palloc, page_table_add, clear_words,
}

-- One page: a frame from the pool, mapped at `vaddr`. The answer says whether there was one.
unfoldable pub map_page_at : PoolFlags → ℕ → Option ℕ × Memory → Outcome (Bool × Memory)
map_page_at pf vaddr (none, m) = ret (false, m)
map_page_at pf vaddr (some page_phyaddr, m) = do
  m' ← page_table_add vaddr page_phyaddr m
  ret (true, m')

unfoldable pub map_page : PoolFlags → ℕ → Memory → Outcome (Bool × Memory)
map_page pf vaddr m = do
  (page_phyaddr, p) ← palloc (mem_pool pf m)
  map_page_at pf vaddr (page_phyaddr, with_pool pf p m)

-- what the loop does after a page: `rest` is its remaining turns
abbrev pub map_next :
    (rest : Memory → Outcome (Bool × Memory)) → Bool × Memory → Outcome (Bool × Memory)
map_next rest (false, m) = ret (false, m)
map_next rest (true, m) = rest m

-- while (cnt-- > 0) { ... vaddr += PG_SIZE; }: false is the return of NULL from inside the loop.
unfoldable pub map_pages : (cnt : ℕ) → PoolFlags → ℕ → Memory → Outcome (Bool × Memory)
map_pages zero pf vaddr m = ret (true, m)
map_pages (suc cnt) pf vaddr m = do
  answer ← map_page pf vaddr m
  map_next (map_pages cnt pf ((vaddr + pg_size) % 2 ^ 32)) answer

-- the rest of malloc_page once vaddr_get has answered
unfoldable pub malloc_page_at : PoolFlags → ℕ → Option ℕ × Memory → Outcome (Option ℕ × Memory)
malloc_page_at pf pg_cnt (none, m) = ret (none, m)
malloc_page_at pf pg_cnt (some vaddr_start, m) = do
  (mapped, m') ← map_pages pg_cnt pf vaddr_start m
  ret (if mapped then some vaddr_start else none, m')

unfoldable pub malloc_page : PoolFlags → ℕ → Memory → Outcome (Option ℕ × Memory)
malloc_page pf pg_cnt m = do
  assert (ltb 0 pg_cnt && ltb pg_cnt 3840)
  answer ← vaddr_get pf pg_cnt m
  malloc_page_at pf pg_cnt answer

-- if(vaddr != NULL) memset(vaddr, 0, pg_cnt * PG_SIZE)
unfoldable pub clear_pages : ℕ → Option ℕ × Memory → Option ℕ × Memory
clear_pages pg_cnt (none, m) = (none, m)
clear_pages pg_cnt (some vaddr, m) =
    (some vaddr, record m { words = clear_words vaddr (pg_cnt * pg_size) (m.words) })

unfoldable pub get_kernel_pages : ℕ → Memory → Outcome (Option ℕ × Memory)
get_kernel_pages pg_cnt m = do
  answer ← malloc_page pf_kernel pg_cnt m
  ret (clear_pages pg_cnt answer)

unfoldable pub get_user_pages : ℕ → Memory → Outcome (Option ℕ × Memory)
get_user_pages pg_cnt m = do answer ← malloc_page pf_user pg_cnt m; ret (clear_pages pg_cnt answer)

-- the end of get_a_page: NULL when there is no frame
abbrev pub page_or_null : ℕ → Bool × Memory → Outcome (Option ℕ × Memory)
page_or_null vaddr (mapped, m) = ret (if mapped then some vaddr else none, m)

unfoldable pub get_a_page_without_opvaddrbitmap :
    PoolFlags → ℕ → Memory → Outcome (Option ℕ × Memory)
get_a_page_without_opvaddrbitmap pf vaddr m = map_page pf vaddr m >>= page_or_null vaddr

-- which virtual addresses get_a_page may touch: a process its own, a kernel thread the kernel's
abbrev pub may_get : PoolFlags → Bool → Bool
may_get pf_user has_pgdir = has_pgdir
may_get pf_kernel has_pgdir = not has_pgdir

-- bit_idx = (vaddr - vaddr_start) / PG_SIZE, a uint32_t; as an int32_t it is positive
unfoldable pub claim_vaddr : ℕ → VirtualAddr → Outcome VirtualAddr
claim_vaddr vaddr v = do
  let bit_idx = (vaddr + 2 ^ 32 - v.vaddr_start) % 2 ^ 32 / pg_size
  assert (ltb 0 bit_idx)
  b ← bitmap_set v.vaddr_bitmap bit_idx 1
  ret (record v { vaddr_bitmap = b })

unfoldable pub get_a_page : PoolFlags → ℕ → Memory → Outcome (Option ℕ × Memory)
get_a_page pf vaddr m = do
  assert (may_get pf (m.has_pgdir))
  v ← claim_vaddr vaddr (vaddrs pf m)
  answer ← map_page pf vaddr (with_vaddrs pf v m)
  page_or_null vaddr answer
