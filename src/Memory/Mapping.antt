-- ===== src/Memory/Mapping.antt =====
-- page_table_add as a whole: when it stops the machine, and the mapping that it makes.
use ukernel.Prelude.{
  ℕ, ◌+◌, ◌/◌, ◌≤◌, ◌<◌, ◌≡◌, refl, true, false, arith, ◌==◌, ◌⊎◌, inl, inr, Bool-cases,
  if◌then◌else◌, ◌∙◌, ret, panic,
}
use ukernel.Bitmap.{bit_cnt}
use ukernel.Memory.{
  Pool, Memory, pte_ptr, pde_ptr, present, entry, add_table, fill_pte, page_table_add,
}
use ukernel.Memory.Pools.{IsPool, IsFull, Taken, in_use, palloc_lem, free_frames, free_frames-Taken}
use ukernel.Memory.Tables.{
  mapped, filled, with_table, entry-present, mapped-filled, pde-with_table, pte-with_table,
  mapped-with_table, word-filled, word-with_table,
}

-- What may happen to the kernel's frames: more of them come into use.
pub record Grown (p p' : Pool) : Type 0 where
  pub start : p'.phy_addr_start ≡ p.phy_addr_start
  pub size : bit_cnt (p'.pool_bitmap) ≡ bit_cnt (p.pool_bitmap)
  pub few : free_frames p ≤ free_frames p' + 1
  pub more : (j : ℕ) → in_use p j ≡ true → in_use p' j ≡ true
  pub pool : IsPool p'

pub Grown-refl : (p : Pool) → IsPool p → Grown p p
Grown-refl p is = record {
  start = refl;
  size = refl;
  few = omega arith;
  more = λ j h. h;
  pool = is;
}

pub Grown-Taken : (p p' : Pool) (frame : ℕ) → Taken p frame p' → Grown p p'
Grown-Taken p p' frame t = record {
  start = t.start;
  size = t.size;
  few = omega (arith, free_frames-Taken p p' frame t);
  more = λ j h. ground (arith, t.now j);
  pool = t.pool;
}

-- `vaddr` leads to `frame`, and every other address leads where it led before.
pub record Added (words : ℕ → ℕ) (vaddr frame : ℕ) (words' : ℕ → ℕ) : Type 0 where
  pub target : words' (pte_ptr vaddr) ≡ entry frame
  pub now :
      (w : ℕ)
      → w < 0xffc00000
      → mapped words' w ≡ (if w / 4096 == vaddr / 4096 then true else mapped words w)
  pub kept :
      (w : ℕ) → w < 0xffc00000 → mapped words w ≡ true → words' (pte_ptr w) ≡ words (pte_ptr w)

Added-filled :
    (words : ℕ → ℕ) (v frame : ℕ)
    → v < 0xffc00000
    → mapped words v ≡ false
    → present (words (pde_ptr v)) ≡ true
    → Added words v frame (filled words v frame)
Added-filled words v frame hv free there = record {
  target = ground arith;
  now = λ w hw. mapped-filled words v hv frame w there hw;
  kept = λ w hw m. word-filled words v hv frame w free there hw m;
}

Added-with_table :
    (words : ℕ → ℕ) (v table frame : ℕ)
    → v < 0xffc00000
    → present (words (pde_ptr v)) ≡ false
    → Added words v frame (filled (with_table words v table) v frame)
Added-with_table words v table frame hv absent =
    let there : present (with_table words v table (pde_ptr v)) ≡ true =
      ground (arith, pde-with_table words v hv table v, entry-present table) in
    let free : mapped (with_table words v table) v ≡ false =
      ground (arith, mapped-with_table words v hv table v absent hv) in
    let a = Added-filled (with_table words v table) v frame hv free there in
    record {
      target = a.target;
      now = λ w hw. ground (arith, a.now w hw, mapped-with_table words v hv table w absent hw);
      kept = λ w hw m.
          let same = mapped-with_table words v hv table w absent hw in
          a.kept w hw (same ∙ m) ∙ word-with_table words v hv table w absent hw m;
    }

module _ (m : Memory) (v frame : ℕ) (hv : v < 0xffc00000) (is : IsPool (m.kernel_pool)) where
  -- For an address below the page tables, with a kernel pool of frames on page boundaries:
  -- page_table_add stops the machine only if the address is mapped, or if it needs a frame for a
  -- new page table and the kernel has none left; else the address was not mapped and leads to the
  -- frame, every other mapping below the page tables is as it was, no frame of the kernel comes
  -- free, and nothing but the kernel's pool and the words has changed.
  pub page_table_add_lem :
      ((page_table_add v frame m ≡ panic)
        × ((mapped m.words v ≡ true)
            ⊎ ((present (m.words (pde_ptr v)) ≡ false) × IsFull (m.kernel_pool))))
      ⊎ ((kp : Pool) × (words' : ℕ → ℕ) × (page_table_add v frame m
            ≡ ret (record m { kernel_pool = kp; words = words' }))
          × (mapped m.words v ≡ false)
          × Grown (m.kernel_pool) kp
          × Added m.words v frame words')
  unfolding page_table_add
  page_table_add_lem = elim (Bool-cases (present (m.words (pde_ptr v)))) [
    | inl there ↦ elim (Bool-cases (present (m.words (pte_ptr v)))) [
      | inl taken ↦ inl (unfold fill_pte in ground arith, inl (ground arith))
      | inr free ↦
          let unmapped : mapped m.words v ≡ false = ground arith in
          inr (
            m.kernel_pool,
            filled m.words v frame,
            unfold fill_pte in ground arith,
            unmapped,
            Grown-refl m.kernel_pool is,
            Added-filled m.words v frame hv unmapped there,
          )
    ]
    | inr absent ↦ elim (palloc_lem m.kernel_pool is) [
      | inl (e, full) ↦ inl (unfold add_table in ground arith, inr (absent, full))
      | inr (table, kp, e, t) ↦
          let empty = pte-with_table m.words v hv table v hv in
          inr (
            kp,
            filled (with_table m.words v table) v frame,
            unfold add_table fill_pte in ground (arith, empty),
            ground arith,
            Grown-Taken m.kernel_pool kp table t,
            Added-with_table m.words v table frame hv absent,
          )
    ]
  ]
