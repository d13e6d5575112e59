-- ===== src/Memory/Tables.antt =====
-- page_table_add: the mapping that it makes, and every other mapping.
use ukernel.Prelude.{
  ℕ, ◌-◌, ◌/◌, ◌%◌, ◌^◌, ◌<◌, ◌≡◌, true, false, arith, ◌==◌, inl, inr, ◌&&◌, Bool, Bool-cases,
  if◌then◌else◌, update, ap,
}
use ukernel.Memory.{pg_size, pte_ptr, pde_ptr, present, entry, clear_words}
use ukernel.Memory.Layout.{
  pte_ptr_eq, pte_ptr_same, pde_ptr_eq, pde_ptr_same, pte_ptr-lt, in_table, of_in_table,
  pde_outside,
}

-- Whether `vaddr` has a present page table and a present entry in it.
abbrev pub mapped : (ℕ → ℕ) → ℕ → Bool
mapped words vaddr = present (words (pde_ptr vaddr)) && present (words (pte_ptr vaddr))

-- the words after `vaddr` is mapped to `frame` by a table that is there
abbrev pub filled : (ℕ → ℕ) → (vaddr frame : ℕ) → ℕ → ℕ
filled words vaddr frame = update words (pte_ptr vaddr) (entry frame)

-- the words with a new, empty table for `vaddr`
abbrev pub with_table : (ℕ → ℕ) → (vaddr table : ℕ) → ℕ → ℕ
with_table words vaddr table =
    clear_words (pte_ptr vaddr - pte_ptr vaddr % 4096) pg_size
      (update words (pde_ptr vaddr) (entry table))

pub entry-present : (x : ℕ) → present (entry x) ≡ true
entry-present x = ground arith

module _ (words : ℕ → ℕ) (v : ℕ) (hv : v < 0xffc00000) where
  pub mapped-filled :
      (frame w : ℕ)
      → present (words (pde_ptr v)) ≡ true
      → w < 0xffc00000
      → mapped (filled words v frame) w ≡ (if w / 4096 == v / 4096 then true else mapped words w)
  mapped-filled frame w there hw = elim (Bool-cases (w / 4096 == v / 4096)) [
    | inl e ↦
        let q : w / 4096 ≡ v / 4096 = ground arith in
        let (a, b) = pte_ptr_same w v q in ground (arith, pte_ptr-lt v w hv, entry-present frame)
    | inr e ↦ ground (arith, pte_ptr-lt v w hv, pte_ptr_eq w v (omega arith) (omega arith))
  ]

  -- The directory entry of `w` after a table is added.
  pub pde-with_table :
      (table w : ℕ)
      → with_table words v table (pde_ptr w)
        ≡ (if w / 2 ^ 22 == v / 2 ^ 22 then entry table else words (pde_ptr w))
  pde-with_table table w = ground (arith, pde_outside v w hv, pde_ptr_eq w v, pde_ptr_same w v)

  -- Its page-table entry.
  pub pte-with_table :
      (table w : ℕ)
      → w < 0xffc00000
      → with_table words v table (pte_ptr w)
        ≡ (if w / 2 ^ 22 == v / 2 ^ 22 then 0 else words (pte_ptr w))
  pte-with_table table w hw = ground (arith, pte_ptr-lt w v hw, in_table v w, of_in_table v w)

  pub mapped-with_table :
      (table w : ℕ)
      → present (words (pde_ptr v)) ≡ false
      → w < 0xffc00000
      → mapped (with_table words v table) w ≡ mapped words w
  mapped-with_table table w absent hw = elim (Bool-cases (w / 2 ^ 22 == v / 2 ^ 22)) [
    | inl e ↦
        let q : pde_ptr w ≡ pde_ptr v = pde_ptr_same w v (ground arith) in
        ground (arith, pte-with_table table w hw, ap words q)
    | inr e ↦ ground (arith, pte-with_table table w hw, pde-with_table table w)
  ]

  -- The entries of mapped addresses stay.
  pub word-filled :
      (frame w : ℕ)
      → mapped words v ≡ false
      → present (words (pde_ptr v)) ≡ true
      → w < 0xffc00000
      → mapped words w ≡ true
      → filled words v frame (pte_ptr w) ≡ words (pte_ptr w)
  word-filled frame w free there hw m = elim (Bool-cases (w / 4096 == v / 4096)) [
    | inl e ↦ let (a, b) = pte_ptr_same w v (ground arith) in absurd (ground (arith, ap words a))
    | inr e ↦ ground (arith, pte_ptr_eq w v (omega arith) (omega arith))
  ]

  pub word-with_table :
      (table w : ℕ)
      → present (words (pde_ptr v)) ≡ false
      → w < 0xffc00000
      → mapped words w ≡ true
      → with_table words v table (pte_ptr w) ≡ words (pte_ptr w)
  word-with_table table w absent hw m = elim (Bool-cases (w / 2 ^ 22 == v / 2 ^ 22)) [
    | inl e ↦
        let q : pde_ptr w ≡ pde_ptr v = pde_ptr_same w v (ground arith) in
        absurd (ground (arith, ap words q))
    | inr e ↦ ground (arith, pte-with_table table w hw)
  ]
