-- ===== src/Memory/Request.antt =====
-- malloc_page as a whole: virtual addresses, frames and page tables together.
use ukernel.Prelude.{
  ℕ, ◌+◌, ◌*◌, ◌%◌, ◌^◌, ◌≤◌, ◌<◌, ◌≡◌, refl, true, false, arith, ltb, leb, inl, inr, ◌&&◌,
  Bool-cases, some, if◌then◌else◌, ap, ◌∙◌, lt→ltb, ret,
}
use ukernel.Bitmap.{Bitmap, bit_cnt, bitmap_scan_test, bitmap_scan}
use ukernel.Bitmap.Set.{IsBytes}
use ukernel.Bitmap.FirstFit.{bitmap_scan-some}
use ukernel.Memory.{
  PoolFlags, pf_kernel, pf_user, VirtualAddr, Memory, vaddrs, with_vaddrs, vaddr_get_at, vaddr_get,
  below_kernel,
}
use ukernel.Memory.Alloc.{malloc_page, malloc_page_at}
use ukernel.Memory.Tables.{mapped}
use ukernel.Memory.Pages.{IsMemory, Room, Larger}
use ukernel.Memory.Malloc.{PagesDone, map_pages_lem, set_bits_lem}

-- The addresses that the bitmap stands for are page boundaries below the page tables. (One bit more
-- than the bitmap owns, since bitmap_scan may answer with a run that ends there.)
pub record IsVaddrs (v : VirtualAddr) : Type 0 where
  pub bytes : IsBytes v.vaddr_bitmap
  pub aligned : v.vaddr_start % 4096 ≡ 0
  pub top : v.vaddr_start + (bit_cnt (v.vaddr_bitmap) + 1) * 4096 ≤ 0xffc00000

-- An address whose bit is clear is not mapped.
abbrev pub Consistent : VirtualAddr → (ℕ → ℕ) → Type 0
Consistent v words =
    (j : ℕ)
    → j ≤ bit_cnt (v.vaddr_bitmap)
    → bitmap_scan_test v.vaddr_bitmap j ≡ false
    → mapped words (v.vaddr_start + j * 4096) ≡ false

-- the virtual addresses with `b` for their bitmap
abbrev pub with_bitmap : Bitmap → VirtualAddr → VirtualAddr
with_bitmap b v = record v { vaddr_bitmap = b }

with_vaddrs-words :
    (pf : PoolFlags) (v : VirtualAddr) (m : Memory) → (with_vaddrs pf v m).words ≡ m.words
with_vaddrs-words pf_kernel v m = refl
with_vaddrs-words pf_user v m = refl

with_vaddrs-IsMemory :
    (pf : PoolFlags) (v : VirtualAddr) (m : Memory) → IsMemory m → IsMemory (with_vaddrs pf v m)
with_vaddrs-IsMemory pf_kernel v m is = record { kernel = is.kernel; user = is.user }
with_vaddrs-IsMemory pf_user v m is = record { kernel = is.kernel; user = is.user }

with_vaddrs-Room :
    (pf : PoolFlags) (n : ℕ) (v : VirtualAddr) (m : Memory)
    → Room pf n m
    → Room pf n (with_vaddrs pf v m)
with_vaddrs-Room pf_kernel n v m r = r
with_vaddrs-Room pf_user n v m r = r

vaddrs-Larger :
    (pf : PoolFlags) (v : VirtualAddr) (m m' : Memory)
    → Larger pf (with_vaddrs pf v m) m'
    → vaddrs pf m' ≡ v
vaddrs-Larger pf_kernel v m m' l = l.kernel_vaddr
vaddrs-Larger pf_user v m m' l = l.userprog_vaddr

-- The bits s, …, s + cnt - 1 of `old` are set in `b`, and no other bit differs.
pub record Claimed (old : Bitmap) (s cnt : ℕ) (b : Bitmap) : Type 0 where
  pub bytes : IsBytes b
  pub size : bit_cnt b ≡ bit_cnt old
  pub now :
      (j : ℕ)
      → bitmap_scan_test b j ≡ (if leb s j && ltb j (s + cnt) then true else bitmap_scan_test old j)

module _ (pf : PoolFlags) (cnt : ℕ) (m : Memory) (s : ℕ) (ok : IsVaddrs (vaddrs pf m))
    (pos : 0 < cnt) (found : bitmap_scan (vaddrs pf m).vaddr_bitmap cnt ≡ ret (some s)) where
  abbrev first_page : ℕ
  first_page = (vaddrs pf m).vaddr_start + s * 4096

  scan_facts :
      ((i : ℕ) → i < cnt → bitmap_scan_test ((vaddrs pf m).vaddr_bitmap) (s + i) ≡ false)
      × (s + cnt ≤ bit_cnt ((vaddrs pf m).vaddr_bitmap) + 1)
  scan_facts =
      let (clear, lowest, inside, one) =
        bitmap_scan-some ((vaddrs pf m).vaddr_bitmap) cnt ok.bytes pos s found in
      (λ i h. clear (s + i) (omega arith) (omega arith), inside)

  vaddr_get_lem :
      below_kernel pf (some first_page) ≡ true
      → (b : Bitmap) × (vaddr_get pf cnt m
          ≡ ret (some first_page, with_vaddrs pf (with_bitmap b (vaddrs pf m)) m))
        × Claimed ((vaddrs pf m).vaddr_bitmap) s cnt b
  unfolding vaddr_get vaddr_get_at
  vaddr_get_lem low =
      let (b, e, len, is, now) =
        set_bits_lem cnt ((vaddrs pf m).vaddr_bitmap) s 1 (omega arith) ok.bytes in
      let num : first_page % 2 ^ 32 ≡ first_page = omega (arith, ok.top, scan_facts.1) in
      (
        b,
        rw (found, e, num, low) refl,
        record { bytes = is; size = ap (λ n. n * 8) len; now = now },
      )

  unmapped_run :
      Consistent (vaddrs pf m) m.words
      → (v : VirtualAddr) (i : ℕ) → i < cnt
      → mapped ((with_vaddrs pf v m).words) (first_page + i * 4096) ≡ false
  unmapped_run con v i h =
      let at : (vaddrs pf m).vaddr_start + (s + i) * 4096 ≡ first_page + i * 4096 = omega arith in
      let (clear, inside) = scan_facts in
      let f = con (s + i) (omega arith) (clear i h) in
      ap (λ words. mapped words (first_page + i * 4096)) (with_vaddrs-words pf v m) ∙ (rw at at f)

  still-Consistent :
      Consistent (vaddrs pf m) m.words
      → (b : Bitmap) (m' : Memory) → Claimed ((vaddrs pf m).vaddr_bitmap) s cnt b
      → PagesDone pf cnt (with_vaddrs pf (with_bitmap b (vaddrs pf m)) m) first_page m'
      → Consistent (with_bitmap b (vaddrs pf m)) m'.words
  still-Consistent con b m' c d j h e =
      let w = (vaddrs pf m).vaddr_start + j * 4096 in
      let low : w < 0xffc00000 = omega (arith, ok.top, c.size) in
      elim (Bool-cases (mapped m'.words w)) [
        | inl there ↦ elim (d.new w low there) [
          | inl old ↦
              let f = con j (omega (arith, c.size)) (ground (arith, c.now j)) in
              let g =
                ap (λ words. mapped words w)
                  (with_vaddrs-words pf (with_bitmap b (vaddrs pf m)) m) in
              absurd (ground arith)
          | inr (a, k) ↦
              let in_run : (s ≤ j) × (j < s + cnt) = (omega arith, omega arith) in
              absurd (ground (arith, c.now j))
        ]
        | inr f ↦ f
      ]

  -- malloc_page of 1 to 3839 pages, when the pools are well formed, the virtual addresses lie
  -- below the page tables, no address whose bit is clear is mapped, the scan of the virtual
  -- addresses answers `s`, there are frames for the pages and for a page table to each, and a
  -- process's first page is below the limit that vaddr_get asserts: it returns the address of bit
  -- `s`; the bits s, …, s + cnt - 1 were clear and are set, and no other changes; the pages are
  -- mapped, each to a frame of its own that was free and is in use; every mapping that there was
  -- stays; and still no address whose bit is clear is mapped.
  pub malloc_page_lem :
      IsMemory m
      → cnt < 3840
      → Room pf cnt m
      → Consistent (vaddrs pf m) m.words
      → below_kernel pf (some first_page) ≡ true
      → (b : Bitmap) × (m' : Memory) × (malloc_page pf cnt m ≡ ret (some first_page, m'))
        × PagesDone pf cnt (with_vaddrs pf (with_bitmap b (vaddrs pf m)) m) first_page m'
        × Claimed ((vaddrs pf m).vaddr_bitmap) s cnt b
        × ((i : ℕ) → i < cnt → bitmap_scan_test ((vaddrs pf m).vaddr_bitmap) (s + i) ≡ false)
        × (vaddrs pf m' ≡ with_bitmap b (vaddrs pf m))
        × Consistent (with_bitmap b (vaddrs pf m)) m'.words
  unfolding malloc_page malloc_page_at
  malloc_page_lem is few room con low =
      let (b, e, c) = vaddr_get_lem low in
      let v = with_bitmap b (vaddrs pf m) in
      let m1 = with_vaddrs pf v m in
      let (clear, inside) = scan_facts in
      let (m', q, d) =
        map_pages_lem cnt pf first_page m1 (with_vaddrs-IsMemory pf v m is)
          (omega (arith, ok.aligned)) (omega (arith, ok.top)) (with_vaddrs-Room pf cnt v m room)
          (unmapped_run con v) in
      (
        b,
        m',
        rw (lt→ltb _ _ pos, lt→ltb _ _ few, e, q) refl,
        d,
        c,
        clear,
        vaddrs-Larger pf v m m' d.larger,
        still-Consistent con b m' c d,
      )
