-- ===== src/Memory/Return.antt =====
-- mfree_page: its loop, and the routine as a whole.
use ukernel.Prelude.{
  ℕ, zero, suc, ◌+◌, ◌-◌, ◌*◌, ◌/◌, ◌%◌, ◌^◌, ◌≤◌, ◌<◌, ◌≡◌, refl, true, false, arith, ltb, leb,
  ◌==◌, inl, inr, ◌&&◌, Bool-cases, if◌then◌else◌, ap, ◌∙◌, sym, ret,
}
use ukernel.Bitmap.{Bitmap, bit_cnt, bitmap_scan_test}
use ukernel.Memory.{
  PoolFlags, pf_kernel, pf_user, Pool, VirtualAddr, Memory, mem_pool, with_pool, vaddrs,
  with_vaddrs, entry, addr_v2p, set_bits,
}
use ukernel.Memory.Free.{
  pool_of_frame, release_frame, pfree, page_table_pte_remove, vaddr_remove, free_pages, mfree_page,
}
use ukernel.Memory.Pools.{IsPool, in_use, frame_of, release_frame_lem}
use ukernel.Memory.Tables.{mapped}
use ukernel.Memory.Malloc.{set_bits_lem}
use ukernel.Memory.Request.{IsVaddrs, with_bitmap}
use ukernel.Memory.Release.{
  IsSplit, Leads, FreeDone, addr_v2p-Leads, own_pool, frame_top, without, without-gone,
  without-kept, without-dir,
}

-- the memory after the frame of `v` went back to the pool `p'`
abbrev after_page : PoolFlags → Pool → ℕ → Memory → Memory
after_page pf_kernel p' v m = record m { kernel_pool = p'; words = without m.words v }
after_page pf_user p' v m = record m { user_pool = p'; words = without m.words v }

pub IsPool-IsSplit : (pf : PoolFlags) (m : Memory) → IsSplit m → IsPool (mem_pool pf m)
IsPool-IsSplit pf_kernel m sp = sp.is.kernel
IsPool-IsSplit pf_user m sp = sp.is.user

module _ (pf : PoolFlags) (v bit : ℕ) (m : Memory) (sp : IsSplit m) (hv : v < 0xffc00000)
    (al : v % 4096 ≡ 0) (l : Leads pf m v bit) (p' : Pool)
    (e : release_frame (frame_of (mem_pool pf m) bit) (mem_pool pf m) ≡ ret p') where
  pfree-own : pfree (frame_of (mem_pool pf m) bit) m ≡ ret (with_pool pf p' m)
  unfolding pfree
  pfree-own = rw (own_pool pf m bit sp l.inside).0 (rw e refl)

  removed : page_table_pte_remove v (with_pool pf p' m) ≡ after_page pf p' v m
  unfolding page_table_pte_remove
  removed = elim pf as (λ q. page_table_pte_remove v (with_pool q p' m) ≡ after_page q p' v m) [
    | pf_kernel ↦ refl
    | pf_user ↦ refl
  ]

  free_pages-suc :
      (left : ℕ)
      → free_pages (suc left) pf v m ≡ free_pages left pf (v + 4096) (after_page pf p' v m)
  unfolding free_pages
  free_pages-suc left =
      let at = addr_v2p-Leads pf m v bit sp.is al l in
      let step : (v + 4096) % 2 ^ 32 ≡ v + 4096 = omega arith in
      let (own, inside, low) = own_pool pf m bit sp l.inside in
      rw (at, inside, pfree-own, removed)
        (ap (λ a. free_pages left pf a (after_page pf p' v m)) step)

one_page :
    (pf : PoolFlags) (v bit : ℕ) (m : Memory)
    → IsSplit m
    → v < 0xffc00000
    → v % 4096 ≡ 0
    → bit < bit_cnt ((mem_pool pf m).pool_bitmap)
    → (p' : Pool) → IsPool p'
    → p'.phy_addr_start ≡ (mem_pool pf m).phy_addr_start
    → bit_cnt (p'.pool_bitmap) ≡ bit_cnt ((mem_pool pf m).pool_bitmap)
    → ((k : ℕ) → in_use p' k ≡ (if k == bit then false else in_use (mem_pool pf m) k))
    → FreeDone pf 1 (λ i. bit) m v (after_page pf p' v m)
one_page pf_kernel v bit m sp hv al h p' is start size now = record {
  split = record {
    is = record { kernel = is; user = sp.is.user };
    low = omega (arith, sp.low);
    split = omega (arith, sp.split);
  };
  start = start;
  size = size;
  gone = λ w a b. without-gone m.words v hv al w a (omega arith);
  kept = λ w hw out. without-kept m.words v hv al w hw out;
  dir = λ w. without-dir m.words v hv al w;
  freed = λ i k. ground (arith, now bit);
  others = λ j ne. ground (arith, now j, ne 0);
  stays = λ j f. ground (arith, now j);
  kernel_vaddr = refl;
  userprog_vaddr = refl;
}
one_page pf_user v bit m sp hv al h p' is start size now = record {
  split = record {
    is = record { kernel = sp.is.kernel; user = is };
    low = omega (arith, sp.low);
    split = omega (arith, sp.split);
  };
  start = start;
  size = size;
  gone = λ w a b. without-gone m.words v hv al w a (omega arith);
  kept = λ w hw out. without-kept m.words v hv al w hw out;
  dir = λ w. without-dir m.words v hv al w;
  freed = λ i k. ground (arith, now bit);
  others = λ j ne. ground (arith, now j, ne 0);
  stays = λ j f. ground (arith, now j);
  kernel_vaddr = refl;
  userprog_vaddr = refl;
}

module _ (pf : PoolFlags) (cnt : ℕ) (bits : ℕ → ℕ) (m m1 m' : Memory) (v : ℕ)
    (high : v + suc cnt * 4096 ≤ 0xffc00000) (p : FreeDone pf 1 (λ i. bits 0) m v m1)
    (r : FreeDone pf cnt (λ i. bits (suc i)) m1 (v + 4096) m') where
  gone_suc : (w : ℕ) → v ≤ w → w < v + suc cnt * 4096 → mapped m'.words w ≡ false
  gone_suc w a b = elim (Bool-cases (ltb w (v + 4096))) [
    | inl h ↦
        let k = r.kept w (omega arith) (inl (ground arith)) in
        let d = r.dir w in ground (arith, p.gone w a (ground arith))
    | inr h ↦ r.gone w (ground arith) (omega arith)
  ]

  freed_suc : (i : ℕ) → i < suc cnt → in_use (mem_pool pf m') (bits i) ≡ false
  freed_suc zero h = r.stays (bits 0) (p.freed 0 (omega arith))
  freed_suc (suc i) h = r.freed i (omega arith)

  one_more : FreeDone pf (suc cnt) bits m v m'
  one_more = record {
    split = r.split;
    start = r.start ∙ p.start;
    size = r.size ∙ p.size;
    gone = gone_suc;
    kept = λ w hw out. elim out [
      | inl a ↦ r.kept w hw (inl (omega arith)) ∙ p.kept w hw (inl a)
      | inr a ↦ r.kept w hw (inr (omega arith)) ∙ p.kept w hw (inr (omega arith))
    ];
    dir = λ w. r.dir w ∙ p.dir w;
    freed = freed_suc;
    others = λ j ne.
        r.others j (λ i h. ne (suc i) (omega arith)) ∙ p.others j (λ i h. ne 0 (omega arith));
    stays = λ j h. r.stays j (p.stays j h);
    kernel_vaddr = r.kernel_vaddr ∙ p.kernel_vaddr;
    userprog_vaddr = r.userprog_vaddr ∙ p.userprog_vaddr;
  }

free_page :
    (pf : PoolFlags) (v bit : ℕ) (m : Memory)
    → IsSplit m
    → v < 0xffc00000
    → v % 4096 ≡ 0
    → Leads pf m v bit
    → (m' : Memory) × ((left : ℕ) → free_pages (suc left) pf v m ≡ free_pages left pf (v + 4096) m')
      × FreeDone pf 1 (λ i. bit) m v m'
free_page pf v bit m sp hv al l =
    let (p', e, is, start, size, now) =
      release_frame_lem (mem_pool pf m) (IsPool-IsSplit pf m sp) bit l.inside in
    (
      after_page pf p' v m,
      free_pages-suc pf v bit m sp hv al l p' e,
      one_page pf v bit m sp hv al l.inside p' is start size now,
    )

no_page :
    (pf : PoolFlags) (bits : ℕ → ℕ) (m : Memory) (v : ℕ) → IsSplit m → FreeDone pf 0 bits m v m
no_page pf bits m v sp = record {
  split = sp;
  start = refl;
  size = refl;
  gone = λ w a b. absurd (omega arith);
  kept = λ w hw out. refl;
  dir = λ w. refl;
  freed = λ i h. absurd (omega arith);
  others = λ j ne. refl;
  stays = λ j h. h;
  kernel_vaddr = refl;
  userprog_vaddr = refl;
}

later-Leads :
    (pf : PoolFlags) (m m1 : Memory) (v w b : ℕ) (c : ℕ → ℕ)
    → FreeDone pf 1 c m v m1
    → w < 0xffc00000
    → v + 4096 ≤ w
    → Leads pf m w b
    → Leads pf m1 w b
later-Leads pf m m1 v w b c p hw h l = record {
  inside = omega (arith, l.inside, p.size);
  leads = p.kept w hw (inr (omega arith)) ∙ l.leads ∙ ap (λ s. entry (s + b * 4096)) (sym p.start);
}

pub free_pages_lem :
    (cnt : ℕ) (pf : PoolFlags) (bits : ℕ → ℕ) (v : ℕ) (m : Memory)
    → IsSplit m
    → v % 4096 ≡ 0
    → v + cnt * 4096 ≤ 0xffc00000
    → ((i : ℕ) → i < cnt → Leads pf m (v + i * 4096) (bits i))
    → (m' : Memory) × (free_pages cnt pf v m ≡ ret m') × FreeDone pf cnt bits m v m'
unfolding free_pages
free_pages_lem zero pf bits v m sp al high leads = (m, refl, no_page pf bits m v sp)
free_pages_lem (suc cnt) pf bits v m sp al high leads =
    let e : v + 0 * 4096 ≡ v = omega arith in
    let (m1, q, p) =
      free_page pf v (bits 0) m sp (omega arith) al (rw e at (leads 0 (omega arith))) in
    let (m', s, r) =
      free_pages_lem cnt pf (λ i. bits (suc i)) (v + 4096) m1 p.split (omega arith) (omega arith)
        (λ i h.
          let n : v + suc i * 4096 ≡ v + 4096 + i * 4096 = omega arith in
          later-Leads pf m m1 v (v + 4096 + i * 4096) (bits (suc i)) (λ i. bits 0) p (omega arith)
            (omega arith) (rw n at (leads (suc i) (omega arith)))) in
    (m', q cnt ∙ s, one_more pf cnt bits m m1 m' v high p r)

FreeDone-vaddrs :
    (pf : PoolFlags) (cnt : ℕ) (bits : ℕ → ℕ) (m m' : Memory) (v : ℕ)
    → FreeDone pf cnt bits m v m'
    → vaddrs pf m' ≡ vaddrs pf m
FreeDone-vaddrs pf_kernel cnt bits m m' v d = d.kernel_vaddr
FreeDone-vaddrs pf_user cnt bits m m' v d = d.userprog_vaddr

vaddr_remove_run :
    (pf : PoolFlags) (cnt s : ℕ) (m' : Memory) (vs : VirtualAddr) (b : Bitmap)
    → IsVaddrs vs
    → s + cnt ≤ bit_cnt (vs.vaddr_bitmap) + 1
    → 0 < cnt
    → vaddrs pf m' ≡ vs
    → set_bits cnt vs.vaddr_bitmap s 0 ≡ ret b
    → vaddr_remove pf (vs.vaddr_start + s * 4096) cnt m'
      ≡ ret (with_vaddrs pf (with_bitmap b vs) m')
unfolding vaddr_remove
vaddr_remove_run pf cnt s m' vs b ok inside pos same w =
    let idx : (vs.vaddr_start + s * 4096 + 2 ^ 32 - vs.vaddr_start) % 2 ^ 32 / 4096 ≡ s =
      omega (arith, ok.top) in
    rw (same, idx, w) refl

mfree_page_run :
    (pf : PoolFlags) (v cnt frame : ℕ) (m m' : Memory)
    → 0 < cnt
    → v % 4096 ≡ 0
    → addr_v2p v m ≡ frame
    → frame % 4096 ≡ 0
    → 0x102000 ≤ frame
    → pool_of_frame frame m ≡ pf
    → free_pages cnt pf v m ≡ ret m'
    → mfree_page pf v cnt m ≡ vaddr_remove pf v cnt m'
unfolding mfree_page
mfree_page_run pf v cnt frame m m' pos al at page low own q =
    let a : leb 1 cnt ≡ true = ground arith in
    let b : leb 0x102000 frame ≡ true = ground arith in rw (a, al, at, page, b, own, q) refl

-- mfree_page of one page or more from the address of bit `s` on, each of which leads to a frame of
-- its pool, when the pools are well formed with the kernel's frames between 0x102000 and the
-- user's, and the virtual addresses lie below the page tables: it returns; the pages are unmapped
-- and their frames free, the bits s, …, s + cnt - 1 of the virtual addresses are clear, and no
-- other page below the page tables, no other frame of the pool and no other bit changes.
pub mfree_page_lem :
    (pf : PoolFlags) (cnt s : ℕ) (bits : ℕ → ℕ) (m : Memory)
    → IsSplit m
    → IsVaddrs (vaddrs pf m)
    → 0 < cnt
    → s + cnt ≤ bit_cnt ((vaddrs pf m).vaddr_bitmap) + 1
    → ((i : ℕ) → i < cnt → Leads pf m ((vaddrs pf m).vaddr_start + s * 4096 + i * 4096) (bits i))
    → (b : Bitmap) × (m' : Memory) × (mfree_page pf ((vaddrs pf m).vaddr_start + s * 4096) cnt m
        ≡ ret (with_vaddrs pf (with_bitmap b (vaddrs pf m)) m'))
      × FreeDone pf cnt bits m ((vaddrs pf m).vaddr_start + s * 4096) m'
      × ((j : ℕ)
          → bitmap_scan_test b j ≡ (
              if leb s j && ltb j (s + cnt)
              then false
              else bitmap_scan_test ((vaddrs pf m).vaddr_bitmap) j))
mfree_page_lem pf cnt s bits m sp ok pos inside leads =
    let v = (vaddrs pf m).vaddr_start + s * 4096 in
    let e : v + 0 * 4096 ≡ v = omega arith in
    let al : v % 4096 ≡ 0 = omega (arith, ok.aligned) in
    let l : Leads pf m v (bits 0) = rw e at (leads 0 pos) in
    let at = addr_v2p-Leads pf m v (bits 0) sp.is al l in
    let (own, within, low) = own_pool pf m (bits 0) sp l.inside in
    let (page, top) = frame_top pf m (bits 0) sp.is l.inside in
    let (m', q, d) = free_pages_lem cnt pf bits v m sp al (omega (arith, ok.top)) leads in
    let (b, w, len, is, now) =
      set_bits_lem cnt ((vaddrs pf m).vaddr_bitmap) s 0 (omega arith) ok.bytes in
    (
      b,
      m',
      mfree_page_run pf v cnt _ m m' pos al at page low own q
          ∙ vaddr_remove_run pf cnt s m' (vaddrs pf m) b ok inside pos
              (FreeDone-vaddrs pf cnt bits m m' v d) w,
      d,
      now,
    )
