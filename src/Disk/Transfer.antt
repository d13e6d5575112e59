-- ===== src/Disk/Transfer.antt =====
-- ide_read and ide_write of ide.c transfer whole sectors, whatever their number.

use std.Path.{fun_ext}
use ukernel.Prelude.{
  lt→ltb, ℕ, zero, suc, ◌+◌, ◌-◌, ◌*◌, ◌/◌, ◌^◌, ◌≤◌, ◌<◌, ◌≡◌, refl, sym, ap, ◌∙◌, inl, inr, true,
  arith, ltb, leb, ◌==◌, Bool-cases, ret,
}
use ukernel.Disk.{
  max_lba, copy_bytes, Selected, select_sector, named_sector, size_in_byte, next_op, read_sectors,
  ide_read, write_sectors, ide_write,
}

pub le→leb : (a b : ℕ) → a ≤ b → leb a b ≡ true
le→leb a b h = ground arith

-- What select_sector writes for a sector of the disk.
select_sector-named :
    (dev_no lba sec_cnt : ℕ)
    → lba ≤ max_lba
    → (regs : Selected) × (select_sector dev_no lba sec_cnt ≡ ret regs) × (named_sector regs ≡ lba)
unfolding select_sector named_sector
select_sector-named dev_no lba sec_cnt inside =
    let low : lba / 2 ^ 24 ≡ 0 = omega arith in
    elim (Bool-cases (dev_no == 1)) [
      | inl e ↦ rw (le→leb lba max_lba inside, e, low) (_, refl, omega arith)
      | inr n ↦ rw (le→leb lba max_lba inside, n, low) (_, refl, omega arith)
    ]

module _ (src : ℕ → ℕ) (from : ℕ) (dst : ℕ → ℕ) (to size : ℕ) where
  pub copy_bytes_inside :
      (i : ℕ) → to ≤ i → i < to + size → copy_bytes src from dst to size i ≡ src (from + (i - to))
  unfolding copy_bytes
  copy_bytes_inside i lo hi = ground arith

  pub copy_bytes_below : (i : ℕ) → i < to → copy_bytes src from dst to size i ≡ dst i
  unfolding copy_bytes
  copy_bytes_below i lo = ground arith

  pub copy_bytes_above : (i : ℕ) → to + size ≤ i → copy_bytes src from dst to size i ≡ dst i
  unfolding copy_bytes
  copy_bytes_above i hi = ground arith

pub copy_bytes_nothing :
    (src : ℕ → ℕ) (from : ℕ) (dst : ℕ → ℕ) (to : ℕ) → copy_bytes src from dst to 0 ≡ dst
unfolding copy_bytes
copy_bytes_nothing src from dst to = fun_ext (λ i. ground arith)

-- One copy after another.
copy_bytes-append :
    (src : ℕ → ℕ) (from : ℕ) (dst : ℕ → ℕ) (to n m : ℕ)
    → copy_bytes src (from + n) (copy_bytes src from dst to n) (to + n) m
      ≡ copy_bytes src from dst to (n + m)
unfolding copy_bytes
copy_bytes-append src from dst to n m = fun_ext (λ i. elim (Bool-cases (leb (to + n) i)) [
  | inl e ↦
      let place : from + n + (i - (to + n)) ≡ from + (i - to) = ground arith in
      ground (arith, ap src place)
  | inr o ↦ ground arith
])

size_in_byte-next_op :
    (sec_cnt secs_done : ℕ)
    → secs_done < sec_cnt
    → size_in_byte (next_op sec_cnt secs_done) ≡ next_op sec_cnt secs_done * 512
unfolding size_in_byte next_op
size_in_byte-next_op sec_cnt secs_done more = ground arith

-- The next transfer is of at least one sector, and of no more than are left.
next_op_bounds :
    (sec_cnt secs_done : ℕ)
    → secs_done < sec_cnt
    → (0 < next_op sec_cnt secs_done) × (secs_done + next_op sec_cnt secs_done ≤ sec_cnt)
unfolding next_op
next_op_bounds sec_cnt secs_done more = (ground arith, ground arith)

-- A transfer and those after it are one copy.
copied_on :
    (src : ℕ → ℕ) (from : ℕ) (dst : ℕ → ℕ) (to left op : ℕ)
    → op ≤ left
    → copy_bytes src
        (from + op * 512)
        (copy_bytes src from dst to (op * 512))
        (to + op * 512)
        ((left - op) * 512)
      ≡ copy_bytes src from dst to (left * 512)
copied_on src from dst to left op inside =
    let all : op * 512 + (left - op) * 512 ≡ left * 512 = omega arith in
    copy_bytes-append src from dst to (op * 512) ((left - op) * 512)
    ∙ ap (copy_bytes src from dst to) all

module _ (sec_cnt secs_done op lba : ℕ) where
  place : (lba + secs_done) * 512 ≡ lba * 512 + secs_done * 512
  place = omega arith

  next_place : lba * 512 + (secs_done + op) * 512 ≡ (lba * 512 + secs_done * 512) + op * 512
  next_place = omega arith

  next_done : (secs_done + op) * 512 ≡ secs_done * 512 + op * 512
  next_done = omega arith

  next_left : sec_cnt - (secs_done + op) ≡ (sec_cnt - secs_done) - op
  next_left = omega arith

read_sectors_lem :
    (fuel dev_no : ℕ) (disk : ℕ → ℕ) (lba sec_cnt secs_done : ℕ) (buf : ℕ → ℕ)
    → lba + sec_cnt ≤ max_lba + 1
    → secs_done ≤ sec_cnt
    → sec_cnt ≤ secs_done + fuel
    → read_sectors fuel dev_no disk lba sec_cnt secs_done buf
      ≡ ret (
          copy_bytes disk
            (lba * 512 + secs_done * 512)
            buf
            (secs_done * 512)
            ((sec_cnt - secs_done) * 512))
unfolding read_sectors
read_sectors_lem zero dev_no disk lba sec_cnt secs_done buf inside done enough =
    let none_left : (sec_cnt - secs_done) * 512 ≡ 0 = omega arith in
    rw none_left
      (ap ret (sym (copy_bytes_nothing disk (lba * 512 + secs_done * 512) buf (secs_done * 512))))
read_sectors_lem (suc fuel) dev_no disk lba sec_cnt secs_done buf inside done enough =
    elim (Bool-cases (ltb secs_done sec_cnt)) [
      | inl e ↦
          let op = next_op sec_cnt secs_done in
          let more : secs_done < sec_cnt = ground arith in
          let (positive, fits) = next_op_bounds sec_cnt secs_done more in
          let (regs, chosen, named) =
            select_sector-named dev_no (lba + secs_done) op (omega arith) in
          let buf' =
            copy_bytes disk (lba * 512 + secs_done * 512) buf (secs_done * 512) (op * 512) in
          let ih =
            read_sectors_lem fuel dev_no disk lba sec_cnt (secs_done + op) buf' inside fits
              (omega arith) in
          let ih' =
            rw
              (
                next_place sec_cnt secs_done op lba,
                next_done sec_cnt secs_done op lba,
                next_left sec_cnt secs_done op lba,
              )
              at ih in
          rw
            (
              e,
              chosen,
              named,
              size_in_byte-next_op sec_cnt secs_done more,
              place sec_cnt secs_done op lba,
            )
            (ih'
              ∙ ap ret (
                  copied_on disk (lba * 512 + secs_done * 512) buf (secs_done * 512)
                    (sec_cnt - secs_done) op (omega arith)))
      | inr n ↦
          let none_left : (sec_cnt - secs_done) * 512 ≡ 0 = ground arith in
          rw (n, none_left)
            (ap ret
              (sym (copy_bytes_nothing disk (lba * 512 + secs_done * 512) buf (secs_done * 512))))
    ]

write_sectors_lem :
    (fuel dev_no : ℕ) (disk : ℕ → ℕ) (lba : ℕ) (buf : ℕ → ℕ) (sec_cnt secs_done : ℕ)
    → lba + sec_cnt ≤ max_lba + 1
    → secs_done ≤ sec_cnt
    → sec_cnt ≤ secs_done + fuel
    → write_sectors fuel dev_no disk lba buf sec_cnt secs_done
      ≡ ret (
          copy_bytes buf
            (secs_done * 512)
            disk
            (lba * 512 + secs_done * 512)
            ((sec_cnt - secs_done) * 512))
unfolding write_sectors
write_sectors_lem zero dev_no disk lba buf sec_cnt secs_done inside done enough =
    let none_left : (sec_cnt - secs_done) * 512 ≡ 0 = omega arith in
    rw none_left
      (ap ret (sym (copy_bytes_nothing buf (secs_done * 512) disk (lba * 512 + secs_done * 512))))
write_sectors_lem (suc fuel) dev_no disk lba buf sec_cnt secs_done inside done enough =
    elim (Bool-cases (ltb secs_done sec_cnt)) [
      | inl e ↦
          let op = next_op sec_cnt secs_done in
          let more : secs_done < sec_cnt = ground arith in
          let (positive, fits) = next_op_bounds sec_cnt secs_done more in
          let (regs, chosen, named) =
            select_sector-named dev_no (lba + secs_done) op (omega arith) in
          let disk' =
            copy_bytes buf (secs_done * 512) disk (lba * 512 + secs_done * 512) (op * 512) in
          let ih =
            write_sectors_lem fuel dev_no disk' lba buf sec_cnt (secs_done + op) inside fits
              (omega arith) in
          let ih' =
            rw
              (
                next_place sec_cnt secs_done op lba,
                next_done sec_cnt secs_done op lba,
                next_left sec_cnt secs_done op lba,
              )
              at ih in
          rw
            (
              e,
              chosen,
              named,
              size_in_byte-next_op sec_cnt secs_done more,
              place sec_cnt secs_done op lba,
            )
            (ih'
              ∙ ap ret (
                  copied_on buf (secs_done * 512) disk (lba * 512 + secs_done * 512)
                    (sec_cnt - secs_done) op (omega arith)))
      | inr n ↦
          let none_left : (sec_cnt - secs_done) * 512 ≡ 0 = ground arith in
          rw (n, none_left)
            (ap ret
              (sym (copy_bytes_nothing buf (secs_done * 512) disk (lba * 512 + secs_done * 512))))
    ]

-- On a drive that ends its transfers, for one sector or more, all of them on the disk, ide_read
-- leaves in the buffer the bytes of the sectors from `lba` on, and what stood behind them.
pub ide_read-copy_bytes :
    (dev_no : ℕ) (disk : ℕ → ℕ) (lba : ℕ) (buf : ℕ → ℕ) (sec_cnt : ℕ)
    → 0 < sec_cnt
    → lba + sec_cnt ≤ max_lba + 1
    → ide_read dev_no disk lba buf sec_cnt ≡ ret (copy_bytes disk (lba * 512) buf 0 (sec_cnt * 512))
unfolding ide_read
ide_read-copy_bytes dev_no disk lba buf sec_cnt some_left inside =
    let start : lba * 512 + 0 * 512 ≡ lba * 512 = omega arith in
    let whole : sec_cnt - 0 ≡ sec_cnt = omega arith in
    let all =
      read_sectors_lem sec_cnt dev_no disk lba sec_cnt 0 buf inside (omega arith) (omega arith) in
    rw (le→leb lba max_lba (omega arith), lt→ltb 0 sec_cnt some_left) (rw (start, whole) at all)

-- On a drive that ends its transfers, for one sector or more, all of them on the disk, ide_write
-- replaces the bytes of the sectors from `lba` on by those of the buffer and changes nothing else on
-- the disk.
pub ide_write-copy_bytes :
    (dev_no : ℕ) (disk : ℕ → ℕ) (lba : ℕ) (buf : ℕ → ℕ) (sec_cnt : ℕ)
    → 0 < sec_cnt
    → lba + sec_cnt ≤ max_lba + 1
    → ide_write dev_no disk lba buf sec_cnt
      ≡ ret (copy_bytes buf 0 disk (lba * 512) (sec_cnt * 512))
unfolding ide_write
ide_write-copy_bytes dev_no disk lba buf sec_cnt some_left inside =
    let start : lba * 512 + 0 * 512 ≡ lba * 512 = omega arith in
    let whole : sec_cnt - 0 ≡ sec_cnt = omega arith in
    let all =
      write_sectors_lem sec_cnt dev_no disk lba buf sec_cnt 0 inside (omega arith) (omega arith) in
    rw (le→leb lba max_lba (omega arith), lt→ltb 0 sec_cnt some_left) (rw (start, whole) at all)
