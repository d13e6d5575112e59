-- ===== src/File.antt =====
-- file.c and file.h over the state of Inode: the tables of open files, the allocation of blocks and
-- inodes, opening and closing, file_write and file_read. A routine is an action on the state; where
-- the source returns -1 the action ends with `minus_one`, at a failed ASSERT with `halted`. `slot`
-- stands for &file_table[slot].
pub mod Write
pub mod Read
pub mod Release
pub mod Tables
pub mod Content
pub mod Reading
pub mod Chunk
pub mod Appending
mod Tests
use ukernel.Prelude.{
  ℕ, zero, suc, ◌+◌, ◌-◌, ◌*◌, ◌/◌, ◌%◌, ◌^◌, Bool, true, false, not, ◌&&◌, ◌||◌, Option, none,
  some, ltb, leb, ◌==◌, if◌then◌else◌, update, Outcome, ret, panic, ◌≡◌, ap,
}
use ukernel.Bitmap.{Bitmap, bitmap_scan, bitmap_set}
use ukernel.Disk.{ide_write}
use ukernel.Inode.{Inode, File, Fs, sys_malloc, inode_open, inode_close}

-- how a routine ends
pub data Result (A : Type 0) : Type 0 where
  done : A → Fs → Result A
  minus_one : Fs → Result A
  halted : Result A

abbrev pub Action : Type 0 → Type 0
Action A = Fs → Result A

-- what comes after a routine
abbrev pub follow : {A B : Type 0} → Result A → (A → Action B) → Result B
follow (done a fs) f = f a fs
follow (minus_one fs) f = minus_one fs
follow halted f = halted

infixl 5 ◌>>=◌ ◌>>◌
abbrev pub ◌>>=◌ : {A B : Type 0} → Action A → (A → Action B) → Action B
(m >>= f) fs = follow (m fs) f

-- A routine that goes on is followed by what comes next.
pub bind_done :
    {A B : Type 0} (m : Action A) (f : A → Action B) (fs : Fs) {a : A} {fs' : Fs}
    → m fs ≡ done a fs'
    → (m >>= f) fs ≡ f a fs'
bind_done m f fs e = ap (λ r. follow r f) e

-- A routine that returns -1 ends its caller's do block.
pub bind_minus_one :
    {A B : Type 0} (m : Action A) (f : A → Action B) (fs : Fs) {fs' : Fs}
    → m fs ≡ minus_one fs'
    → (m >>= f) fs ≡ minus_one fs'
bind_minus_one m f fs e = ap (λ r. follow r f) e

abbrev pub ◌>>◌ : {B : Type 0} → Action (Unit {0}) → Action B → Action B
m >> k = m >>= λ _. k

abbrev pub give : {A : Type 0} → A → Action A
give a fs = done a fs

abbrev pub state : Action Fs
state fs = done fs fs

abbrev pub change : (Fs → Fs) → Action (Unit {0})
change f fs = done tt (f fs)

-- return -1 where the test holds
abbrev pub reject_if : Bool → Action (Unit {0})
reject_if true fs = minus_one fs
reject_if false fs = done tt fs

-- ASSERT(condition)
abbrev pub check : Bool → Action (Unit {0})
check true fs = done tt fs
check false fs = halted

-- a routine of another part, which the state does not follow
abbrev pub lift : {A : Type 0} → Outcome A → Action A
lift (ret a) fs = done a fs
lift panic fs = halted

-- sys_malloc, `return -1` where it answers NULL
unfoldable pub malloc : Action ℕ
malloc fs = let (a, fs') = sys_malloc fs in if a == 0 then minus_one fs' else done a fs'

abbrev pub max_file_open : ℕ
max_file_open = 32

abbrev pub max_files_open_per_proc : ℕ
max_files_open_per_proc = 8

-- the walk from `idx`, with `left` places to go; `none` is -1
unfoldable pub free_from : (left idx : ℕ) → (ℕ → Bool) → Option ℕ
free_from zero idx free = none
free_from (suc left) idx free =
    let rest = free_from left (idx + 1) free in if free idx then some idx else rest

unfoldable pub get_free_slot_in_global : Fs → Option ℕ
get_free_slot_in_global fs = free_from 29 3 (λ fd_idx. (fs.file_table fd_idx).fd_inode == 0)

abbrev pub is_minus_one : Option ℕ → Bool
is_minus_one none = true
is_minus_one (some n) = false

-- `globa_fd_idx` may be -1, which is `none`.
unfoldable pub pcb_fd_install : (globa_fd_idx : Option ℕ) → Action ℕ
pcb_fd_install globa_fd_idx fs =
    elim (free_from 5 3 (λ local_fd_idx. is_minus_one (fs.fd_table local_fd_idx))) [
      | none ↦ minus_one fs
      | some local_fd_idx ↦
          done local_fd_idx (record fs { fd_table = update fs.fd_table local_fd_idx globa_fd_idx })
    ]

unfoldable pub inode_bitmap_alloc : Action ℕ
inode_bitmap_alloc fs = elim (bitmap_scan fs.inode_bitmap 1) [
  | panic ↦ halted
  | ret none ↦ minus_one fs
  | ret (some bit_idx) ↦ elim (bitmap_set fs.inode_bitmap bit_idx 1) [
    | panic ↦ halted
    | ret b ↦ done bit_idx (record fs { inode_bitmap = b })
  ]
]

unfoldable pub block_bitmap_alloc : Action ℕ
block_bitmap_alloc fs = elim (bitmap_scan fs.block_bitmap 1) [
  | panic ↦ halted
  | ret none ↦ minus_one fs
  | ret (some bit_idx) ↦ elim (bitmap_set fs.block_bitmap bit_idx 1) [
    | panic ↦ halted
    | ret b ↦ done (fs.part.data_start_lba + bit_idx) (record fs { block_bitmap = b })
  ]
]

-- enum bitmap_type
pub data BitmapType : Type 0 where
  inode_map block_map : BitmapType

-- the sector of the disk, and the bytes that go there
unfoldable pub sync_place : Fs → (off_sec : ℕ) → BitmapType → ℕ × (ℕ → ℕ)
sync_place fs off_sec inode_map =
    (fs.part.inode_bitmap_lba + off_sec, λ i. fs.inode_bitmap.bits (off_sec * 512 + i))
sync_place fs off_sec block_map =
    (fs.part.block_bitmap_lba + off_sec, λ i. fs.block_bitmap.bits (off_sec * 512 + i))

abbrev pub put_disk : (ℕ → ℕ) → Action (Unit {0})
put_disk disk fs = done tt (record fs { disk = disk })

unfoldable pub bitmap_sync : (bit_idx : ℕ) → BitmapType → Action (Unit {0})
bitmap_sync bit_idx btmp_type = do
  fs ← state
  let (sec_lba, bitmap_off) = sync_place fs (bit_idx / 4096) btmp_type
  disk ← lift (ide_write fs.part.dev_no fs.disk sec_lba bitmap_off 1)
  put_disk disk

abbrev pub put_inode : (addr : ℕ) → Inode → Action (Unit {0})
put_inode addr inode fs = done tt (record fs { inodes = update fs.inodes addr inode })

abbrev pub put_file : (slot : ℕ) → File → Action (Unit {0})
put_file slot file fs = done tt (record fs { file_table = update fs.file_table slot file })

-- inode_open as an action
abbrev pub opened : Outcome (ℕ × Fs) → Result ℕ
opened (ret (addr, fs)) = done addr fs
opened panic = halted

-- get_free_slot_in_global, `return -1` where it answers -1
abbrev pub free_slot : Option ℕ → Action ℕ
free_slot none fs = minus_one fs
free_slot (some fd_idx) fs = done fd_idx fs

-- if (flag == O_WRONLY || flag == O_RDWR) ..., with interrupts off. The flag is a uint8_t.
unfoldable pub claim_write : (addr flag : ℕ) → Action (Unit {0})
claim_write addr flag = do
  fs ← state
  let inode = fs.inodes addr
  let writes = (flag == 1) || (flag == 2)
  reject_if (writes && not (inode.write_deny == 0))
  put_inode addr (if writes then record inode { write_deny = 1 } else inode)

unfoldable pub file_open : (inode_no flag : ℕ) → Action ℕ
file_open inode_no flag = do
  fs ← state
  fd_idx ← free_slot (get_free_slot_in_global fs)
  addr ← (λ fs1. opened (inode_open fs1 inode_no))
  put_file fd_idx (record { fd_pos = 0; fd_flag = flag; fd_inode = addr })
  claim_write addr flag
  pcb_fd_install (some fd_idx)

-- `none` is a NULL file.
unfoldable pub file_close : Option ℕ → Action ℕ
file_close none fs = minus_one fs
file_close (some slot) fs =
    let file = fs.file_table slot in
    let addr = file.fd_inode in
    let allowed = record fs {
      inodes = update fs.inodes addr (record (fs.inodes addr) { write_deny = 0 });
    } in
    let closed = inode_close allowed addr in
    done 0
      (record closed { file_table = update closed.file_table slot (record file { fd_inode = 0 }) })
