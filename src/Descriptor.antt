-- ===== src/Descriptor.antt =====
-- The descriptors of fs.c and pipe.c: fd_local2global, is_pipe, sys_close, sys_lseek and
-- sys_fd_redirect, over the state of Inode. A descriptor and an offset are int32_t, kept as their
-- words below 2 ^ 32. Places of fd_table past its eight are the memory behind it. The page of a
-- pipe that is closed goes back to the memory manager, which Memory models.
pub mod Seek
pub mod Close
mod Tests
use ukernel.Prelude.{
  ℕ, zero, suc, ◌+◌, ◌-◌, ◌*◌, ◌/◌, ◌%◌, ◌^◌, Bool, true, false, not, ◌&&◌, ◌||◌, Option, none,
  some, ltb, leb, ◌==◌, if◌then◌else◌, update,
}
use ukernel.Inode.{Inode, File, Fs}
use ukernel.File.{
  Action, ◌>>=◌, ◌>>◌, done, minus_one, halted, give, state, reject_if, check, put_file, file_close,
}

-- #define PIPE_FLAG
abbrev pub pipe_flag : ℕ
pipe_flag = 0xffff

-- whether a word is a negative int32_t
abbrev pub negative : ℕ → Bool
negative word = leb (2 ^ 31) word

-- a > b on int32_t
abbrev pub greater : ℕ → ℕ → Bool
greater a b = ltb ((b + 2 ^ 31) % 2 ^ 32) ((a + 2 ^ 31) % 2 ^ 32)

-- ASSERT(global_fd >= 0 && global_fd < MAX_FILE_OPEN)
abbrev pub as_global : Option ℕ → Action ℕ
as_global none fs = halted
as_global (some global_fd) fs = (check (ltb global_fd 32) >> give global_fd) fs

unfoldable pub fd_local2global : (local_fd : ℕ) → Action ℕ
fd_local2global local_fd = do fs ← state; as_global (fs.fd_table local_fd)

unfoldable pub is_pipe : (local_fd : ℕ) → Action Bool
is_pipe local_fd = do
  global_fd ← fd_local2global local_fd
  fs ← state
  give ((fs.file_table global_fd).fd_flag == pipe_flag)

-- if (--file_table[global_fd].fd_pos == 0) ..., and ret = 0
unfoldable pub drop_pipe : (global_fd : ℕ) → Action ℕ
drop_pipe global_fd = do
  fs ← state
  let file = fs.file_table global_fd
  let left = (file.fd_pos + (2 ^ 32 - 1)) % 2 ^ 32
  put_file global_fd (
      if left == 0
      then record file { fd_pos = left; fd_inode = 0 }
      else record file { fd_pos = left })
  give 0

abbrev pub put_fd : (fd : ℕ) → Option ℕ → Action (Unit {0})
put_fd fd global fs = done tt (record fs { fd_table = update fs.fd_table fd global })

unfoldable pub sys_close : (fd : ℕ) → Action ℕ
sys_close fd = do
  reject_if (not (greater fd 2))
  global_fd ← fd_local2global fd
  pipe ← is_pipe fd
  result ← (if pipe then drop_pipe global_fd else file_close (some global_fd))
  put_fd fd none
  give result

-- new_pos, by `whence`
unfoldable pub seek_pos : (whence fd_pos file_size offset : ℕ) → ℕ
seek_pos whence fd_pos file_size offset =
    if whence == 1
    then offset
    else if whence == 2
    then (fd_pos + offset) % 2 ^ 32
    else (file_size + offset) % 2 ^ 32

unfoldable pub sys_lseek : (fd offset whence : ℕ) → Action ℕ
sys_lseek fd offset whence = do
  reject_if (negative fd)
  check (ltb 0 whence && ltb whence 4)
  slot ← fd_local2global fd
  fs ← state
  let pf = fs.file_table slot
  let file_size = (fs.inodes pf.fd_inode).i_size
  let new_pos = seek_pos whence pf.fd_pos file_size offset
  reject_if (negative new_pos || greater new_pos ((file_size + (2 ^ 32 - 1)) % 2 ^ 32))
  put_file slot (record pf { fd_pos = new_pos })
  give new_pos

unfoldable pub sys_fd_redirect : (old_local_fd new_local_fd : ℕ) → Action (Unit {0})
sys_fd_redirect old_local_fd new_local_fd = do
  fs ← state
  put_fd old_local_fd (if ltb new_local_fd 3 then some new_local_fd else fs.fd_table new_local_fd)
