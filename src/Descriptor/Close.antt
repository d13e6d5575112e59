-- ===== src/Descriptor/Close.antt =====
-- sys_close of fs.c on an open file and on a descriptor that is not open.
use ukernel.Prelude.{ℕ, ◌^◌, ◌<◌, ◌≡◌, refl, false, not, arith, none}
use ukernel.Inode.{Fs}
use ukernel.File.{halted}
use ukernel.Descriptor.{fd_local2global, sys_close, greater}

above_two : (fd : ℕ) → 2 < fd → fd < 2 ^ 31 → not (greater fd 2) ≡ false
above_two fd lo hi = ground arith

-- On a descriptor above 2 that is not open, sys_close does not return -1: an ASSERT stops the kernel.
sys_close-closed :
    (fs : Fs) (fd : ℕ) → 2 < fd → fd < 2 ^ 31 → fs.fd_table fd ≡ none → sys_close fd fs ≡ halted
unfolding sys_close fd_local2global
sys_close-closed fs fd lo hi closed = rw (above_two fd lo hi, closed) refl
