-- ===== src/Disk/Tests.antt =====
-- ide.c at concrete inputs.
use ukernel.Prelude.{ℕ, ◌≡◌, refl, ret, arith}
use ukernel.Disk.{copy_bytes, ide_read, ide_write}
use ukernel.Disk.Transfer.{ide_read-copy_bytes, ide_write-copy_bytes}
use ukernel.Disk.Timeout.{clocks_per_tick}
use ukernel.Timer.{frequency_set, timer_init}

-- a disk whose byte `i` is i, a buffer of zeros
abbrev counted : ℕ → ℕ
counted i = i

abbrev blank : ℕ → ℕ
blank i = 0

-- three transfers: 256, 256 and 88 sectors
ide_read-copy_bytes_example :
    ide_read 1 counted 7 blank 600 ≡ ret (copy_bytes counted 3584 blank 0 307200)
ide_read-copy_bytes_example = ide_read-copy_bytes 1 counted 7 blank 600 (omega arith) (omega arith)

ide_write-copy_bytes_example :
    ide_write 0 counted 163839 blank 1 ≡ ret (copy_bytes blank 0 counted 83885568 512)
ide_write-copy_bytes_example =
    ide_write-copy_bytes 0 counted 163839 blank 1 (omega arith) (omega arith)

-- The counter's high byte stays 0: 155 clocks a tick, not 11931.
timer_init-clocks : clocks_per_tick timer_init ≡ 155
unfolding timer_init frequency_set
timer_init-clocks = refl
