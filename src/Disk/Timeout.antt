-- ===== src/Disk/Timeout.antt =====
-- How long busy_wait of ide.c waits.
use ukernel.Prelude.{ℕ, ◌+◌, ◌*◌}
use ukernel.Timer.{Programmed}

-- the clocks of a tick: the chip takes the first byte as the low one, the second as the high one
abbrev pub clocks_per_tick : Programmed → ℕ
clocks_per_tick p = p.first + 256 * p.second
