-- ===== src/Timer.antt =====
-- timer.c: how the clock chip is programmed, and for how many ticks msleep waits. The handler of the
-- tick is in Thread.
use Prim.Native.Nat.{bit_or}
use ukernel.Prelude.{ℕ, ◌*◌, ◌/◌, ◌%◌, ◌^◌, ltb, Outcome, ret, ◌>>◌, assert}

abbrev pub irq0_frequency : ℕ
irq0_frequency = 100

abbrev pub input_frequency : ℕ
input_frequency = 1193180

-- what is written to the control port, and to the counter's port first and second
pub record Programmed : Type 0 where
  pub control : ℕ
  pub first : ℕ
  pub second : ℕ

-- `(uint8_t)counter_value >> 8` casts before it shifts.
unfoldable pub frequency_set : (counter_no rwl counter_mode counter_value : ℕ) → Programmed
frequency_set counter_no rwl counter_mode counter_value = record {
  control = bit_or (bit_or (counter_no * 2 ^ 6) (rwl * 2 ^ 4)) (counter_mode * 2) % 256;
  first = counter_value % 256;
  second = counter_value % 256 / 2 ^ 8;
}

-- The counter is number 0, in mode 2, with its low byte written before its high byte.
unfoldable pub timer_init : Programmed
unfolding frequency_set
timer_init = frequency_set 0 3 2 (input_frequency / irq0_frequency)

-- The answer is the number of ticks that sleep_to_ticks waits for; each wait ends at a tick.
unfoldable pub msleep : (mseconds : ℕ) → Outcome ℕ
msleep mseconds = do let sleep_ticks = mseconds / 10; assert (ltb 0 sleep_ticks); ret sleep_ticks
