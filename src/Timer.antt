-- ===== src/Timer.antt =====
-- timer.c: the handler of the timer's interrupt, and the programming of the timer.
pub mod Ticks
mod Tests
use raw_os.Common.{
  ℕ, zero, suc, ◌+◌, ◌/◌, ◌%◌, ◌^◌, bit_and, Bool, true, false, List, [], ◌∷◌, ◌==◌, if◌then◌else◌,
}

-- The new value of the static variable `tick`, and whether `process_switch` is called.
unfoldable pub timer_interrupt_handler : ℕ → ℕ × Bool
timer_interrupt_handler tick = let next = (tick + 1) % 2 ^ 32 in (next, next % 100 == 0)

-- The ports and the bytes written to them.
unfoldable pub timer_init : List (ℕ × ℕ)
timer_init =
    let divisor = 1193180 / 100 in
    (0x43, 0x36) ∷ (0x40, bit_and divisor 0xFF) ∷ (0x40, bit_and (divisor / 2 ^ 8) 0xFF) ∷ []
