-- ===== src/Timer/Ticks.antt =====
-- How often the timer switches processes.
use raw_os.Common.{
  ℕ, zero, suc, ◌+◌, ◌-◌, ◌/◌, ◌%◌, ◌^◌, ◌<◌, ◌≡◌, true, false, ◌==◌, if◌then◌else◌, arith,
  Bool-cases, inl, inr,
}
use raw_os.Timer.{timer_interrupt_handler}

-- The number of calls of `process_switch` in `n` interrupts from a value of `tick` on.
abbrev pub switches : ℕ → ℕ → ℕ
switches zero tick = 0
switches (suc n) tick =
    let r = timer_interrupt_handler tick in if r.1 then suc (switches n r.0) else switches n r.0

no_wrap : (tick : ℕ) → tick + 1 < 2 ^ 32 → (tick + 1) % 2 ^ 32 ≡ tick + 1
no_wrap tick lt = omega arith

hundred :
    (tick n : ℕ)
    → ((tick + 1) % 100 == 0) ≡ true
    → suc ((tick + 1 + n) / 100 - (tick + 1) / 100) ≡ (tick + suc n) / 100 - tick / 100
hundred tick n e = ground arith

other :
    (tick n : ℕ)
    → ((tick + 1) % 100 == 0) ≡ false
    → (tick + 1 + n) / 100 - (tick + 1) / 100 ≡ (tick + suc n) / 100 - tick / 100
other tick n e = ground arith

-- From a value of `tick` on, `n` interrupts switch processes once for each multiple of 100 that
-- `tick` reaches, as long as it does not wrap around.
pub timer_interrupt_handler-switches :
    (n tick : ℕ) → tick + n < 2 ^ 32 → switches n tick ≡ (tick + n) / 100 - tick / 100
unfolding timer_interrupt_handler
timer_interrupt_handler-switches zero tick lt = omega arith
timer_interrupt_handler-switches (suc n) tick lt =
    let ih = timer_interrupt_handler-switches n (tick + 1) (omega arith) in
    rw (no_wrap tick (omega arith)) (elim (Bool-cases ((tick + 1) % 100 == 0)) [
      | inl e ↦ rw (e, ih) (hundred tick n e)
      | inr e ↦ rw (e, ih) (other tick n e)
    ])
