-- ===== src/Timer/Tests.antt =====
-- An example for timer.c.
use raw_os.Common.{◌≡◌, arith}
use raw_os.Timer.Ticks.{switches, timer_interrupt_handler-switches}

timer_interrupt_handler-switches_example : switches 250 60 ≡ 3
timer_interrupt_handler-switches_example = timer_interrupt_handler-switches 250 60 (omega arith)
