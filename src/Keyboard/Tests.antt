-- ===== src/Keyboard/Tests.antt =====
-- Examples for keyboard.c.
use raw_os.Common.{ℕ, ◌≡◌, refl, true, [], ◌∷◌, ok, arith}
use raw_os.Keyboard.{EventReceiverBuffer, Keyboard, keyboard_init}
use raw_os.Keyboard.Shift.{handle_all, keyboard_interrupt_handler-shift_after}

abbrev kerbs : ℕ → EventReceiverBuffer
kerbs p = record { buffer = 0 ∷ 0 ∷ []; buffer_capacity = 2; buffer_filled = 0; event_received = 0 }

-- Left shift is pressed, "a" is pressed and released, left shift is released, left control pressed.
keyboard_interrupt_handler-shift_after_example :
    (after : Keyboard) × (handle_all (keyboard_init kerbs) (0x2a ∷ 0x1e ∷ 0x9e ∷ 0xaa ∷ 0x1d ∷ [])
      ≡ ok after)
    × (after.shift_enabled ≡ true)
unfolding keyboard_init
keyboard_interrupt_handler-shift_after_example =
    keyboard_interrupt_handler-shift_after (keyboard_init kerbs)
      (0x2a ∷ 0x1e ∷ 0x9e ∷ 0xaa ∷ 0x1d ∷ []) refl tt
      (omega arith, (omega arith, (omega arith, (omega arith, (omega arith, tt)))))
