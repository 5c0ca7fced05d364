-- ===== src/Interrupt/Tests.antt =====
-- Examples for interrupt.c.
use raw_os.Common.{ℕ, ◌+◌, ◌*◌, ◌≡◌, refl, List, [], ◌∷◌, Option, ok, arith}
use raw_os.Interrupt.{
  idt_set_descriptor, idt_interrupt_gate_flags, Stub, isr, irq, IdtState, interrupt_init, called,
  signal, ending, null_handlers, isr_handler, irq_handler, byte_out,
}
use raw_os.Interrupt.Table.{interrupt_init-gates}
use raw_os.Interrupt.Dispatch.{
  entry_of, interrupt_init-entry, register_all, interrupt_register_handler-reached,
}

-- Each routine of the assembly code takes 16 bytes, from 1 MB on.
abbrev address : Stub → ℕ
address (isr n) = 0x100000 + 16 * n
address (irq n) = 0x102000 + 16 * n

abbrev start : IdtState
start = record {
  descriptors =
      λ i. record { offset_low = 0; selector = 0; always0 = 0; flags = 0; offset_high = 0 };
  limit = 0;
  base = 0;
}

interrupt_init-gates_example :
    (interrupt_init address start).0.descriptors 33
    ≡ idt_set_descriptor 0x102010 0x08 idt_interrupt_gate_flags
interrupt_init-gates_example = interrupt_init-gates address start 33

-- Vector 9 has no gate.
interrupt_init-gap : (interrupt_init address start).0.descriptors 9 ≡ start.descriptors 9
interrupt_init-gap = interrupt_init-gates address start 9

interrupt_init-entry_example : entry_of ((interrupt_init address start).0.descriptors 14) ≡ 0x1000e0
interrupt_init-entry_example = interrupt_init-entry address start 14 refl (omega arith)

-- Two handlers for 44, and one for 32.
abbrev three_calls : List (ℕ × ℕ)
three_calls = (44, 5) ∷ (32, 6) ∷ (44, 7) ∷ []

interrupt_register_handler-reached_example :
    (hs : List (Option ℕ)) × (register_all three_calls (null_handlers 256) ≡ ok hs)
    × (isr_handler hs 44 ≡ ok (called 7))
    × (irq_handler hs 44
        ≡ ok (signal (byte_out 0xa0 0x20) ∷ signal (byte_out 0x20 0x20) ∷ ending (called 7) ∷ []))
interrupt_register_handler-reached_example =
    interrupt_register_handler-reached three_calls 44
      (omega arith, (omega arith, (omega arith, tt))) (omega arith)
