-- ===== src/Interrupt.antt =====
-- interrupt.c: the interrupt descriptor table, the remapping of the two interrupt controllers, and
-- the dispatch to the registered handlers.
pub mod Table
pub mod Dispatch
mod Tests
use raw_os.Common.{
  ℕ, zero, suc, ◌+◌, ◌-◌, ◌*◌, ◌/◌, ◌%◌, ◌^◌, bit_or, Bool, true, false, List, [], ◌∷◌, ◌++◌,
  Option, some, none, Outcome, ok, fault, ◌>>=◌, ltb, leb, ◌==◌, if◌then◌else◌, get_elem?, set,
  length,
}

pub record IdtDescriptor : Type 0 where
  pub offset_low : ℕ
  pub selector : ℕ
  pub always0 : ℕ
  pub flags : ℕ
  pub offset_high : ℕ

abbrev pub idt_interrupt_gate_flags : ℕ
idt_interrupt_gate_flags = 0b10001110

-- The parameters `selector` and `flags` are not used by the code.
unfoldable pub idt_set_descriptor : ℕ → ℕ → ℕ → IdtDescriptor
idt_set_descriptor base selector flags = record {
  offset_low = base % 2 ^ 16;
  selector = 0x08;
  always0 = 0;
  flags = bit_or idt_interrupt_gate_flags 0x60;
  offset_high = base / 2 ^ 16 % 2 ^ 16;
}

-- The assembly routines `interrupt_isr<n>` and `interrupt_irq<n>`.
pub data Stub : Type 0 where
  isr : ℕ → Stub
  irq : ℕ → Stub

-- `n` calls of `idt_set_descriptor` in a row, from the vector `v` on.
unfoldable pub isr_calls : ℕ → ℕ → List (ℕ × Stub)
isr_calls v zero = []
isr_calls v (suc n) = (v, isr v) ∷ isr_calls (v + 1) n

unfoldable pub irq_calls : ℕ → ℕ → List (ℕ × Stub)
irq_calls v zero = []
irq_calls v (suc n) = (v, irq (v - 32)) ∷ irq_calls (v + 1) n

-- All the calls of `interrupt_init`, in order. Vectors 8, 18 and 28 are set twice.
unfoldable pub idt_calls : List (ℕ × Stub)
idt_calls =
    isr_calls 0 9
    ++ ((8, isr 8) ∷ isr_calls 10 9
        ++ ((18, isr 18) ∷ isr_calls 20 9
            ++ ((28, isr 28) ∷ isr_calls 30 2 ++ (irq_calls 32 15 ++ isr_calls 47 209))))

-- The table is an array in memory; `address` gives the place of each assembly routine.
abbrev pub Idt : Type 0
Idt = ℕ → IdtDescriptor

unfoldable pub set_descriptors : (Stub → ℕ) → List (ℕ × Stub) → Idt → Idt
set_descriptors address [] idt = idt
set_descriptors address ((v, stub) ∷ calls) idt =
    set_descriptors address calls
      λ i. if i == v then idt_set_descriptor (address stub) 0x08 idt_interrupt_gate_flags else idt i

-- What the kernel does to the machine: a byte written to a port, or a privileged instruction.
pub data Effect : Type 0 where
  byte_out : ℕ → ℕ → Effect
  idt_flush : ℕ → Effect
  enable : Effect

unfoldable pub pic_remap : List Effect
pic_remap =
    byte_out 0x20 0x11
    ∷ byte_out 0xa0 0x11
    ∷ byte_out 0x21 0x20
    ∷ byte_out 0xa1 0x28
    ∷ byte_out 0x21 0x4
    ∷ byte_out 0xa1 0x2
    ∷ byte_out 0x21 0x1
    ∷ byte_out 0xa1 0x1
    ∷ byte_out 0x21 0x0
    ∷ byte_out 0xa1 0x0
    ∷ []

pub record IdtState : Type 0 where
  pub descriptors : Idt
  pub limit : ℕ
  pub base : ℕ

abbrev pub idt_descriptors_len : ℕ
idt_descriptors_len = 8 * 256

unfoldable pub interrupt_init : (Stub → ℕ) → IdtState → IdtState × List Effect
interrupt_init address s = (
  record {
    descriptors = set_descriptors address idt_calls s.descriptors;
    limit = idt_descriptors_len - 1;
    base = 0;
  },
  pic_remap ++ idt_flush (0 + idt_descriptors_len) ∷ enable ∷ [],
)

-- How an interrupt ends: its handler, a function pointer, is called, or a message with its number
-- is printed.
pub data Ending (H : Type 0) : Type 0 where
  called : H → Ending H
  unhandled : ℕ → Ending H

-- What a hardware interrupt does, step by step: it writes to a port, or ends.
pub data Step (H : Type 0) : Type 0 where
  signal : Effect → Step H
  ending : Ending H → Step H

module _ {H : Type 0} where
  -- The array as it is before any call, with null pointers.
  unfoldable pub null_handlers : ℕ → List (Option H)
  null_handlers zero = []
  null_handlers (suc n) = none ∷ null_handlers n

  -- `interrupt_handlers[n] = handler`, undefined outside of the array.
  unfoldable pub interrupt_register_handler : List (Option H) → H → ℕ → Outcome (List (Option H))
  interrupt_register_handler handlers handler n =
      if ltb n (length handlers) then ok (set handlers n (some handler)) else fault

  -- The test of the pointer read from the array, which ends both handlers.
  unfoldable pub dispatch : Option (Option H) → ℕ → Outcome (Ending H)
  dispatch none int_no = fault
  dispatch (some none) int_no = ok (unhandled int_no)
  dispatch (some (some h)) int_no = ok (called h)

  unfoldable pub isr_handler : List (Option H) → ℕ → Outcome (Ending H)
  isr_handler handlers int_no = dispatch (get_elem? handlers int_no) int_no

  -- The steps in the code's order: the end of the interrupt is signalled, to the slave if it was its
  -- interrupt, and to the master; then the array is read and the handler runs.
  unfoldable pub irq_handler : List (Option H) → ℕ → Outcome (List (Step H))
  irq_handler handlers int_no = dispatch (get_elem? handlers int_no) int_no >>= λ e. ok (
      (if leb 0x28 int_no then signal (byte_out 0xa0 0x20) ∷ [] else [])
      ++ signal (byte_out 0x20 0x20) ∷ ending e ∷ [])
