-- ===== src/Interrupt/Table.antt =====
-- Which gates `interrupt_init` leaves in the table.
use raw_os.Common.{
  ℕ, zero, suc, ◌+◌, ◌-◌, ◌≡◌, refl, ◌∙◌, Bool, ◌&&◌, List, [], ◌∷◌, ◌++◌, ltb, leb, ◌==◌,
  if◌then◌else◌, arith,
}
use raw_os.Interrupt.{
  IdtDescriptor, idt_interrupt_gate_flags, idt_set_descriptor, Stub, isr, irq, isr_calls, irq_calls,
  idt_calls, Idt, set_descriptors, IdtState, interrupt_init,
}
use raw_os.Common.{not}

-- The routine meant for a vector: 32 to 46 are hardware interrupts.
abbrev pub stub_of : ℕ → Stub
stub_of v = if leb 32 v && ltb v 47 then irq (v - 32) else isr v

-- The vectors that are set; 9, 19 and 29 are not.
abbrev pub is_set : ℕ → Bool
is_set v = ltb v 256 && not (v == 9) && not (v == 19) && not (v == 29)

module _ (address : Stub → ℕ) where
  abbrev gate : Stub → IdtDescriptor
  gate stub = idt_set_descriptor (address stub) 0x08 idt_interrupt_gate_flags

  set_descriptors-append :
      (xs ys : List (ℕ × Stub)) (idt : Idt)
      → set_descriptors address (xs ++ ys) idt
        ≡ set_descriptors address ys (set_descriptors address xs idt)
  unfolding set_descriptors
  set_descriptors-append [] ys idt = refl
  set_descriptors-append ((v, stub) ∷ xs) ys idt = set_descriptors-append xs ys _

  -- The table after one call.
  abbrev after : ℕ → Stub → Idt → Idt
  after v stub idt i = if i == v then gate stub else idt i

  set_descriptors-isr_calls :
      (v n : ℕ) (idt : Idt) (i : ℕ)
      → set_descriptors address (isr_calls v n) idt i
        ≡ (if leb v i && ltb i (v + n) then gate (isr i) else idt i)
  unfolding set_descriptors isr_calls
  set_descriptors-isr_calls v zero idt i = ground arith
  set_descriptors-isr_calls v (suc n) idt i =
      set_descriptors-isr_calls (v + 1) n (after v (isr v) idt) i ∙ ground arith

  set_descriptors-irq_calls :
      (v n : ℕ) (idt : Idt) (i : ℕ)
      → set_descriptors address (irq_calls v n) idt i
        ≡ (if leb v i && ltb i (v + n) then gate (irq (i - 32)) else idt i)
  unfolding set_descriptors irq_calls
  set_descriptors-irq_calls v zero idt i = ground arith
  set_descriptors-irq_calls v (suc n) idt i =
      set_descriptors-irq_calls (v + 1) n (after v (irq (v - 32)) idt) i ∙ ground arith

  -- The three runs after the first start with a second call for the vector set last.
  set_descriptors-cons :
      (v : ℕ) (stub : Stub) (calls : List (ℕ × Stub)) (idt : Idt)
      → set_descriptors address ((v, stub) ∷ calls) idt
        ≡ set_descriptors address calls (after v stub idt)
  unfolding set_descriptors
  set_descriptors-cons v stub calls idt = refl

  -- After `interrupt_init`, the gate of every vector below 256 but 9, 19 and 29 leads to the
  -- vector's own assembly routine (an IRQ routine for 32 to 46, an ISR routine otherwise), and
  -- every other entry of the table is as it was before.
  pub interrupt_init-gates :
      (s : IdtState) (v : ℕ)
      → (interrupt_init address s).0.descriptors v
        ≡ (if is_set v then gate (stub_of v) else s.descriptors v)
  unfolding interrupt_init idt_calls
  interrupt_init-gates s v =
      rw
        (
          set_descriptors-append, set_descriptors-append, set_descriptors-append,
          set_descriptors-append, set_descriptors-append, set_descriptors-cons,
          set_descriptors-cons, set_descriptors-cons, set_descriptors-isr_calls,
          set_descriptors-irq_calls, set_descriptors-isr_calls, set_descriptors-isr_calls,
          set_descriptors-isr_calls, set_descriptors-isr_calls,
        )
        (ground arith)
