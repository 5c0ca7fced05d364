-- ===== src/Interrupt/Dispatch.antt =====
-- Which handler an interrupt reaches.
use raw_os.Common.{
  Bool, Bool-cases, ℕ, zero, suc, ◌+◌, ◌*◌, ◌^◌, ◌<◌, ◌≡◌, refl, ap, ◌∙◌, true, false, List, [],
  ◌∷◌, Option, none, some, Outcome, ok, ◌>>=◌, leb, lt→ltb, ◌==◌, if◌then◌else◌, arith, inl, inr,
  set, length, get_elem?, length-set, get_elem?-set,
}
use raw_os.Interrupt.{
  IdtDescriptor, idt_set_descriptor, Stub, IdtState, interrupt_init, Ending, called, unhandled,
  signal, ending, null_handlers, interrupt_register_handler, dispatch, isr_handler, irq_handler,
  byte_out,
}
use raw_os.Interrupt.Table.{is_set, stub_of, interrupt_init-gates}

-- The routine that the processor jumps to through a gate.
abbrev pub entry_of : IdtDescriptor → ℕ
entry_of d = d.offset_high * 2 ^ 16 + d.offset_low

idt_set_descriptor-entry :
    (base selector flags : ℕ)
    → base < 2 ^ 32
    → entry_of (idt_set_descriptor base selector flags) ≡ base
unfolding idt_set_descriptor
idt_set_descriptor-entry base selector flags lt = omega arith

-- After `interrupt_init`, an interrupt with a vector below 256 but 9, 19 and 29 enters the assembly
-- routine made for this vector, where the routines' addresses have 32 bits.
pub interrupt_init-entry :
    (address : Stub → ℕ) (s : IdtState) (v : ℕ)
    → is_set v ≡ true
    → address (stub_of v) < 2 ^ 32
    → entry_of ((interrupt_init address s).0.descriptors v) ≡ address (stub_of v)
interrupt_init-entry address s v is lt =
    rw (interrupt_init-gates, is) (idt_set_descriptor-entry _ _ _ lt)

-- The calls of `interrupt_register_handler`, one after the other.
abbrev pub register_all : {H : Type 0} → List (ℕ × H) → List (Option H) → Outcome (List (Option H))
register_all [] handlers = ok handlers
register_all ((n, h) ∷ calls) handlers =
    interrupt_register_handler handlers h n >>= λ hs. register_all calls hs

-- The numbers are all below `size`.
abbrev pub AllAreInside : {H : Type 0} → ℕ → List (ℕ × H) → Type 0
AllAreInside size [] = Unit
AllAreInside size ((n, h) ∷ calls) = (n < size) × AllAreInside size calls

-- The last handler that the calls register for `k`; `h` was there before.
abbrev pub last_registered : {H : Type 0} → List (ℕ × H) → ℕ → Option H → Option H
last_registered [] k h = h
last_registered ((n, h') ∷ calls) k h = last_registered calls k (if n == k then some h' else h)

-- How an interrupt with the number `k` ends where that handler is registered for it.
abbrev pub ends_in : {H : Type 0} → Option H → ℕ → Ending H
ends_in none k = unhandled k
ends_in (some h) k = called h

register_all-last_registered :
    {H : Type 0} (calls : List (ℕ × H)) (handlers : List (Option H)) (k : ℕ) (h : Option H)
    → AllAreInside (length handlers) calls
    → get_elem? handlers k ≡ some h
    → (hs : List (Option H)) × (register_all calls handlers ≡ ok hs)
      × (get_elem? hs k ≡ some (last_registered calls k h))
unfolding interrupt_register_handler
register_all-last_registered [] handlers k h inside e = (handlers, refl, e)
register_all-last_registered ((n, h') ∷ calls) handlers k h inside e =
    let next = set handlers n (some h') in
    let (hs, all, got) =
      register_all-last_registered calls next k (if n == k then some h' else h)
        (rw (length-set handlers n (some h')) inside.1)
        (get_elem?-set handlers n k (some h') inside.0
          ∙ (ap (λ old. if n == k then some (some h') else old) e
              ∙ some_if (n == k) (some h') h)) in
    (hs, rw (lt→ltb n (length handlers) inside.0) all, got)
  where
    some_if :
        {A : Type 0} (b : Bool) (x y : A)
        → (if b then some x else some y) ≡ some (if b then x else y)
    some_if true x y = refl
    some_if false x y = refl

get_elem?-null_handlers :
    {H : Type 0} (n k : ℕ) → k < n → get_elem? (null_handlers {H = H} n) k ≡ some none
unfolding null_handlers
get_elem?-null_handlers zero k lt = absurd (omega (arith, lt))
get_elem?-null_handlers (suc n) zero lt = refl
get_elem?-null_handlers (suc n) (suc k) lt = get_elem?-null_handlers n k (omega (arith, lt))

length-null_handlers : (H : Type 0) (n : ℕ) → length (null_handlers {H = H} n) ≡ n
unfolding null_handlers
length-null_handlers H zero = refl
length-null_handlers H (suc n) = ap suc (length-null_handlers H n)

isr_handler-ends_in :
    {H : Type 0} (hs : List (Option H)) (k : ℕ) (h : Option H)
    → get_elem? hs k ≡ some h
    → isr_handler hs k ≡ ok (ends_in h k)
unfolding isr_handler dispatch
isr_handler-ends_in hs k none e = rw e refl
isr_handler-ends_in hs k (some h) e = rw e refl

irq_handler-ends_in :
    {H : Type 0} (hs : List (Option H)) (k : ℕ) (h : Option H)
    → get_elem? hs k ≡ some h
    → irq_handler hs k
      ≡ ok (
          if leb 40 k
          then signal (byte_out 0xa0 0x20) ∷ signal (byte_out 0x20 0x20) ∷ ending (ends_in h k) ∷ []
          else signal (byte_out 0x20 0x20) ∷ ending (ends_in h k) ∷ [])
unfolding irq_handler dispatch
irq_handler-ends_in hs k none e =
    rw e elim (Bool-cases (leb 40 k)) [ inl slave ↦ rw slave refl | inr master ↦ rw master refl ]
irq_handler-ends_in hs k (some h) e =
    rw e elim (Bool-cases (leb 40 k)) [ inl slave ↦ rw slave refl | inr master ↦ rw master refl ]

-- After any calls of `interrupt_register_handler` with numbers below 256, each interrupt below 256
-- ends in the last handler registered for its number, or unhandled if there is none: at once as an
-- exception; as a hardware interrupt after its end is signalled, from 40 on to the slave controller
-- and then to the master, below 40 to the master only.
pub interrupt_register_handler-reached :
    {H : Type 0} (calls : List (ℕ × H)) (k : ℕ)
    → AllAreInside 256 calls
    → k < 256
    → let end = ends_in (last_registered calls k none) k in
      (hs : List (Option H)) × (register_all calls (null_handlers 256) ≡ ok hs)
      × (isr_handler hs k ≡ ok end)
      × (irq_handler hs k
          ≡ ok (
              if leb 40 k
              then signal (byte_out 0xa0 0x20) ∷ signal (byte_out 0x20 0x20) ∷ ending end ∷ []
              else signal (byte_out 0x20 0x20) ∷ ending end ∷ []))
interrupt_register_handler-reached {H = H} calls k inside lt =
    let (hs, all, got) =
      register_all-last_registered calls (null_handlers {H = H} 256) k none
        (rw (length-null_handlers H 256) inside) (get_elem?-null_handlers {H = H} 256 k lt) in
    (hs, all, isr_handler-ends_in hs k _ got, irq_handler-ends_in hs k _ got)
