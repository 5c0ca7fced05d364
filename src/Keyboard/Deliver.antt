-- ===== src/Keyboard/Deliver.antt =====
-- What a pressed key writes to the buffers that wait for it.
use raw_os.Common.{
  ℕ, ◌≤◌, ◌≡◌, refl, ◌∙◌, ap, Bool, true, false, ◌||◌, List, [], ◌∷◌, ok, ◌==◌, if◌then◌else◌,
  arith, length, drop, Bool-cases, inl, inr,
}
use raw_os.CString.Laws.{memcpy-take}
use raw_os.Keyboard.{EventReceiverBuffer, write_kerb, deliver}

abbrev pub member : ℕ → List ℕ → Bool
member p [] = false
member p (q ∷ ps) = p == q || member p ps

-- Each registered buffer has room for a character.
abbrev pub AllHaveRoom : List ℕ → (ℕ → EventReceiverBuffer) → Type 0
AllHaveRoom [] kerbs = Unit {0}
AllHaveRoom (p ∷ ps) kerbs = (1 ≤ length (kerbs p).buffer) × AllHaveRoom ps kerbs

-- The buffer with the character at its start.
abbrev pub received : ℕ → EventReceiverBuffer → EventReceiverBuffer
received out kerb = record kerb {
  buffer = out ∷ drop 1 kerb.buffer;
  event_received = 1;
  buffer_filled = 1;
}

AllHaveRoom-write :
    (ps : List ℕ) (kerbs : ℕ → EventReceiverBuffer) (p out : ℕ)
    → AllHaveRoom ps kerbs
    → AllHaveRoom ps (write_kerb kerbs p (received out (kerbs p)))
unfolding write_kerb
AllHaveRoom-write [] kerbs p out h = tt
AllHaveRoom-write (q ∷ ps) kerbs p out h = (
  elim (Bool-cases (q == p)) [ inl e ↦ rw e (omega arith) | inr e ↦ rw e h.0 ],
  AllHaveRoom-write ps kerbs p out h.1,
)

==_eq : (p q : ℕ) → (p == q) ≡ true → q ≡ p
==_eq p q e = ground arith

-- One buffer written before the others.
write_first :
    (out p q : ℕ) (ps : List ℕ) (kerbs : ℕ → EventReceiverBuffer)
    → (if member p ps
        then received out (write_kerb kerbs q (received out (kerbs q)) p)
        else write_kerb kerbs q (received out (kerbs q)) p)
      ≡ (if member p (q ∷ ps) then received out (kerbs p) else kerbs p)
unfolding write_kerb
write_first out p q ps kerbs = elim (Bool-cases (p == q)) [
  | inl e ↦ elim (Bool-cases (member p ps)) [
    | inl m ↦ rw (e, m) (ap (λ n. received out (kerbs n)) (==_eq p q e))
    | inr m ↦ rw (e, m) (ap (λ n. received out (kerbs n)) (==_eq p q e))
  ]
  | inr e ↦ rw e
]

-- A delivered character stands at the start of each registered buffer, whose flag is set; no other
-- buffer changes. Each registered buffer is taken to have room for one character.
pub deliver-received :
    (out : ℕ) (ps : List ℕ) (kerbs : ℕ → EventReceiverBuffer)
    → AllHaveRoom ps kerbs
    → (after : ℕ → EventReceiverBuffer) × (deliver out ps kerbs ≡ ok after)
      × ((p : ℕ) → after p ≡ (if member p ps then received out (kerbs p) else kerbs p))
unfolding deliver
deliver-received out [] kerbs h = (kerbs, refl, λ p. refl)
deliver-received out (q ∷ ps) kerbs h =
    let next = write_kerb kerbs q (received out (kerbs q)) in
    let (after, e, w) = deliver-received out ps next (AllHaveRoom-write ps kerbs q out h.1) in
    let em = memcpy-take (kerbs q).buffer (out ∷ []) 1 h.0 (omega arith) in
    (after, rw em e, λ p. w p ∙ write_first out p q ps kerbs)
