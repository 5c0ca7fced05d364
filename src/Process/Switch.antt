-- ===== src/Process/Switch.antt =====
-- What the switches of the scheduler do to the queue of the processes, and what exit does.
use mathlib.Core.Path.{subst}
use raw_os.Common.{ℕ, ◌≡◌, ◌≢◌, refl, sym, ap, ◌∙◌, List, [], ◌∷◌, ◌++◌, length, some, arith}
use raw_os.Process.{
  Machine, Process, State, Registers, Exit, halted, switched, store, context_of, process_switch,
  switches,
}
use raw_os.Process.Ring.{Fresh, Distinct, Ring, Ring-SameLinks, Ring-rotate}
use raw_os.Process.Queue.{IsQueue, Holds, store-SameLinks, store-at, neb}

Fresh-mid : (x : ℕ) (xs : List ℕ) (p : ℕ) (ys : List ℕ) → Fresh x (xs ++ (p ∷ ys)) → x ≢ p
Fresh-mid x [] p ys f = f.0
Fresh-mid x (q ∷ xs) p ys f = Fresh-mid x xs p ys (f.1)

Distinct-mid : (xs : List ℕ) (p : ℕ) (ys : List ℕ) → Distinct (xs ++ (p ∷ ys)) → Fresh p xs
Distinct-mid [] p ys d = tt
Distinct-mid (x ∷ xs) p ys (f, d) = ((λ e. Fresh-mid x xs p ys f (sym e)), Distinct-mid xs p ys d)

append_nil : (xs : List ℕ) → xs ++ [] ≡ xs
append_nil [] = refl
append_nil (x ∷ xs) = ap (λ t. x ∷ t) (append_nil xs)

append_assoc : (xs ys zs : List ℕ) → (xs ++ ys) ++ zs ≡ xs ++ (ys ++ zs)
append_assoc [] ys zs = refl
append_assoc (x ∷ xs) ys zs = ap (λ t. x ∷ t) (append_assoc xs ys zs)

next_nonzero : (heap : ℕ → Process) (a : ℕ) (ps : List ℕ) → Ring heap (a ∷ ps) → (heap a).next ≢ 0
next_nonzero heap a [] (l, d, (za, zs)) = λ e. za (sym e ∙ l.0)
next_nonzero heap a (b ∷ ps) ((l, c), d, (za, (zb, zs))) = λ e. zb (sym e ∙ l.0)

module _ {M : Type 0} where
  -- The next process becomes the first, also if there is only one.
  turn :
      (s : State M) (a : ℕ) (ps : List ℕ)
      → Ring s.heap (a ∷ ps)
      → s.active_process ≡ (s.heap a).next
      → IsQueue s (ps ++ (a ∷ []))
  turn s a [] (l, d, z) e = (e ∙ l.0, (l, d, z))
  turn s a (b ∷ ps) ((l, c), d, z) e = (e ∙ l.0, Ring-rotate s.heap a b ps ((l, c), d, z))

-- The registers are not those of a process that is just coming back.
abbrev pub AllLose : List Registers → Type 0
AllLose [] = Unit
AllLose (r ∷ rs) = (r.eip ≢ 0x12345678) × AllLose rs

module _ {M : Type 0} (os : Machine M) where
  -- What is left after the exit of the first of the processes.
  abbrev pub Exits : State M → List ℕ → Exit M → Type 0
  Exits s [] halted = Unit
  Exits s [] (switched s' context) = ⊥
  Exits s (b ∷ ps) halted = ⊥
  Exits s (b ∷ ps) (switched s' context) =
      IsQueue s' (b ∷ ps)
      × (context.eip ≡ (s.heap b).eip)
      × (context.esp ≡ (s.heap b).esp)
      × (context.ebp ≡ (s.heap b).ebp)

  abbrev saved : State M → Registers → Process
  saved s r = record (s.heap s.active_process) { eip = r.eip; esp = r.esp; ebp = r.ebp }

  abbrev after : State M → Registers → State M
  after s r = record s {
    heap = store s.heap s.active_process (saved s r);
    active_process = (store s.heap s.active_process (saved s r) s.active_process).next;
  }

  switch_eq :
      (s : State M) (a : ℕ) (ps : List ℕ) (r : Registers)
      → IsQueue s (a ∷ ps)
      → r.eip ≢ 0x12345678
      → process_switch os s r ≡ (after s r, some (context_of os (after s r)))
  unfolding process_switch
  switch_eq s a ps r (ea, ring) lose =
      let nonzero : s.active_process ≢ 0 = λ e. (ring.2.0) (sym e ∙ ea) in
      let linked : (s.heap s.active_process).next ≢ 0 =
        λ e. next_nonzero s.heap a ps ring (ap (λ x. (s.heap x).next) (sym ea) ∙ e) in
      rw (process_switch, neb _ 0 nonzero, neb _ 0 linked, neb _ 0x12345678 lose)

  after-IsQueue :
      (s : State M) (a : ℕ) (ps : List ℕ) (r : Registers)
      → IsQueue s (a ∷ ps)
      → IsQueue (after s r) (ps ++ (a ∷ []))
  after-IsQueue s a ps r (ea, ring) =
      turn (after s r) a ps
        (Ring-SameLinks s.heap (after s r).heap (a ∷ ps)
          (store-SameLinks s.heap s.active_process (saved s r) refl refl) ring)
        (ap (λ x. ((after s r).heap x).next) ea)

  queue-Distinct : (s : State M) (ps : List ℕ) → IsQueue s ps → Distinct ps
  queue-Distinct s [] q = absurd q
  queue-Distinct s (a ∷ ps) (ea, (c, d, z)) = d

  -- A switch away from a process keeps its registers and the other processes.
  after-active :
      (s : State M) (a : ℕ) (r : Registers)
      → s.active_process ≡ a
      → Holds ((after s r).heap a) (s.heap a).pid r
  after-active s a r ea =
      let at : (after s r).heap a ≡ saved s r =
        subst (λ x. (after s r).heap x ≡ saved s r) ea
          (store-at s.heap s.active_process (saved s r)) in
      record {
        pid_eq = ap (λ p. p.pid) at ∙ ap (λ x. (s.heap x).pid) ea;
        eip_eq = ap (λ p. p.eip) at;
        esp_eq = ap (λ p. p.esp) at;
        ebp_eq = ap (λ p. p.ebp) at;
      }

  after-other :
      (s : State M) (a p : ℕ) (r : Registers)
      → s.active_process ≡ a
      → p ≢ a
      → (after s r).heap p ≡ s.heap p
  after-other s a p r ea ne = rw (neb p s.active_process (λ e. ne (e ∙ ea)))

  switches-turn :
      (s : State M) (xs : List ℕ) (p : ℕ) (ys : List ℕ) (rs : List Registers)
      → IsQueue s (xs ++ (p ∷ ys))
      → Fresh p xs
      → length rs ≡ length xs
      → AllLose rs
      → IsQueue (switches os s rs) (p ∷ (ys ++ xs)) × ((switches os s rs).heap p ≡ s.heap p)
  unfolding switches
  switches-turn s [] p ys [] q f e lose =
      (subst (λ t. IsQueue s (p ∷ t)) (sym (append_nil ys)) q, refl)
  switches-turn s [] p ys (r ∷ rs) q f e lose = absurd (omega (arith, e))
  switches-turn s (x ∷ xs) p ys [] q f e lose = absurd (omega (arith, e))
  switches-turn s (x ∷ xs) p ys (r ∷ rs) q (ne, f) e (lose, losing) =
      let q' : IsQueue (after s r) (xs ++ (p ∷ (ys ++ (x ∷ [])))) =
        subst (λ t. IsQueue (after s r) t) (append_assoc xs (p ∷ ys) (x ∷ []))
          (after-IsQueue s x (xs ++ (p ∷ ys)) r q) in
      let (last, kept) =
        switches-turn (after s r) xs p (ys ++ (x ∷ [])) rs q' f (omega (arith, e)) losing in
      rw (switches, switch_eq s x (xs ++ (p ∷ ys)) r q lose)
        (
          subst (λ t. IsQueue (switches os (after s r) rs) (p ∷ t)) (append_assoc ys (x ∷ []) xs)
              last,
          kept ∙ after-other s x p r (q.0) ne,
        )

  -- A process that loses the processor gets it back after one switch by each of the others, with
  -- the registers that it had, and the processes are in the order in which they were. (Each
  -- process loses the processor at an eip other than the magic number.)
  pub switches-resume :
      (s : State M) (a : ℕ) (ps : List ℕ) (r : Registers) (rs : List Registers)
      → IsQueue s (a ∷ ps)
      → length rs ≡ length ps
      → AllLose (r ∷ rs)
      → IsQueue (switches os s (r ∷ rs)) (a ∷ ps)
        × ((context_of os (switches os s (r ∷ rs))).eip ≡ r.eip)
        × ((context_of os (switches os s (r ∷ rs))).esp ≡ r.esp)
        × ((context_of os (switches os s (r ∷ rs))).ebp ≡ r.ebp)
  unfolding switches context_of
  switches-resume s a ps r rs (ea, ring) e (lose, losing) =
      let (q, kept) =
        switches-turn (after s r) ps a [] rs (after-IsQueue s a ps r (ea, ring)) ring.1.0 e
          losing in
      let held = after-active s a r ea in
      let at : (switches os (after s r) rs).heap (switches os (after s r) rs).active_process
          ≡ (after s r).heap a =
        ap (switches os (after s r) rs).heap (q.0) ∙ kept in
      rw (switches, switch_eq s a ps r (ea, ring) lose)
        (
          q,
          ap (λ p. p.eip) at ∙ held.eip_eq,
          ap (λ p. p.esp) at ∙ held.esp_eq,
          ap (λ p. p.ebp) at ∙ held.ebp_eq,
        )
