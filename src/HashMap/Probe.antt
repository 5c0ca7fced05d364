-- ===== src/HashMap/Probe.antt =====
-- Where the loops of the hash map stop.
use mathlib.Core.Path.{subst}
use native.Mathlib.Nat.{mod-eq_of_lt, mod_self, mod-lt}
use raw_os.Common.{
  ℕ, zero, suc, ◌+◌, ◌-◌, ◌%◌, ◌≤◌, ◌<◌, ◌≡◌, refl, sym, ap, ◌∙◌, inl, inr, true, false, Option,
  none, some, Bool-cases, Option-cases, ltb, ◌==◌, if◌then◌else◌, arith, lt_or_le, eq_or_lt,
}
use raw_os.HashMap.{Key, Slots, HashMap, Stop, vacant, found, probe, find}

-- The position `n` steps after the position `h`, where both are below the capacity.
abbrev pub at : ℕ → ℕ → ℕ → ℕ
at size h n = if ltb (h + n) size then h + n else h + n - size

pub at-lt : (size h n : ℕ) → h < size → n < size → at size h n < size
at-lt size h n hh hn = ground arith

next_eq : (size p : ℕ) → p < size → (p + 1) % size ≡ (if p + 1 == size then 0 else p + 1)
next_eq size p lt = elim (eq_or_lt (p + 1) size (omega arith)) [
  | inl e ↦ rw e (mod_self size ∙ ground arith)
  | inr l ↦ mod-eq_of_lt l ∙ ground arith
]

pub at-next : (size h n : ℕ) → h < size → n < size → (at size h n + 1) % size ≡ at size h (n + 1)
at-next size h n hh hn = next_eq size (at size h n) (at-lt size h n hh hn) ∙ ground arith

pub at-zero : (size h : ℕ) → h < size → at size h 0 ≡ h
at-zero size h lt = ground arith

-- Every position is some number of steps away.
pub steps : (size h j : ℕ) → h < size → j < size → (n : ℕ) × (n < size) × (at size h n ≡ j)
steps size h j hh hj = elim (lt_or_le j h) [
  | inl lt ↦ (j + size - h, omega arith, ground arith)
  | inr le ↦ (j - h, omega arith, ground arith)
]

pub at-injective :
    (size h m n : ℕ) → h < size → m < size → n < size → at size h m ≡ at size h n → m ≡ n
at-injective size h m n hh hm hn e = ground arith

-- The laws of the caller's functions: equal keys are those that compare as equal.
pub record IsLawful {K : Type 0} (key : Key K) : Type 0 where
  pub compare_eq : (a b : K) → key.key_compare a b ≡ true → a ≡ b
  pub compare_refl : (a : K) → key.key_compare a a ≡ true

module _ {K : Type 0} (key : Key K) where
  abbrev pub home : ℕ → K → ℕ
  home size k = key.key_hash k % size

  pub home-lt : (size : ℕ) (k : K) → 0 < size → home size k < size
  home-lt size k pos = mod-lt (key.key_hash k) pos

module _ {K V : Type 0} (key : Key K) where
  -- A slot that the search for a key passes.
  abbrev pub Passes : Option (K × V) → K → Type 0
  Passes slot k = (e : K × V) × (slot ≡ some e) × (key.key_compare (e.0) k ≡ false)

  -- The search stops after `n` steps, at the slot `i`.
  pub record Reaches (size : ℕ) (slots : Slots K V) (k : K) (i : ℕ) : Type 0 where
    pub steps_taken : ℕ
    pub steps_lt : steps_taken < size
    pub at_eq : at size (home key size k) steps_taken ≡ i
    pub passed : (m : ℕ) → m < steps_taken → Passes (slots (at size (home key size k) m)) k

  -- What the search finds: an empty slot or the key, at the end of its steps.
  abbrev pub StopsAt : ℕ → Slots K V → K → Stop V → Type 0
  StopsAt size slots k (vacant i) = Reaches size slots k i × (slots i ≡ none)
  StopsAt size slots k (found i v) =
      Reaches size slots k i
      × ((e : K × V) × (slots i ≡ some e) × (key.key_compare (e.0) k ≡ true) × (e.1 ≡ v))

  ahead_next :
      (slots : ℕ → Option (K × V)) (n ahead : ℕ)
      → n ≤ ahead
      → slots ahead ≡ none
      → (x : K × V) → slots n ≡ some x
      → n + 1 ≤ ahead
  ahead_next slots n ahead le empty x e = elim (eq_or_lt n ahead le) [
    | inl q ↦ absurd (ground (arith, sym e ∙ ap slots q ∙ empty))
    | inr l ↦ omega arith
  ]

  passed_next :
      (slots : ℕ → Option (K × V)) (k : K) (n : ℕ)
      → ((m : ℕ) → m < n → Passes (slots m) k)
      → Passes (slots n) k
      → (m : ℕ) → m < n + 1
      → Passes (slots m) k
  passed_next slots k n passed p m lt = elim (eq_or_lt m n (omega arith)) [
    | inl q ↦ subst (λ t. Passes (slots t) k) (sym q) p
    | inr l ↦ passed m l
  ]

  -- The search goes on from `n` steps, with an empty slot ahead.
  probe-StopsAt :
      (hm : HashMap K V) (k : K) (rounds n ahead : ℕ)
      → home key hm.capacity k < hm.capacity
      → rounds + n ≡ hm.capacity
      → n ≤ ahead
      → ahead < hm.capacity
      → hm.slots (at hm.capacity (home key hm.capacity k) ahead) ≡ none
      → ((m : ℕ) → m < n → Passes (hm.slots (at hm.capacity (home key hm.capacity k) m)) k)
      → (r : Stop V) × (probe key hm k rounds (at hm.capacity (home key hm.capacity k) n) ≡ some r)
        × StopsAt hm.capacity hm.slots k r
  unfolding probe
  probe-StopsAt hm k zero n ahead hh hr le lt empty passed = absurd (omega arith)
  probe-StopsAt hm k (suc rounds) n ahead hh hr le lt empty passed =
      let h = home key hm.capacity k in
      let slots_at : ℕ → Option (K × V) = λ m. hm.slots (at hm.capacity h m) in
      let reached : Reaches hm.capacity hm.slots k (at hm.capacity h n) = record {
        steps_taken = n;
        steps_lt = omega arith;
        at_eq = refl;
        passed = passed;
      } in
      elim (Option-cases (hm.slots (at hm.capacity h n))) [
        | inl e ↦ (vacant (at hm.capacity h n), rw (probe, e), (reached, e))
        | inr (x, e) ↦ elim (Bool-cases (key.key_compare (x.0) k)) [
          | inl c ↦ (found (at hm.capacity h n) (x.1), rw (probe, e, c), (reached, (x, e, c, refl)))
          | inr c ↦
              let (r, er, stops) =
                probe-StopsAt hm k rounds (n + 1) ahead hh (omega arith)
                  (ahead_next slots_at n ahead le empty x e) lt empty
                  (passed_next slots_at k n passed (x, e, c)) in
              (r, rw (probe, e, c, at-next hm.capacity h n hh (omega arith)) er, stops)
        ]
      ]

  -- With an empty slot in the map, the search stops.
  pub find-StopsAt :
      (hm : HashMap K V) (k : K) (j : ℕ)
      → j < hm.capacity
      → hm.slots j ≡ none
      → (r : Stop V) × (find key hm k ≡ some r) × StopsAt hm.capacity hm.slots k r
  unfolding find
  find-StopsAt hm k j lt empty =
      let h = home key hm.capacity k in
      let hh : h < hm.capacity = home-lt key hm.capacity k (omega arith) in
      let (n, ln, en) = steps hm.capacity h j hh lt in
      subst
        (λ p.
          (r : Stop V) × (probe key hm k hm.capacity p ≡ some r) × StopsAt hm.capacity hm.slots k r)
        (at-zero hm.capacity h hh)
        (probe-StopsAt hm k hm.capacity 0 n hh (omega arith) (omega arith) ln
          (ap hm.slots en ∙ empty) λ m l. absurd (omega arith))
