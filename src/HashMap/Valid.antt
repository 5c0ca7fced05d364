-- ===== src/HashMap/Valid.antt =====
-- The invariant of the map, what it holds, and that `hash_map_get` reads it.
use mathlib.Core.Path.{subst}
use raw_os.Common.{
  ℕ, ◌<◌, ◌≡◌, refl, sym, ap, ◌∙◌, ◌⊎◌, inl, inr, true, false, Option, none, some, arith,
}
use raw_os.HashMap.{Key, Slots, HashMap, Stop, vacant, found, find, hash_map_get}
use raw_os.HashMap.Probe.{
  IsLawful, at, at-lt, home, home-lt, Passes, Reaches, StopsAt, find-StopsAt,
}
use raw_os.HashMap.Count.{count, count-vacant}

trichotomy : (a b : ℕ) → (a < b) ⊎ ((a ≡ b) ⊎ (b < a))
trichotomy a b = grind arith

pub some_eq : {A : Type 0} {a b : A} → some a ≡ some b → a ≡ b
some_eq e = ground (arith, e)

pub some_is_not_none : {A : Type 0} {a : A} → none ≡ some a → ⊥
some_is_not_none e = ground (arith, e)

pub true_is_not_false : false ≡ true → ⊥
true_is_not_false e = ground (arith, e)

module _ {K V : Type 0} where
  -- The map holds a value under a key.
  pub record Holds (hm : HashMap K V) (k : K) (v : V) : Type 0 where
    pub slot : ℕ
    pub slot_lt : slot < hm.capacity
    pub slot_eq : hm.slots slot ≡ some (k, v)

module _ {K V : Type 0} (key : Key K) where
  -- There is a slot, the counter is right, and the search for each stored key gets to its slot.
  pub record IsPlaced (hm : HashMap K V) : Type 0 where
    pub pos : 0 < hm.capacity
    pub counted : hm.num_elements ≡ count hm.slots hm.capacity
    pub placed :
        (i : ℕ) (e : K × V)
        → i < hm.capacity
        → hm.slots i ≡ some e
        → Reaches key hm.capacity hm.slots (e.0) i

  pub Reaches-lt :
      (size : ℕ) (slots : Slots K V) (k : K) (i : ℕ)
      → 0 < size
      → Reaches key size slots k i
      → i < size
  Reaches-lt size slots k i pos r =
      subst (λ n. n < size) r.at_eq
        (at-lt size (home key size k) r.steps_taken (home-lt key size k pos) r.steps_lt)

  pub pair_eq : (x : K × V) (k : K) (v : V) → x.0 ≡ k → x.1 ≡ v → x ≡ (k, v)
  pair_eq (a, b) k v p q = ground (arith, p, q)

  module _ (lawful : IsLawful key) where
    pub self_stops :
        (slots : Slots K V) (i : ℕ) (e : K × V) (k : K)
        → slots i ≡ some e
        → k ≡ e.0
        → Passes key (slots i) k
        → ⊥
    self_stops slots i e k eq same (x, ex, differ) =
        let q : e ≡ x = some_eq (sym eq ∙ ex) in
        true_is_not_false (
          sym differ
          ∙ (ap (λ t. key.key_compare t k) (sym (same ∙ ap (λ p. p.0) q)) ∙ lawful.compare_refl k))

    -- Two searches for a key that stop, stop at the same slot.
    pub Reaches-unique :
        (size : ℕ) (slots : Slots K V) (k : K) (i j : ℕ)
        → 0 < size
        → Reaches key size slots k i
        → Reaches key size slots k j
        → (Passes key (slots i) k → ⊥)
        → (Passes key (slots j) k → ⊥)
        → i ≡ j
    Reaches-unique size slots k i j pos ri rj ni nj =
        elim (trichotomy (ri.steps_taken) (rj.steps_taken)) [
          | inl l ↦ absurd (ni (subst (λ p. Passes key (slots p) k) ri.at_eq (rj.passed _ l)))
          | inr (inl e) ↦ sym ri.at_eq ∙ (ap (at size (home key size k)) e ∙ rj.at_eq)
          | inr (inr l) ↦ absurd (nj (subst (λ p. Passes key (slots p) k) rj.at_eq (ri.passed _ l)))
        ]

    -- The search stops only at a slot that it does not pass.
    pub empty_stops :
        (slots : Slots K V) (i : ℕ) (k : K) → slots i ≡ none → Passes key (slots i) k → ⊥
    empty_stops slots i k e (x, ex, differ) = some_is_not_none (sym e ∙ ex)

    -- The search for a key that is held finds it, and its value.
    pub find-Holds :
        (hm : HashMap K V) (k : K) (v : V)
        → IsPlaced hm
        → hm.num_elements < hm.capacity
        → (h : Holds hm k v) → find key hm k ≡ some (found h.slot v)
    find-Holds hm k v placed room h =
        let (j, lj, ej) = count-vacant hm.slots hm.capacity (omega (arith, placed.counted)) in
        let (r, er, stops) = find-StopsAt key hm k j lj ej in
        er ∙ ap some (stop_at hm k v placed h r stops)
      where
        stop_at :
            (hm : HashMap K V) (k : K) (v : V)
            → IsPlaced hm
            → (h : Holds hm k v) → (r : Stop V) → StopsAt key hm.capacity hm.slots k r
            → r ≡ found h.slot v
        stop_at hm k v placed h (vacant i) (reach, e) =
            let same =
              Reaches-unique hm.capacity hm.slots k i h.slot placed.pos reach
                (placed.placed h.slot (k, v) h.slot_lt h.slot_eq) (empty_stops hm.slots i k e)
                (self_stops hm.slots h.slot (k, v) k h.slot_eq refl) in
            absurd (some_is_not_none (sym e ∙ (ap hm.slots same ∙ h.slot_eq)))
        stop_at hm k v placed h (found i w) (reach, (x, ex, c, ev)) =
            let same =
              Reaches-unique hm.capacity hm.slots k i h.slot placed.pos reach
                (placed.placed h.slot (k, v) h.slot_lt h.slot_eq)
                (self_stops hm.slots i x k ex (sym (lawful.compare_eq _ _ c)))
                (self_stops hm.slots h.slot (k, v) k h.slot_eq refl) in
            let q : x ≡ (k, v) = some_eq (sym ex ∙ (ap hm.slots same ∙ h.slot_eq)) in
            let qv : w ≡ v = sym ev ∙ ap (λ p. p.1) q in
            ap (λ n. found n w) same ∙ ap (found h.slot) qv

    pub vacant_found : {i j : ℕ} {v : V} → some (vacant i) ≡ some (found j v) → ⊥
    vacant_found e = ground (arith, e)

    pub found-Holds :
        (hm : HashMap K V) (k : K) (i : ℕ) (v : V)
        → 0 < hm.capacity
        → StopsAt key hm.capacity hm.slots k (found i v)
        → Holds hm k v
    found-Holds hm k i v pos (reach, (x, ex, c, ev)) = record {
      slot = i;
      slot_lt = Reaches-lt hm.capacity hm.slots k i pos reach;
      slot_eq = ex ∙ ap some (pair_eq x k v (lawful.compare_eq _ _ c) ev);
    }

    -- What a stop says of the map.
    abbrev pub Reads : HashMap K V → K → Option V → Type 0
    Reads hm k none = (v : V) → Holds hm k v → ⊥
    Reads hm k (some v) = Holds hm k v

    pub get-Reads :
        (hm : HashMap K V) (k : K)
        → IsPlaced hm
        → hm.num_elements < hm.capacity
        → (r : Option V) × (hash_map_get key hm k ≡ some r) × Reads hm k r
    unfolding hash_map_get
    get-Reads hm k placed room =
        let (j, lj, ej) = count-vacant hm.slots hm.capacity (omega (arith, placed.counted)) in
        let (r, er, stops) = find-StopsAt key hm k j lj ej in
        elim r
            as (λ s.
              find key hm k ≡ some s
              → StopsAt key hm.capacity hm.slots k s
              → (o : Option V) × (hash_map_get key hm k ≡ some o) × Reads hm k o) [
                | vacant i ↦ λ e st. (
                  none,
                  rw (hash_map_get, e),
                  λ v h. vacant_found (sym e ∙ find-Holds hm k v placed room h),
                )
                | found i v ↦
                    λ e st. (some v, rw (hash_map_get, e), found-Holds hm k i v placed.pos st)
              ]
          er stops
