-- ===== src/HashMap/Put.antt =====
-- The loop of `hash_map_put`: writing an entry to the slot where the search stops.
use mathlib.Core.Path.{subst}
use raw_os.Common.{
  ℕ, ◌+◌, ◌≤◌, ◌<◌, ◌≡◌, ◌≢◌, refl, sym, ap, ◌∙◌, ◌⊎◌, inl, inr, true, false, none, some,
  Bool-cases, ◌==◌, arith,
}
use raw_os.HashMap.{Key, Slots, HashMap, vacant, found, find, write, put_slot}
use raw_os.HashMap.Probe.{IsLawful, Passes, Reaches, StopsAt, find-StopsAt}
use raw_os.HashMap.Count.{used, count, count-vacant, count-write, write_self, write_other}
use raw_os.HashMap.Valid.{
  IsPlaced, Holds, Reaches-lt, Reaches-unique, self_stops, empty_stops, some_eq, some_is_not_none,
}

ne : (j i : ℕ) → (j == i) ≡ false → i ≢ j
ne j i e = ground arith

eq : (j i : ℕ) → (j == i) ≡ true → i ≡ j
eq j i e = ground arith

module _ {K V : Type 0} (key : Key K) where
  -- The map holds `v` under `k`, and under the other keys what it held before.
  pub record Updates (hm : HashMap K V) (k : K) (v : V) (hm' : HashMap K V) : Type 0 where
    pub here : Holds hm' k v
    pub kept : (q : K) (w : V) → q ≢ k → Holds hm q w → Holds hm' q w
    pub only : (q : K) (w : V) → Holds hm' q w → ((q ≡ k) × (w ≡ v)) ⊎ ((q ≢ k) × Holds hm q w)

  pub record Puts (hm : HashMap K V) (k : K) (v : V) (hm' : HashMap K V) : Type 0 where
    pub placed : IsPlaced key hm'
    pub capacity_eq : hm'.capacity ≡ hm.capacity
    pub num_le : hm'.num_elements ≤ hm.num_elements + 1
    pub updates : Updates hm k v hm'

  Reaches-write :
      (size : ℕ) (slots slots' : Slots K V) (q : K) (j : ℕ)
      → ((p : ℕ) → Passes key (slots p) q → Passes key (slots' p) q)
      → Reaches key size slots q j
      → Reaches key size slots' q j
  Reaches-write size slots slots' q j keep r = record {
    steps_taken = r.steps_taken;
    steps_lt = r.steps_lt;
    at_eq = r.at_eq;
    passed = λ m l. keep _ (r.passed m l);
  }

  module _ (lawful : IsLawful key) where
    -- An entry of the key `k` is written to the slot `i`, where the search for `k` stops.
    module _ (hm : HashMap K V) (k : K) (v : V) (i num : ℕ) (placed : IsPlaced key hm)
        (reach : Reaches key hm.capacity hm.slots k i) (stops : Passes key (hm.slots i) k → ⊥)
        (keep : (q : K) (p : ℕ)
          → Passes key (hm.slots p) q
          → Passes key (write hm.slots i (some (k, v)) p) q)
        (same_key : (x : K × V) → hm.slots i ≡ some x → x.0 ≡ k)
        (counted : num ≡ count (write hm.slots i (some (k, v))) hm.capacity)
        (num_le : num ≤ hm.num_elements + 1) where
      abbrev after : HashMap K V
      after = record {
        capacity = hm.capacity;
        num_elements = num;
        slots = write hm.slots i (some (k, v));
      }

      i-lt : i < hm.capacity
      i-lt = Reaches-lt key hm.capacity hm.slots k i placed.pos reach

      after_placed :
          (j : ℕ) (x : K × V)
          → j < hm.capacity
          → after.slots j ≡ some x
          → Reaches key hm.capacity after.slots (x.0) j
      after_placed j x lt e = elim (Bool-cases (j == i)) [
        | inl same ↦
            let q : (k, v) ≡ x =
              some_eq (sym (write_self hm.slots i j (some (k, v)) (eq j i same)) ∙ e) in
            subst (λ t. Reaches key hm.capacity after.slots t j) (ap (λ t. t.0) q)
              (subst (λ t. Reaches key hm.capacity after.slots k t) (eq j i same)
                (Reaches-write hm.capacity hm.slots after.slots k i (keep k) reach))
        | inr differ ↦ Reaches-write hm.capacity hm.slots after.slots (x.0) j (keep (x.0)) (
            placed.placed j x lt (sym (write_other hm.slots i j (some (k, v)) (ne j i differ)) ∙ e))
      ]

      -- No other slot has the key.
      other_key :
          (q : K) (w : V) (j : ℕ) → j < hm.capacity → hm.slots j ≡ some (q, w) → i ≢ j → q ≢ k
      other_key q w j lt e differ same = differ (
          Reaches-unique key lawful hm.capacity hm.slots k i j placed.pos reach
            (subst (λ t. Reaches key hm.capacity hm.slots t j) same (placed.placed j (q, w) lt e))
            stops (self_stops key lawful hm.slots j (q, w) k e (sym same)))

      written : Puts hm k v after
      written = record {
        placed = record { pos = placed.pos; counted = counted; placed = after_placed };
        capacity_eq = refl;
        num_le = num_le;
        updates = record {
          here = record {
            slot = i;
            slot_lt = i-lt;
            slot_eq = write_self hm.slots i i (some (k, v)) refl;
          };
          kept = λ q w ne h. record {
            slot = h.slot;
            slot_lt = h.slot_lt;
            slot_eq =
                write_other hm.slots i h.slot (some (k, v))
                  (λ t. ne (same_key (q, w) (ap hm.slots t ∙ h.slot_eq)))
                ∙ h.slot_eq;
          };
          only = λ q w h. elim (Bool-cases (h.slot == i)) [
            | inl same ↦
                let t : (k, v) ≡ (q, w) = some_eq (
                  sym (write_self hm.slots i h.slot (some (k, v)) (eq h.slot i same))
                  ∙ h.slot_eq) in
                inl (sym (ap (λ x. x.0) t), sym (ap (λ x. x.1) t))
            | inr differ ↦
                let e =
                  sym (write_other hm.slots i h.slot (some (k, v)) (ne h.slot i differ))
                  ∙ h.slot_eq in
                inr (
                  other_key q w h.slot h.slot_lt e (ne h.slot i differ),
                  record { slot = h.slot; slot_lt = h.slot_lt; slot_eq = e },
                )
          ];
        };
      }

    vacant_keep :
        (slots : Slots K V) (i : ℕ) (x : K × V)
        → slots i ≡ none
        → (q : K) (p : ℕ) → Passes key (slots p) q
        → Passes key (write slots i (some x) p) q
    vacant_keep slots i x e q p (y, ey, differ) = elim (Bool-cases (p == i)) [
      | inl same ↦ absurd (some_is_not_none (sym e ∙ (ap slots (eq p i same) ∙ ey)))
      | inr other ↦ (y, write_other slots i p (some x) (ne p i other) ∙ ey, differ)
    ]

    found_keep :
        (slots : Slots K V) (i : ℕ) (x : K × V) (k : K) (v : V)
        → slots i ≡ some x
        → x.0 ≡ k
        → (q : K) (p : ℕ) → Passes key (slots p) q
        → Passes key (write slots i (some (k, v)) p) q
    found_keep slots i x k v e same_key q p (y, ey, differ) = elim (Bool-cases (p == i)) [
      | inl same ↦
          let t : x ≡ y = some_eq (sym e ∙ (ap slots (eq p i same) ∙ ey)) in
          (
            (k, v),
            write_self slots i p (some (k, v)) (eq p i same),
            ap (λ a. key.key_compare a q) (sym same_key ∙ ap (λ a. a.0) t) ∙ differ,
          )
      | inr other ↦ (y, write_other slots i p (some (k, v)) (ne p i other) ∙ ey, differ)
    ]

    -- The loop ends if the map has an empty slot, and its write updates what the map holds.
    pub put_slot-Puts :
        (hm : HashMap K V) (k : K) (v : V)
        → IsPlaced key hm
        → hm.num_elements < hm.capacity
        → (hm' : HashMap K V) × (put_slot key hm k v ≡ some hm') × Puts hm k v hm'
    unfolding put_slot
    put_slot-Puts hm k v placed room =
        let (j, lj, ej) = count-vacant hm.slots hm.capacity (omega (arith, placed.counted)) in
        let (r, er, stops) = find-StopsAt key hm k j lj ej in
        elim r
            as (λ s.
              find key hm k ≡ some s
              → StopsAt key hm.capacity hm.slots k s
              → (hm' : HashMap K V) × (put_slot key hm k v ≡ some hm') × Puts hm k v hm') [
                | vacant i ↦ λ e (reach, empty).
                    let lt = Reaches-lt key hm.capacity hm.slots k i placed.pos reach in
                    (
                      _,
                      rw (put_slot, e) refl,
                      written hm k v i (hm.num_elements + 1) placed reach
                          (empty_stops key lawful hm.slots i k empty)
                          (vacant_keep hm.slots i (k, v) empty)
                          (λ x ex. absurd (some_is_not_none (sym empty ∙ ex)))
                          (omega (
                            arith,
                            placed.counted,
                            ap used empty,
                            count-write hm.slots i hm.capacity (some (k, v)) lt,
                          ))
                          (omega arith),
                    )
                | found i w ↦ λ e (reach, (x, ex, c, ev)).
                    let lt = Reaches-lt key hm.capacity hm.slots k i placed.pos reach in
                    let same_key = lawful.compare_eq (x.0) k c in
                    (
                      _,
                      rw (put_slot, e) refl,
                      written hm k v i hm.num_elements placed reach
                          (self_stops key lawful hm.slots i x k ex (sym same_key))
                          (found_keep hm.slots i x k v ex same_key)
                          (λ y ey. ap (λ a. a.0) (some_eq (sym ey ∙ ex)) ∙ same_key)
                          (omega (
                            arith,
                            placed.counted,
                            ap used ex,
                            count-write hm.slots i hm.capacity (some (k, v)) lt,
                          ))
                          (omega arith),
                    )
              ]
          er stops
