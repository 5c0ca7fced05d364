-- ===== src/HashMap/Grow.antt =====
-- Growing: all entries of the old map are put into one of twice its size.
use mathlib.Core.Path.{subst}
use raw_os.Common.{
  ℕ, zero, suc, ◌+◌, ◌*◌, ◌^◌, ◌≤◌, ◌<◌, ◌≡◌, refl, sym, ap, ◌∙◌, inl, inr, false, some,
  Option-cases, ltb, if◌then◌else◌, arith, eq_or_lt,
}
use raw_os.HashMap.{
  Key, Slots, HashMap, refill, hash_map_put, hash_map_grow, hash_map_create, doubled,
}
use raw_os.HashMap.Probe.{IsLawful, Reaches}
use raw_os.HashMap.Count.{count-empty}
use raw_os.HashMap.Valid.{
  IsPlaced, Holds, Reaches-unique, self_stops, some_eq, some_is_not_none, pair_eq,
}
use raw_os.HashMap.Put.{Puts, put_slot-Puts}

pub sparse_of :
    (size n num : ℕ)
    → size * 2 < 2 ^ 32
    → num * 2 ≤ size
    → n ≤ num + 1
    → ltb size (doubled n) ≡ false
    → n * 2 ≤ size
sparse_of size n num small le lt e = ground arith

add_zero_eq : {p size : ℕ} → p + 0 ≡ size → p ≡ size
add_zero_eq e = omega arith

created :
    (size : ℕ)
    → 0 < size
    → size * 2 < 2 ^ 32
    → (if ltb 0 (doubled size) then doubled size else 1) ≡ size * 2
created size pos small = ground arith

pub not_full : (size n : ℕ) → size < 2 ^ 32 → n * 2 ≤ size → ltb size (doubled n) ≡ false
not_full size n small le = ground arith

module _ {K V : Type 0} (key : Key K) where
  -- The map is placed, and at most half full.
  pub record IsValid (hm : HashMap K V) : Type 0 where
    pub placed : IsPlaced key hm
    pub sparse : hm.num_elements * 2 ≤ hm.capacity

  -- After the first `p` slots of an old array of `size` slots.
  record Refilled (old : Slots K V) (size p : ℕ) (hm : HashMap K V) : Type 0 where
    placed : IsPlaced key hm
    capacity_eq : hm.capacity ≡ size * 2
    few : hm.num_elements ≤ p
    held : (i : ℕ) (e : K × V) → i < p → old i ≡ some e → Holds hm (e.0) (e.1)
    origin : (q : K) (w : V) → Holds hm q w → (i : ℕ) × (i < p) × (old i ≡ some (q, w))

  abbrev DistinctKeys : Slots K V → ℕ → Type 0
  DistinctKeys old size =
      (i j : ℕ) (e f : K × V)
      → i < size
      → j < size
      → old i ≡ some e
      → old j ≡ some f
      → e.0 ≡ f.0
      → i ≡ j

  module _ (lawful : IsLawful key) where
    IsPlaced-DistinctKeys : (hm : HashMap K V) → IsPlaced key hm → DistinctKeys hm.slots hm.capacity
    IsPlaced-DistinctKeys hm placed i j e f li lj ei ej same =
        Reaches-unique key lawful hm.capacity hm.slots (e.0) i j placed.pos
          (placed.placed i e li ei)
          (subst (λ t. Reaches key hm.capacity hm.slots t j) (sym same) (placed.placed j f lj ej))
          (self_stops key lawful hm.slots i e (e.0) ei refl)
          (self_stops key lawful hm.slots j f (e.0) ej same)

    -- A put into a map with room does not grow it.
    put-roomy :
        (depth : ℕ) (hm : HashMap K V) (k : K) (v : V)
        → IsPlaced key hm
        → hm.capacity < 2 ^ 32
        → (hm.num_elements + 1) * 2 ≤ hm.capacity
        → (hm' : HashMap K V) × (hash_map_put key (suc depth) hm k v ≡ some hm')
          × Puts key hm k v hm'
    unfolding hash_map_put
    put-roomy depth hm k v placed small room =
        let (hm', e, p) = put_slot-Puts key lawful hm k v placed (omega arith) in
        (
          hm',
          rw (
            hash_map_put,
            e,
            not_full hm'.capacity hm'.num_elements (omega (arith, p.capacity_eq))
                (omega (arith, p.capacity_eq, p.num_le)),
          ),
          p,
        )

    module _ (depth : ℕ) (old : Slots K V) (size : ℕ) (small : size * 2 < 2 ^ 32)
        (distinct : DistinctKeys old size) where
      refill_step :
          (p : ℕ) (hm : HashMap K V) (k : K) (v : V)
          → p < size
          → old p ≡ some (k, v)
          → Refilled old size p hm
          → (hm' : HashMap K V) × (hash_map_put key (suc depth) hm k v ≡ some hm')
            × Refilled old size (p + 1) hm'
      refill_step p hm k v lt e r =
          let (hm', ep, puts) =
            put-roomy depth hm k v r.placed (omega (arith, r.capacity_eq))
              (omega (arith, r.capacity_eq, r.few)) in
          (
            hm',
            ep,
            record {
              placed = puts.placed;
              capacity_eq = puts.capacity_eq ∙ r.capacity_eq;
              few = omega (arith, puts.num_le, r.few);
              held = λ i x li ex. elim (eq_or_lt i p (omega arith)) [
                | inl same ↦
                    let t : x ≡ (k, v) = some_eq (sym ex ∙ (ap old same ∙ e)) in
                    subst (λ y. Holds hm' (y.0) (y.1)) (sym t) puts.updates.here
                | inr l ↦
                    puts.updates.kept (x.0) (x.1)
                      (λ q. absurd (omega (arith, distinct i p x (k, v) (omega arith) lt ex e q)))
                      (r.held i x l ex)
              ];
              origin = λ q w h. elim (puts.updates.only q w h) [
                | inl (eq, ew) ↦ (p, omega arith, e ∙ ap some (sym (pair_eq key (q, w) k v eq ew)))
                | inr (ne, h') ↦ let (i, li, ei) = r.origin q w h' in (i, omega (arith, li), ei)
              ];
            },
          )

      refill-Refilled :
          (p n : ℕ) (hm : HashMap K V)
          → p + n ≡ size
          → Refilled old size p hm
          → (hm' : HashMap K V) × (refill key (hash_map_put key (suc depth)) old p n hm ≡ some hm')
            × Refilled old size size hm'
      unfolding refill
      refill-Refilled p zero hm e r =
          (hm, refl, subst (λ t. Refilled old size t hm) (add_zero_eq e) r)
      refill-Refilled p (suc n) hm e r = elim (Option-cases (old p)) [
        | inl empty ↦
            let r' : Refilled old size (p + 1) hm = record {
              placed = r.placed;
              capacity_eq = r.capacity_eq;
              few = omega (arith, r.few);
              held = λ i x li ex. elim (eq_or_lt i p (omega arith)) [
                | inl same ↦ absurd (some_is_not_none (sym empty ∙ (ap old (sym same) ∙ ex)))
                | inr l ↦ r.held i x l ex
              ];
              origin = λ q w h. let (i, li, ei) = r.origin q w h in (i, omega (arith, li), ei);
            } in
            let (last, er, rl) = refill-Refilled (p + 1) n hm (omega arith) r' in
            (last, rw (refill, empty) er, rl)
        | inr ((k, v), full) ↦
            let (hm', ep, r') = refill_step p hm k v (omega arith) full r in
            let (last, er, rl) = refill-Refilled (p + 1) n hm' (omega arith) r' in
            (last, rw (refill, full, ep) er, rl)
      ]

    -- The new map holds what the old one held.
    abbrev SameHeld : HashMap K V → HashMap K V → Type 0
    SameHeld hm hm' =
        (q : K) (w : V) → (Holds hm q w → Holds hm' q w) × (Holds hm' q w → Holds hm q w)

    fresh_Refilled :
        (old : Slots K V) (size : ℕ)
        → 0 < size
        → size * 2 < 2 ^ 32
        → Refilled old size 0 (hash_map_create (doubled size))
    unfolding hash_map_create
    fresh_Refilled old size pos small = record {
      placed = record {
        pos = rw (created size pos small) (omega arith);
        counted = sym (count-empty K V _);
        placed = λ i e lt x. absurd (some_is_not_none x);
      };
      capacity_eq = created size pos small;
      few = omega arith;
      held = λ i x lt e. absurd (omega arith);
      origin = λ q w h. absurd (some_is_not_none h.slot_eq);
    }

    pub grow-SameHeld :
        (depth : ℕ) (hm : HashMap K V)
        → IsPlaced key hm
        → hm.capacity * 2 < 2 ^ 32
        → (hm' : HashMap K V) × (hash_map_grow key (hash_map_put key (suc depth)) hm ≡ some hm')
          × IsValid hm'
          × (hm'.capacity ≡ hm.capacity * 2)
          × SameHeld hm hm'
    unfolding hash_map_grow hash_map_create
    grow-SameHeld depth hm placed small =
        let fresh : HashMap K V = hash_map_create (doubled hm.capacity) in
        let (hm', e, r) =
          refill-Refilled depth hm.slots hm.capacity small (IsPlaced-DistinctKeys hm placed) 0
            hm.capacity fresh (omega arith)
            (fresh_Refilled hm.slots hm.capacity placed.pos small) in
        (
          hm',
          e,
          record { placed = r.placed; sparse = omega (arith, r.few, r.capacity_eq) },
          r.capacity_eq,
          λ q w. (
            λ h. r.held h.slot (q, w) h.slot_lt h.slot_eq,
            λ h.
                let (i, li, ei) = r.origin q w h in record { slot = i; slot_lt = li; slot_eq = ei },
          ),
        )
