-- ===== src/HashMap/Laws.antt =====
-- What put and get promise: the map is a function from keys to values.
use mathlib.Core.Path.{subst}
use raw_os.Common.{
  ℕ, suc, ◌*◌, ◌^◌, ◌≤◌, ◌+◌, ◌<◌, ◌≡◌, ◌≢◌, refl, sym, ap, ◌∙◌, inl, inr, false, Option, none,
  some, Bool-cases, ltb, if◌then◌else◌, arith,
}
use raw_os.HashMap.{Key, HashMap, hash_map_create, hash_map_put, hash_map_get, doubled}
use raw_os.HashMap.Probe.{IsLawful}
use raw_os.HashMap.Count.{count-empty}
use raw_os.HashMap.Valid.{find-Holds, Holds, Reads, get-Reads, some_is_not_none, true_is_not_false}
use raw_os.HashMap.Put.{Updates, put_slot-Puts}
use raw_os.HashMap.Grow.{IsValid, sparse_of, grow-SameHeld}

other_key :
    {K : Type 0} (key : Key K) → IsLawful key → (q k : K) → key.key_compare q k ≡ false → q ≢ k
other_key key lawful q k differ same =
    true_is_not_false (sym differ ∙ (ap (λ t. key.key_compare t k) same ∙ lawful.compare_refl k))

not_full : (size n : ℕ) → n * 2 ≤ size → size * 2 < 2 ^ 32 → ltb size (doubled n) ≡ false
not_full size n half small = ground (arith, half, small)

module _ {K V : Type 0} (key : Key K) (lawful : IsLawful key) where
  put-Updates :
      (depth : ℕ) (hm : HashMap K V) (k : K) (v : V)
      → IsValid key hm
      → hm.capacity * 2 < 2 ^ 32
      → (hm' : HashMap K V) × (hash_map_put key (suc (suc depth)) hm k v ≡ some hm')
        × IsValid key hm'
        × Updates key hm k v hm'
  unfolding hash_map_put
  put-Updates depth hm k v valid small =
      let (mid, e, p) =
        put_slot-Puts key lawful hm k v valid.placed
          (omega (arith, valid.placed.pos, valid.sparse)) in
      elim (Bool-cases (ltb mid.capacity (doubled mid.num_elements))) [
        | inr le ↦ (
          mid,
          rw (hash_map_put, e, le),
          record {
            placed = p.placed;
            sparse =
                sparse_of mid.capacity mid.num_elements hm.num_elements
                  (omega (arith, p.capacity_eq)) (omega (arith, p.capacity_eq, valid.sparse))
                  p.num_le le;
          },
          p.updates,
        )
        | inl lt ↦
            let (last, eg, valid', ec, same) =
              grow-SameHeld key lawful depth mid p.placed (omega (arith, p.capacity_eq)) in
            (
              last,
              rw (hash_map_put, e, lt) eg,
              valid',
              record {
                here = (same k v).0 p.updates.here;
                kept = λ q w ne h. (same q w).0 (p.updates.kept q w ne h);
                only = λ q w h. p.updates.only q w ((same q w).1 h);
              },
            )
      ]

  -- Two maps read the same if they hold the same.
  pub get-none :
      (hm : HashMap K V) (q : K)
      → IsValid key hm
      → ((w : V) → Holds hm q w → ⊥)
      → hash_map_get key hm q ≡ some none
  get-none hm q valid absent =
      let (r, e, reads) =
        get-Reads key lawful hm q valid.placed (omega (arith, valid.placed.pos, valid.sparse)) in
      elim r
          as (λ o.
            hash_map_get key hm q ≡ some o
            → Reads key lawful hm q o
            → hash_map_get key hm q ≡ some none) [
              | none ↦ λ e' st. e'
              | some w ↦ λ e' h. absurd (absent w h)
            ]
        e reads

  get-some :
      (hm : HashMap K V) (q : K) (v : V)
      → IsValid key hm
      → Holds hm q v
      → hash_map_get key hm q ≡ some (some v)
  unfolding hash_map_get
  get-some hm q v valid held =
      let room : hm.num_elements < hm.capacity = omega (arith, valid.placed.pos, valid.sparse) in
      rw (hash_map_get, find-Holds key lawful hm q v valid.placed room held) refl

  get-other :
      (hm hm' : HashMap K V) (k q : K) (v : V)
      → IsValid key hm
      → IsValid key hm'
      → Updates key hm k v hm'
      → q ≢ k
      → hash_map_get key hm' q ≡ hash_map_get key hm q
  get-other hm hm' k q v valid valid' updates differ =
      let (r, e, reads) =
        get-Reads key lawful hm q valid.placed (omega (arith, valid.placed.pos, valid.sparse)) in
      elim r
          as (λ o.
            hash_map_get key hm q ≡ some o
            → Reads key lawful hm q o
            → hash_map_get key hm' q ≡ hash_map_get key hm q) [
              | none ↦ λ e' absent.
                  get-none hm' q valid' (λ w h. elim (updates.only q w h) [
                    | inl (same, ew) ↦ differ same
                    | inr (ne, h') ↦ absent w h'
                  ])
                  ∙ sym e'
              | some w ↦ λ e' h. get-some hm' q w valid' (updates.kept q w differ h) ∙ sym e'
            ]
        e reads

  -- What getting any key gives after a put.
  get-Updates :
      (hm hm' : HashMap K V) (k q : K) (v : V)
      → IsValid key hm
      → IsValid key hm'
      → Updates key hm k v hm'
      → hash_map_get key hm' q
        ≡ (if key.key_compare q k then some (some v) else hash_map_get key hm q)
  get-Updates hm hm' k q v valid valid' updates = elim (Bool-cases (key.key_compare q k)) [
    | inl c ↦ rw c (
        get-some hm' q v valid'
          (subst (λ t. Holds hm' t v) (sym (lawful.compare_eq q k c)) updates.here))
    | inr c ↦ rw c (get-other hm hm' k q v valid valid' updates (other_key key lawful q k c))
  ]

  -- A put where the map stays at most half full does not grow it.
  pub hash_map_put-roomy :
      (depth : ℕ) (hm : HashMap K V) (k q : K) (v : V)
      → IsValid key hm
      → hm.capacity * 2 < 2 ^ 32
      → (hm.num_elements + 1) * 2 ≤ hm.capacity
      → (hm' : HashMap K V) × (hash_map_put key (suc depth) hm k v ≡ some hm')
        × IsValid key hm'
        × (hm'.capacity ≡ hm.capacity)
        × (hm'.num_elements ≤ hm.num_elements + 1)
        × (hash_map_get key hm' q
            ≡ (if key.key_compare q k then some (some v) else hash_map_get key hm q))
  unfolding hash_map_put
  hash_map_put-roomy depth hm k q v valid small room =
      let (mid, e, p) =
        put_slot-Puts key lawful hm k v valid.placed
          (omega (arith, valid.placed.pos, valid.sparse)) in
      let half : mid.num_elements * 2 ≤ mid.capacity =
        omega (arith, p.num_le, p.capacity_eq, room) in
      let valid' : IsValid key mid = record { placed = p.placed; sparse = half } in
      (
        mid,
        rw
            (
              hash_map_put,
              e,
              not_full mid.capacity mid.num_elements half (omega (arith, p.capacity_eq, small)),
            )
            refl,
        valid',
        p.capacity_eq,
        p.num_le,
        get-Updates hm mid k q v valid valid' p.updates,
      )

  -- With a comparison that decides the equality of the keys, in a valid map of less than 2 ^ 31
  -- slots, putting a value under a key ends, the grown or
  -- ungrown map is valid again, getting the key gives the value, and getting any other key
  -- gives what it gave before. The calls of put and grow are at most two deep.
  pub hash_map_put-get :
      (depth : ℕ) (hm : HashMap K V) (k q : K) (v : V)
      → IsValid key hm
      → hm.capacity * 2 < 2 ^ 32
      → (hm' : HashMap K V) × (hash_map_put key (suc (suc depth)) hm k v ≡ some hm')
        × IsValid key hm'
        × (hash_map_get key hm' q
            ≡ (if key.key_compare q k then some (some v) else hash_map_get key hm q))
  hash_map_put-get depth hm k q v valid small =
      let (hm', e, valid', updates) = put-Updates depth hm k v valid small in
      (hm', e, valid', get-Updates hm hm' k q v valid valid' updates)

  -- With a comparison that decides the equality of the keys, in a valid map the loop of get ends, with the value that some slot holds under the key, or
  -- with nothing where no slot holds a value under it.
  pub hash_map_get-Reads :
      (hm : HashMap K V) (q : K)
      → IsValid key hm
      → (r : Option V) × (hash_map_get key hm q ≡ some r) × Reads key lawful hm q r
  hash_map_get-Reads hm q valid =
      get-Reads key lawful hm q valid.placed (omega (arith, valid.placed.pos, valid.sparse))

  -- A new map is valid, and getting any key from it gives nothing.
  pub hash_map_create-get :
      (initial_capacity : ℕ) (q : K)
      → IsValid {V = V} key (hash_map_create initial_capacity)
        × (hash_map_get {V = V} key (hash_map_create initial_capacity) q ≡ some none)
  unfolding hash_map_create
  hash_map_create-get n q =
      let valid : IsValid {V = V} key (hash_map_create n) = record {
        placed = record {
          pos = ground arith;
          counted = sym (count-empty K V _);
          placed = λ i e lt x. absurd (some_is_not_none x);
        };
        sparse = omega arith;
      } in
      (valid, get-none (hash_map_create n) q valid λ w h. some_is_not_none h.slot_eq)
