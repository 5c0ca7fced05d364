-- ===== src/HashMap.antt =====
-- hash_map.h: a hash map with open addressing. The array is a function of the position, of which
-- the first `capacity` are used; a slot is empty or holds a key and a value. `none` as the result of
-- an operation means that one of its loops runs forever. `kalloc_alloc` is taken to succeed.
pub mod Probe
pub mod Count
pub mod Valid
pub mod Put
pub mod Grow
pub mod Laws
mod Tests
use raw_os.Common.{
  ℕ, zero, suc, ◌+◌, ◌-◌, ◌*◌, ◌%◌, ◌^◌, Bool, true, false, ◌&&◌, List, [], ◌∷◌, Option, none, some,
  ltb, leb, ◌==◌, if◌then◌else◌,
}

-- The two functions that the caller provides.
pub record Key (K : Type 0) : Type 0 where
  pub key_compare : K → K → Bool
  pub key_hash : K → ℕ

abbrev pub Slots : Type 0 → Type 0 → Type 0
Slots K V = ℕ → Option (K × V)

pub record HashMap (K V : Type 0) : Type 0 where
  pub capacity : ℕ
  pub num_elements : ℕ
  pub slots : Slots K V

-- Where the loops of put, get and delete stop: at an empty slot, or at the key.
pub data Stop (V : Type 0) : Type 0 where
  vacant : ℕ → Stop V
  found : ℕ → V → Stop V

abbrev pub write : {A : Type 0} → (ℕ → A) → ℕ → A → ℕ → A
write slots at slot i = if i == at then slot else slots i

-- `x << 1` of a 32-bit number.
abbrev pub doubled : ℕ → ℕ
doubled x = x * 2 % 2 ^ 32

module _ {K V : Type 0} where
  unfoldable pub hash_map_create : ℕ → HashMap K V
  hash_map_create initial_capacity = record {
    capacity = if ltb 0 initial_capacity then initial_capacity else 1;
    num_elements = 0;
    slots = λ i. none;
  }

module _ {K V : Type 0} (key : Key K) where
  -- After as many rounds as there are slots, the loop has seen all of them and goes on forever.
  unfoldable pub probe : HashMap K V → K → ℕ → ℕ → Option (Stop V)
  probe hm k zero pos = none
  probe hm k (suc rounds) pos =
      let rest = probe hm k rounds ((pos + 1) % hm.capacity) in
      elim (hm.slots pos) [
        | none ↦ some (vacant pos)
        | some (element_key, value) ↦
            if key.key_compare element_key k then some (found pos value) else rest
      ]

  unfoldable pub find : HashMap K V → K → Option (Stop V)
  find hm k = probe hm k hm.capacity (key.key_hash k % hm.capacity)

  -- The value, or nothing where the code returns -1.
  unfoldable pub hash_map_get : HashMap K V → K → Option (Option V)
  hash_map_get hm k = elim (find hm k) [
    | none ↦ none
    | some (vacant pos) ↦ some none
    | some (found pos value) ↦ some (some value)
  ]

  -- The loop of `hash_map_put`.
  unfoldable pub put_slot : HashMap K V → K → V → Option (HashMap K V)
  put_slot hm k v = elim (find hm k) [
    | none ↦ none
    | some (vacant pos) ↦
        some (record hm {
          slots = write hm.slots pos (some (k, v));
          num_elements = hm.num_elements + 1;
        })
    | some (found pos value) ↦ some (record hm { slots = write hm.slots pos (some (k, v)) })
  ]

  -- The loop of `hash_map_grow`: `n` slots of the old map, from `pos` on, are put into the new one.
  unfoldable pub refill :
      (HashMap K V → K → V → Option (HashMap K V))
      → Slots K V
      → ℕ
      → ℕ
      → HashMap K V
      → Option (HashMap K V)
  refill put old pos zero hm = some hm
  refill put old pos (suc n) hm = elim (old pos) [
    | none ↦ refill put old (pos + 1) n hm
    | some (k, v) ↦ elim (put hm k v) [ none ↦ none | some hm' ↦ refill put old (pos + 1) n hm' ]
  ]

  unfoldable pub hash_map_grow :
      (HashMap K V → K → V → Option (HashMap K V)) → HashMap K V → Option (HashMap K V)
  hash_map_grow put hm = refill put hm.slots 0 hm.capacity (hash_map_create (doubled hm.capacity))

  -- `hash_map_put` and `hash_map_grow` call each other; `depth` bounds how deep.
  unfoldable pub hash_map_put : ℕ → HashMap K V → K → V → Option (HashMap K V)
  hash_map_put zero hm k v = none
  hash_map_put (suc depth) hm k v = elim (put_slot hm k v) [
    | none ↦ none
    | some hm' ↦
        if ltb hm'.capacity (doubled hm'.num_elements)
        then hash_map_grow (hash_map_put depth) hm'
        else some hm'
  ]

  -- The loop of `adjust_gap`; the gap's slot is empty.
  unfoldable pub adjust_gap_loop : ℕ → Slots K V → ℕ → ℕ → ℕ → Option (Slots K V)
  adjust_gap_loop capacity slots gap_index pos zero = none
  adjust_gap_loop capacity slots gap_index pos (suc rounds) = elim (slots pos) [
    | none ↦ some slots
    | some (current_key, current_value) ↦
        let hash_position = key.key_hash current_key % capacity in
        let normalized_gap_index =
          if ltb gap_index hash_position then gap_index + capacity else gap_index in
        let normalized_pos = if ltb pos hash_position then pos + capacity else pos in
        let next = (pos + 1) % capacity in
        if leb hash_position normalized_gap_index && leb normalized_gap_index normalized_pos
        then adjust_gap_loop capacity
            (write (write slots pos none) gap_index (some (current_key, current_value))) pos next
            rounds
        else adjust_gap_loop capacity slots gap_index next rounds
  ]

  unfoldable pub adjust_gap : HashMap K V → ℕ → Option (Slots K V)
  adjust_gap hm gap_index =
      adjust_gap_loop hm.capacity hm.slots gap_index ((gap_index + 1) % hm.capacity) hm.capacity

  -- The map, and whether the key was there (the code returns 0 then, and -1 if not).
  unfoldable pub hash_map_delete : HashMap K V → K → Option (HashMap K V × Bool)
  hash_map_delete hm k = elim (find hm k) [
    | none ↦ none
    | some (vacant pos) ↦ some (hm, false)
    | some (found pos value) ↦
        elim (adjust_gap (record hm { slots = write hm.slots pos none }) pos) [
          | none ↦ none
          | some slots ↦ some (
            record { capacity = hm.capacity; num_elements = hm.num_elements - 1; slots = slots },
            true,
          )
        ]
  ]

  -- `n` slots from `pos` on: the keys and values that the custom function is called with, in order.
  unfoldable pub entries_from : Slots K V → ℕ → ℕ → List (K × V)
  entries_from slots pos zero = []
  entries_from slots pos (suc n) =
      let rest = entries_from slots (pos + 1) n in
      elim (slots pos) [ none ↦ rest | some entry ↦ entry ∷ rest ]

  unfoldable pub hash_map_for_each_entry : HashMap K V → List (K × V)
  hash_map_for_each_entry hm = entries_from hm.slots 0 hm.capacity
