-- ===== src/HashMap/Tests.antt =====
-- Examples for the hash map, with numbers as keys that are their own hash.
use raw_os.Common.{ℕ, ◌≡◌, refl, Option, none, some, ◌==◌, if◌then◌else◌, arith}
use raw_os.HashMap.{
  Key, HashMap, probe, find, hash_map_create, hash_map_get, put_slot, refill, hash_map_grow,
  hash_map_put, adjust_gap, adjust_gap_loop, hash_map_delete,
}
use raw_os.HashMap.Probe.{IsLawful}
use raw_os.HashMap.Valid.{Reads}
use raw_os.HashMap.Grow.{IsValid}
use raw_os.HashMap.Laws.{hash_map_put-get, hash_map_get-Reads, hash_map_create-get}

abbrev number_key : Key ℕ
number_key = record { key_compare = λ a b. a == b; key_hash = λ a. a }

number_key-IsLawful : IsLawful number_key
number_key-IsLawful = record {
  compare_eq = λ a b e. ground (arith, e);
  compare_refl = λ a. ground arith;
}

abbrev empty : HashMap ℕ ℕ
empty = hash_map_create 1

empty-IsValid : IsValid number_key empty
empty-IsValid = (hash_map_create-get number_key number_key-IsLawful 1 0).0

hash_map_put-get_example :
    (hm' : HashMap ℕ ℕ) × (hash_map_put number_key 2 empty 5 50 ≡ some hm')
    × IsValid number_key hm'
    × (hash_map_get number_key hm' 5
        ≡ (if 5 == 5 then some (some 50) else hash_map_get number_key empty 5))
unfolding hash_map_create
hash_map_put-get_example =
    hash_map_put-get number_key number_key-IsLawful 0 empty 5 5 50 empty-IsValid (omega arith)

hash_map_get-Reads_example :
    (r : Option ℕ) × (hash_map_get number_key empty 5 ≡ some r)
    × Reads number_key number_key-IsLawful empty 5 r
hash_map_get-Reads_example = hash_map_get-Reads number_key number_key-IsLawful empty 5 empty-IsValid

infixl 5 ◌>>=◌
abbrev ◌>>=◌ : {A B : Type 0} → Option A → (A → Option B) → Option B
none >>= f = none
some a >>= f = f a

-- The keys 5 and 13 collide in a map of eight slots.
abbrev get_after_puts : ℕ → Option (Option ℕ)
get_after_puts q = do
  a ← hash_map_put number_key 2 empty 5 50
  b ← hash_map_put number_key 2 a 9 90
  c ← hash_map_put number_key 2 b 13 130
  hash_map_get number_key c q

abbrev get_after_delete : ℕ → Option (Option ℕ)
get_after_delete q = do
  a ← hash_map_put number_key 2 empty 5 50
  b ← hash_map_put number_key 2 a 9 90
  c ← hash_map_put number_key 2 b 13 130
  d ← hash_map_delete number_key c 5
  hash_map_get number_key (d.0) q

put_and_get : get_after_puts 13 ≡ some (some 130)
unfolding probe find hash_map_create hash_map_get put_slot refill hash_map_grow hash_map_put
put_and_get = refl

delete_moves_back : get_after_delete 13 ≡ some (some 130)
unfolding probe find hash_map_create hash_map_get put_slot refill hash_map_grow hash_map_put
    adjust_gap adjust_gap_loop hash_map_delete
delete_moves_back = refl

deleted_is_gone : get_after_delete 5 ≡ some none
unfolding probe find hash_map_create hash_map_get put_slot refill hash_map_grow hash_map_put
    adjust_gap adjust_gap_loop hash_map_delete
deleted_is_gone = refl
