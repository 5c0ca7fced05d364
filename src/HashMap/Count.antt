-- ===== src/HashMap/Count.antt =====
-- The number of slots in use.
use raw_os.Common.{
  ℕ, zero, suc, ◌+◌, ◌≤◌, ◌<◌, ◌≡◌, ◌≢◌, refl, Option, none, some, Option-cases, arith, inl, inr,
  eq_or_lt, ap,
}
use raw_os.HashMap.{Slots, write}

lt-suc : {a b : ℕ} → a < b → a < suc b
lt-suc l = omega arith

module _ {K V : Type 0} where
  abbrev pub used : Option (K × V) → ℕ
  used none = 0
  used (some e) = 1

  -- Among the first `n` slots.
  abbrev pub count : Slots K V → ℕ → ℕ
  count slots zero = 0
  count slots (suc n) = used (slots n) + count slots n

  pub write_self :
      (slots : Slots K V) (i n : ℕ) (slot : Option (K × V)) → i ≡ n → write slots i slot n ≡ slot
  write_self slots i n slot e = ground arith

  pub write_other :
      (slots : Slots K V) (i n : ℕ) (slot : Option (K × V)) → i ≢ n → write slots i slot n ≡ slots n
  write_other slots i n slot ne = ground arith

  pub count-write_out :
      (slots : Slots K V) (i n : ℕ) (slot : Option (K × V))
      → n ≤ i
      → count (write slots i slot) n ≡ count slots n
  count-write_out slots i zero slot le = refl
  count-write_out slots i (suc n) slot le =
      rw (count-write_out slots i n slot (omega arith), write_other slots i n slot (omega arith))

  pub count-write :
      (slots : Slots K V) (i n : ℕ) (slot : Option (K × V))
      → i < n
      → count (write slots i slot) n + used (slots i) ≡ count slots n + used slot
  count-write slots i zero slot lt = elim lt [ ]
  count-write slots i (suc n) slot lt = elim (eq_or_lt i n (omega arith)) [
    | inl e ↦ omega (
      arith,
      ap used (write_self slots i n slot e),
      ap (λ m. used (slots m)) e,
      count-write_out slots i n slot (omega arith),
    )
    | inr l ↦
        omega
          (arith, ap used (write_other slots i n slot (omega arith)), count-write slots i n slot l)
  ]

  pub count-vacant :
      (slots : Slots K V) (n : ℕ) → count slots n < n → (j : ℕ) × (j < n) × (slots j ≡ none)
  count-vacant slots zero lt = elim lt [ ]
  count-vacant slots (suc n) lt = elim (Option-cases (slots n)) [
    | inl e ↦ (n, omega arith, e)
    | inr (x, e) ↦
        let (j, l, h) = count-vacant slots n (omega (arith, ap used e)) in (j, lt-suc l, h)
  ]

  pub count-le : (slots : Slots K V) (n : ℕ) → count slots n ≤ n
  count-le slots zero = omega arith
  count-le slots (suc n) = elim (Option-cases (slots n)) [
    | inl e ↦ rw e (omega (arith, count-le slots n))
    | inr (x, e) ↦ rw e (omega (arith, count-le slots n))
  ]

pub count-empty : (K V : Type 0) (n : ℕ) → count {K = K} {V = V} (λ i. none) n ≡ 0
count-empty K V zero = refl
count-empty K V (suc n) = omega (arith, count-empty K V n)
