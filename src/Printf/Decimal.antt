-- ===== src/Printf/Decimal.antt =====
-- The digits that the decimal conversions write.
use raw_os.Common.{
  ℕ, zero, suc, ◌+◌, ◌-◌, ◌*◌, ◌/◌, ◌%◌, ◌^◌, ◌<◌, ◌≤◌, ◌≡◌, refl, ◌∙◌, sym, ap, true, List, [],
  ◌∷◌, ◌++◌, ok, ◌==◌, arith, length, set, drop, take, replicate, Bool-cases, inl, inr, length-drop,
}
use raw_os.CString.Laws.{memcpy-take}
use raw_os.Printf.{digits_loop, put_first, u32_to_str}

-- The number that a text of digits denotes, after the digits of `acc`; 48 is the digit zero.
abbrev pub value_of : ℕ → List ℕ → ℕ
value_of acc [] = acc
value_of acc (c ∷ ds) = value_of (acc * 10 + (c - 48)) ds

abbrev pub AllAreDigits : List ℕ → Type 0
AllAreDigits [] = Unit {0}
AllAreDigits (c ∷ ds) = (48 ≤ c) × (c ≤ 57) × AllAreDigits ds

abbrev power : ℕ → ℕ
power zero = 1
power (suc n) = 10 * power n

value_of-snoc :
    (acc : ℕ) (ds : List ℕ) (c : ℕ) → value_of acc (ds ++ c ∷ []) ≡ value_of acc ds * 10 + (c - 48)
value_of-snoc acc [] c = refl
value_of-snoc acc (d ∷ ds) c = value_of-snoc (acc * 10 + (d - 48)) ds c

AllAreDigits-snoc :
    (ds : List ℕ) (c : ℕ) → AllAreDigits ds → 48 ≤ c → c ≤ 57 → AllAreDigits (ds ++ c ∷ [])
AllAreDigits-snoc [] c h lo hi = (lo, hi, tt)
AllAreDigits-snoc (d ∷ ds) c h lo hi = (h.0, h.1, AllAreDigits-snoc ds c h.2 lo hi)

drop-set : (b : List ℕ) (n v : ℕ) → n < length b → drop n (set b n v) ≡ v ∷ drop (suc n) b
drop-set [] n v h = elim h [ ]
drop-set (x ∷ b) zero v h = refl
drop-set (x ∷ b) (suc n) v h = drop-set b n v (omega arith)

length-set : (b : List ℕ) (n v : ℕ) → length (set b n v) ≡ length b
length-set [] n v = refl
length-set (x ∷ b) zero v = refl
length-set (x ∷ b) (suc n) v = ap suc (length-set b n v)

append-snoc : (xs ys : List ℕ) (c : ℕ) → (xs ++ c ∷ []) ++ ys ≡ xs ++ c ∷ ys
append-snoc [] ys c = refl
append-snoc (x ∷ xs) ys c = ap (λ t. x ∷ t) (append-snoc xs ys c)

zero_test : (n : ℕ) → n < 1 → (n == 0) ≡ true
zero_test n h = ground arith

last_digit : (val : ℕ) → val / 10 * 10 + (48 + val % 10 - 48) ≡ val
last_digit val = omega arith

-- What the loop leaves: the digits of `val` before what was written already.
record Written (n val : ℕ) (b : List ℕ) (r : List ℕ × ℕ) : Type 0 where
  digits : List ℕ
  drop_eq : drop r.1 r.0 ≡ digits ++ drop n b
  le : r.1 ≤ n
  len : length r.0 ≡ length b
  value : value_of 0 digits ≡ val
  all_digits : AllAreDigits digits

digits_loop-Written :
    (n val : ℕ) (b : List ℕ)
    → n ≤ length b
    → val < power n
    → (r : List ℕ × ℕ) × (digits_loop n val b ≡ ok r) × Written n val b r
unfolding digits_loop
digits_loop-Written zero val b hn hv = (
  (b, 0),
  rw (zero_test val hv),
  record {
    digits = [];
    drop_eq = refl;
    le = omega arith;
    len = refl;
    value = omega arith;
    all_digits = tt;
  },
)
digits_loop-Written (suc n) val b hn hv = elim (Bool-cases (val == 0)) [
  | inl e ↦ (
    (b, suc n),
    rw e,
    record {
      digits = [];
      drop_eq = refl;
      le = omega arith;
      len = refl;
      value = ground arith;
      all_digits = tt;
    },
  )
  | inr e ↦
      let c = 48 + val % 10 in
      let (r, er, w) =
        digits_loop-Written n (val / 10) (set b n c) (omega (arith, length-set b n c))
          (omega arith) in
      (
        r,
        rw e er,
        record {
          digits = w.digits ++ c ∷ [];
          drop_eq =
              w.drop_eq
              ∙ ap (λ t. w.digits ++ t) (drop-set b n c (omega arith))
              ∙ sym (append-snoc w.digits (drop (suc n) b) c);
          le = omega (arith, w.le);
          len = w.len ∙ length-set b n c;
          value =
              value_of-snoc 0 w.digits c ∙ (ap (λ t. t * 10 + (c - 48)) w.value ∙ last_digit val);
          all_digits = AllAreDigits-snoc w.digits c w.all_digits (omega arith) (omega arith);
        },
      )
]

append-nil : (xs : List ℕ) → xs ++ [] ≡ xs
append-nil [] = refl
append-nil (x ∷ xs) = ap (λ t. x ∷ t) (append-nil xs)

take-all : (n : ℕ) (xs : List ℕ) → length xs ≤ n → take n xs ≡ xs
take-all zero [] h = refl
take-all (suc n) [] h = refl
take-all zero (x ∷ xs) h = absurd (omega arith)
take-all (suc n) (x ∷ xs) h = ap (λ t. x ∷ t) (take-all n xs (omega arith))

-- The digits of a number as the loop leaves them at the end of its array of 16 bytes.
digits_of :
    (val : ℕ)
    → val < 2 ^ 32
    → (r : List ℕ × ℕ) × (ds : List ℕ) × (digits_loop 16 val (replicate 16 0) ≡ ok r)
      × (drop r.1 r.0 ≡ ds)
      × (length ds ≡ 16 - r.1)
      × (r.1 ≤ 16)
      × (value_of 0 ds ≡ val)
      × AllAreDigits ds
digits_of val lt =
    let (r, e, w) = digits_loop-Written 16 val (replicate 16 0) (omega arith) (omega arith) in
    let ed = w.drop_eq ∙ append-nil w.digits in
    (
      r,
      w.digits,
      e,
      ed,
      omega (arith, length-drop r.1 r.0, ap length ed, w.len),
      w.le,
      w.value,
      w.all_digits,
    )

-- `u32_to_str` of a 32-bit number, with a buffer of 16 bytes, writes a text of digits that denotes the
-- number to the start of the buffer, and nothing behind it, and returns the text's length; the digits
-- fit into its array.
pub u32_to_str-value_of :
    (val : ℕ) (buffer : List ℕ)
    → val < 2 ^ 32
    → 16 ≤ length buffer
    → (ds : List ℕ) × (u32_to_str val buffer ≡ ok (length ds, ds ++ drop (length ds) buffer))
      × (value_of 0 ds ≡ val)
      × AllAreDigits ds
unfolding u32_to_str put_first
u32_to_str-value_of val [] lt room = absurd (omega arith)
u32_to_str-value_of val (x ∷ buffer) lt room = elim (Bool-cases (val == 0)) [
  | inl z ↦ (48 ∷ [], rw z, ground arith, (omega arith, omega arith, tt))
  | inr z ↦
      let (r, ds, e, ed, el, le, ev, ad) = digits_of val lt in
      let em = memcpy-take (x ∷ buffer) ds (16 - r.1) (omega arith) (omega arith) in
      (ds, rw (z, e, ed, em, take-all (16 - r.1) ds (omega arith), ← el), ev, ad)
]
