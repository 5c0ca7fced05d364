-- ===== src/Bitmap/FirstClear.antt =====
-- `bitmap_get_first_clear` finds the least clear bit, and panics exactly on a full bitmap.
use raw_os.Common.{
  ℕ, zero, suc, ◌+◌, ◌*◌, ◌≤◌, ◌<◌, ◌≡◌, true, false, Option, some, none, Outcome, ok, panicked,
  fault, Bool-cases, inl, inr, arith,
}
use raw_os.Bitmap.{Bitmap, test_bit, first_clear_bit}
use raw_os.Bitmap.Laws.{bit_of}
use raw_os.Common.{◌-◌, ◌/◌, ◌%◌, ◌^◌, ◌∙◌, get_elem?, get_elem?-some}
use raw_os.Bitmap.{first_clear_from, bitmap_get_first_clear}
use raw_os.Bitmap.Laws.{IsValid, byte_at-ok}
use raw_os.Common.{lt_or_le}
use raw_os.Common.{eq_or_lt}

-- The inner loop: the least clear bit from `j` on, or none.
abbrev BitFound : ℕ → ℕ → ℕ → Option ℕ → Type 0
BitFound v lo hi none = (k : ℕ) → lo ≤ k → k < hi → test_bit v k ≡ true
BitFound v lo hi (some j) =
    (lo ≤ j) × (j < hi) × (test_bit v j ≡ false) × ((k : ℕ) → lo ≤ k → k < j → test_bit v k ≡ true)

BitFound-step :
    (v lo hi : ℕ) (o : Option ℕ)
    → test_bit v lo ≡ true
    → BitFound v (lo + 1) hi o
    → BitFound v lo hi o
BitFound-step v lo hi none used f =
    λ k p q. elim (eq_or_lt lo k p) [ inl e ↦ rw (← e) used | inr lt ↦ f k (omega arith) q ]
BitFound-step v lo hi (some m) used f = (
  omega arith,
  f.1,
  f.2,
  λ k p q. elim (eq_or_lt lo k p) [ inl e ↦ rw (← e) used | inr lt ↦ f.3 k (omega arith) q ],
)

first_clear_bit-BitFound :
    (left j hi v : ℕ) → j + left ≡ hi → BitFound v j hi (first_clear_bit left j v)
unfolding first_clear_bit
first_clear_bit-BitFound zero j hi v e = λ k p q. absurd (omega arith)
first_clear_bit-BitFound (suc left) j hi v e = elim (Bool-cases (test_bit v j)) [
  | inr clear ↦ rw clear (omega arith, omega arith, clear, λ k p q. absurd (omega arith))
  | inl used ↦ rw used (
      BitFound-step v j hi (first_clear_bit left (j + 1) v) used
        (first_clear_bit-BitFound left (j + 1) hi v (omega arith)))
]

-- What a search of the bits from `lo` on may answer.
abbrev pub Found : Bitmap → ℕ → Outcome ℕ → Type 0
Found b lo (ok i) =
    (lo ≤ i)
    × (i < b.size * 8)
    × (bit_of b i ≡ false)
    × ((k : ℕ) → lo ≤ k → k < i → bit_of b k ≡ true)
Found b lo panicked = (k : ℕ) → lo ≤ k → k < b.size * 8 → bit_of b k ≡ true
Found b lo fault = ⊥

-- A byte with no clear bit is passed over.
Found-full :
    (b : Bitmap) (i : ℕ) (r : Outcome ℕ)
    → ((k : ℕ) → i * 8 ≤ k → k < (i + 1) * 8 → bit_of b k ≡ true)
    → Found b ((i + 1) * 8) r
    → Found b (i * 8) r
Found-full b i fault full f = f
Found-full b i panicked full f =
    λ k p q. elim (lt_or_le k ((i + 1) * 8)) [ inl lt ↦ full k p lt | inr le ↦ f k le q ]
Found-full b i (ok m) full f = (
  omega arith,
  f.1,
  f.2,
  λ k p q. elim (lt_or_le k ((i + 1) * 8)) [ inl lt ↦ full k p lt | inr le ↦ f.3 k le q ],
)

bit_of-byte :
    (b : Bitmap) (i k : ℕ) {v : ℕ}
    → get_elem? b.bytes i ≡ some v
    → i * 8 ≤ k
    → k < (i + 1) * 8
    → bit_of b k ≡ test_bit v (k - i * 8)
bit_of-byte b i k e p q =
    let byte : k / 8 ≡ i = omega arith in
    let bit : k % 8 ≡ k - i * 8 = omega arith in rw (byte, e, bit_of) (rw bit)

-- The body of the outer loop, by what the inner loop found.
Found-byte :
    (b : Bitmap) (i v : ℕ) (rest : Outcome ℕ)
    → IsValid b
    → i < b.size
    → get_elem? b.bytes i ≡ some v
    → (o : Option ℕ) → BitFound v 0 8 o
    → Found b ((i + 1) * 8) rest
    → Found b (i * 8) (elim o [ some j ↦ ok ((i * 8 + j) % 2 ^ 32) | none ↦ rest ])
Found-byte b i v rest h lt at_i none f found =
    Found-full b i rest
      (λ k p q. bit_of-byte b i k at_i p q ∙ f (k - i * 8) (omega arith) (omega arith)) found
Found-byte b i v rest h lt at_i (some j) f found =
    let same : (i * 8 + j) % 2 ^ 32 ≡ i * 8 + j = omega (arith, h.no_wrap) in
    let bit : i * 8 + j - i * 8 ≡ j = omega arith in
    rw same (
      omega arith,
      omega arith,
      bit_of-byte b i (i * 8 + j) at_i (omega arith) (omega arith) ∙ rw bit f.2,
      λ k p q. bit_of-byte b i k at_i p (omega arith) ∙ f.3 (k - i * 8) (omega arith) (omega arith),
    )

first_clear_from-Found :
    (left i : ℕ) (b : Bitmap)
    → IsValid b
    → i + left ≡ b.size
    → Found b (i * 8) (first_clear_from left i b)
unfolding first_clear_from
first_clear_from-Found zero i b h e = λ k p q. absurd (omega arith)
first_clear_from-Found (suc left) i b h e =
    let (v, at_i) = get_elem?-some b.bytes i (omega (arith, h.has_size)) in
    rw (byte_at-ok b i at_i) (
      Found-byte b i v (first_clear_from left (i + 1) b) h (omega arith) at_i
        (first_clear_bit 8 0 v) (first_clear_bit-BitFound 8 0 8 v (omega arith))
        (first_clear_from-Found left (i + 1) b h (omega arith)))

-- On a valid bitmap the search returns the least clear bit, or panics where every bit is set.
pub bitmap_get_first_clear-Found : (b : Bitmap) → IsValid b → Found b 0 (bitmap_get_first_clear b)
unfolding bitmap_get_first_clear
bitmap_get_first_clear-Found b h = first_clear_from-Found b.size 0 b h (omega arith)
