-- ===== src/Bitmap/Laws.antt =====
-- The bitmap as a function from indices to bits: what set and clear change, and what get reads.
use raw_os.Common.{
  ℕ, ◌-◌, ◌*◌, ◌/◌, ◌%◌, ◌^◌, ◌<◌, bit_and, bit_or, ◌≡◌, refl, ◌∙◌, Bool, true, false, some, none,
  length, get_elem?, set, get_elem?-some, get_elem?-set, length-set, Returns, ok, ◌==◌,
  if◌then◌else◌, arith,
}
use raw_os.Bitmap.{Bitmap, byte_at, bitmap_set, bitmap_clear, bitmap_get, test_bit, index_assert}
use raw_os.Bitmap.Bytes.{bit-set, bit-clear, bytes_stay}

-- The array has `size` bytes, and `size * 8` does not wrap.
pub record IsValid (b : Bitmap) : Type 0 where
  pub has_size : length b.bytes ≡ b.size
  pub no_wrap : b.size * 8 < 2 ^ 32
  pub are_bytes : (i v : ℕ) → get_elem? b.bytes i ≡ some v → v < 256

-- The bit at an index; false outside of the array.
abbrev pub bit_of : Bitmap → ℕ → Bool
bit_of b k = elim (get_elem? b.bytes (k / 8)) [ some v ↦ test_bit v (k % 8) | none ↦ false ]

-- `b'` is `b` with the bit `i` written.
pub record IsUpdate (b : Bitmap) (i : ℕ) (value : Bool) (b' : Bitmap) : Type 0 where
  pub valid : IsValid b'
  pub same_size : b'.size ≡ b.size
  pub reads : (k : ℕ) → bit_of b' k ≡ (if i == k then value else bit_of b k)

index_assert-lt : (b : Bitmap) (i : ℕ) → IsValid b → i < b.size * 8 → index_assert b i ≡ true
index_assert-lt b i h lt = ground (arith, h.no_wrap)

pub byte_at-ok : (b : Bitmap) (i : ℕ) {v : ℕ} → get_elem? b.bytes i ≡ some v → byte_at b i ≡ ok v
unfolding byte_at
byte_at-ok b i e = rw (e, byte_at)

-- One byte is replaced by a byte that differs in the bit `i`.
IsUpdate-set :
    (b : Bitmap) (i v w : ℕ) (value : Bool)
    → IsValid b
    → i < b.size * 8
    → get_elem? b.bytes (i / 8) ≡ some v
    → w < 256
    → ((k : ℕ) → k < 8 → test_bit w k ≡ (if i % 8 == k then value else test_bit v k))
    → IsUpdate b i value (record b { bytes = set b.bytes (i / 8) w })
IsUpdate-set b i v w value h lt at_i byte bits = record {
  valid = record {
    has_size = length-set b.bytes (i / 8) w ∙ h.has_size;
    no_wrap = h.no_wrap;
    are_bytes = λ j u e. ground (arith, get_elem?-set b.bytes (i / 8) j w inside, h.are_bytes j u);
  };
  same_size = refl;
  reads = λ k.
      ground (arith, get_elem?-set b.bytes (i / 8) (k / 8) w inside, bits (k % 8) (omega arith));
}
  where
    inside : i / 8 < length b.bytes
    inside = omega (arith, h.has_size)

-- On an index of the bitmap, `bitmap_set` returns and sets that bit only.
pub bitmap_set-IsUpdate :
    (b : Bitmap) (i : ℕ) → IsValid b → i < b.size * 8 → Returns (bitmap_set b i) (IsUpdate b i true)
unfolding bitmap_set
bitmap_set-IsUpdate b i h lt =
    let (v, e) = get_elem?-some b.bytes (i / 8) (omega (arith, h.has_size)) in
    let byte = h.are_bytes (i / 8) v e in
    rw (index_assert-lt b i h lt, byte_at-ok b (i / 8) e)
      (IsUpdate-set b i v (bit_or v (2 ^ (i % 8))) true h lt e
        (bytes_stay v (i % 8) byte (omega arith)).0 (bit-set v (i % 8) byte (omega arith)))

-- On an index of the bitmap, `bitmap_clear` returns and clears that bit only.
pub bitmap_clear-IsUpdate :
    (b : Bitmap) (i : ℕ)
    → IsValid b
    → i < b.size * 8
    → Returns (bitmap_clear b i) (IsUpdate b i false)
unfolding bitmap_clear
bitmap_clear-IsUpdate b i h lt =
    let (v, e) = get_elem?-some b.bytes (i / 8) (omega (arith, h.has_size)) in
    let byte = h.are_bytes (i / 8) v e in
    rw (index_assert-lt b i h lt, byte_at-ok b (i / 8) e)
      (IsUpdate-set b i v (bit_and v (255 - 2 ^ (i % 8))) false h lt e
        (bytes_stay v (i % 8) byte (omega arith)).1 (bit-clear v (i % 8) byte (omega arith)))

-- `bitmap_get` returns the bit as 0 or 1.
pub bitmap_get-eq-bit_of :
    (b : Bitmap) (i : ℕ)
    → IsValid b
    → i < b.size * 8
    → bitmap_get b i ≡ ok (if bit_of b i then 1 else 0)
unfolding bitmap_get byte_at
bitmap_get-eq-bit_of b i h lt =
    let (v, e) = get_elem?-some b.bytes (i / 8) (omega (arith, h.has_size)) in
    ground (arith, index_assert-lt b i h lt)
