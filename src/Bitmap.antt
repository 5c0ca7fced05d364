-- ===== src/Bitmap.antt =====
-- util/bitmap.c: a bitmap over an array of bytes, in which paging.c keeps the used frames.
pub mod Bytes
pub mod Laws
pub mod FirstClear
use raw_os.Common.{
  ℕ, zero, suc, ◌+◌, ◌-◌, ◌*◌, ◌/◌, ◌%◌, ◌^◌, bit_and, bit_or, Bool, true, false, not, List, Option,
  none, some, get_elem?, set, Outcome, ok, panicked, fault, assert, ◌>>=◌, ◌>>◌, ltb, ◌==◌,
  if◌then◌else◌,
}

pub record Bitmap : Type 0 where
  pub bytes : List ℕ
  pub size : ℕ

-- `bitmap->data[i]`, undefined outside of the array.
unfoldable pub byte_at : Bitmap → ℕ → Outcome ℕ
byte_at b i = elim (get_elem? b.bytes i) [ some v ↦ ok v | none ↦ fault ]

unfoldable pub bitmap_init : List ℕ → ℕ → Bitmap
bitmap_init bytes size = record { bytes = bytes; size = size }

-- The test of the three `assert`s: `index / 8 < size * 8`, where the product wraps.
abbrev pub index_assert : Bitmap → ℕ → Bool
index_assert b index = ltb (index / 8) (b.size * 8 % 2 ^ 32)

-- `data[i] |= 1 << bit`
unfoldable pub bitmap_set : Bitmap → ℕ → Outcome Bitmap
bitmap_set b index = do
  assert (index_assert b index)
  v ← byte_at b (index / 8)
  ok (record b { bytes = set b.bytes (index / 8) (bit_or v (2 ^ (index % 8))) })

-- `data[i] &= ~(1 << bit)`, cut to a byte
unfoldable pub bitmap_clear : Bitmap → ℕ → Outcome Bitmap
bitmap_clear b index = do
  assert (index_assert b index)
  v ← byte_at b (index / 8)
  ok (record b { bytes = set b.bytes (index / 8) (bit_and v (255 - 2 ^ (index % 8))) })

-- `(byte & (1 << bit)) != 0`
abbrev pub test_bit : ℕ → ℕ → Bool
test_bit v bit = not (bit_and v (2 ^ bit) == 0)

unfoldable pub bitmap_get : Bitmap → ℕ → Outcome ℕ
bitmap_get b index = do
  assert (index_assert b index)
  v ← byte_at b (index / 8)
  ok (if test_bit v (index % 8) then 1 else 0)

-- The inner loop from bit `j`, with `left` rounds to go.
unfoldable pub first_clear_bit : ℕ → ℕ → ℕ → Option ℕ
first_clear_bit zero j v = none
first_clear_bit (suc left) j v =
    let rest = first_clear_bit left (j + 1) v in if not (test_bit v j) then some j else rest

-- The outer loop from byte `i`; when it ends without a `return`, the function panics.
unfoldable pub first_clear_from : ℕ → ℕ → Bitmap → Outcome ℕ
first_clear_from zero i b = panicked
first_clear_from (suc left) i b = do
  v ← byte_at b i
  elim (first_clear_bit 8 0 v) [
    | some j ↦ ok ((i * 8 + j) % 2 ^ 32)
    | none ↦ first_clear_from left (i + 1) b
  ]

unfoldable pub bitmap_get_first_clear : Bitmap → Outcome ℕ
bitmap_get_first_clear b = first_clear_from b.size 0 b
