-- ===== src/Bitmap/Bytes.antt =====
-- What `|=` and `&=` do to each bit of a byte, by going through all the bytes.
use raw_os.Common.{
  ℕ, ◌-◌, ◌^◌, ◌<◌, bit_and, bit_or, ◌≡◌, refl, Bool, true, false, not, ◌&&◌, ltb, ◌==◌,
  if◌then◌else◌, arith,
}
use raw_os.Common.{passes, passes-at, same, same_sound}

-- The bit `k` of a byte, as the C code tests it.
abbrev pub byte_bit : ℕ → ℕ → Bool
byte_bit v k = not (bit_and v (2 ^ k) == 0)

-- A fact of a byte, a written bit and a read bit.
abbrev Fact : Type 0
Fact = ℕ → ℕ → ℕ → Bool

holds : Fact → Bool
unfolding passes
holds f = passes (λ v. passes (λ j. passes (f v j) 8) 8) 256

holds-at : (f : Fact) (v j k : ℕ) → v < 256 → j < 8 → k < 8 → holds f ≡ true → f v j k ≡ true
unfolding holds
holds-at f v j k hv hj hk every = passes-at (f v j) 8 k hk (
    passes-at (λ j. passes (f v j) 8) 8 j hj
      (passes-at (λ v. passes (λ j. passes (f v j) 8) 8) 256 v hv every))

set_fact : Fact
set_fact v j k = same (byte_bit (bit_or v (2 ^ j)) k) (if j == k then true else byte_bit v k)

clear_fact : Fact
clear_fact v j k =
    same (byte_bit (bit_and v (255 - 2 ^ j)) k) (if j == k then false else byte_bit v k)

range_fact : Fact
range_fact v j k = ltb (bit_or v (2 ^ j)) 256 && ltb (bit_and v (255 - 2 ^ j)) 256

set_table : holds set_fact ≡ true
unfolding holds set_fact same
set_table = refl

clear_table : holds clear_fact ≡ true
unfolding holds clear_fact same
clear_table = refl

range_table : holds range_fact ≡ true
unfolding holds range_fact
range_table = refl

module _ (v j : ℕ) (hv : v < 256) (hj : j < 8) where
  pub bit-set :
      (k : ℕ) → k < 8 → byte_bit (bit_or v (2 ^ j)) k ≡ (if j == k then true else byte_bit v k)
  unfolding set_fact
  bit-set k hk = same_sound _ _ (holds-at set_fact v j k hv hj hk set_table)

  pub bit-clear :
      (k : ℕ)
      → k < 8
      → byte_bit (bit_and v (255 - 2 ^ j)) k ≡ (if j == k then false else byte_bit v k)
  unfolding clear_fact
  bit-clear k hk = same_sound _ _ (holds-at clear_fact v j k hv hj hk clear_table)

  pub bytes_stay : (bit_or v (2 ^ j) < 256) × (bit_and v (255 - 2 ^ j) < 256)
  unfolding range_fact
  bytes_stay = ground (arith, holds-at range_fact v j 0 hv hj (omega arith) range_table)
