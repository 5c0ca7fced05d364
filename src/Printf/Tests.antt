-- ===== src/Printf/Tests.antt =====
-- Examples for the conversions of util/printf.c.
use raw_os.Common.{fault, negsuc, ℕ, ◌≡◌, refl, List, ◌∷◌, ◌++◌, ok, arith, length, drop, replicate}
use raw_os.CString.{memcpy}
use raw_os.Printf.{put_first, memcpy_after_first, s32_to_str, digits_loop, u32_to_str}
use raw_os.Printf.Decimal.{value_of, AllAreDigits, u32_to_str-value_of}

abbrev buffer : List ℕ
buffer = replicate 16 1

u32_to_str-value_of_example :
    (ds : List ℕ) × (u32_to_str 4294967295 buffer ≡ ok (length ds, ds ++ drop (length ds) buffer))
    × (value_of 0 ds ≡ 4294967295)
    × AllAreDigits ds
u32_to_str-value_of_example = u32_to_str-value_of 4294967295 buffer (omega arith) (omega arith)

-- The text of 307 in the buffer.
u32_to_str-307 : u32_to_str 307 buffer ≡ ok (3, 51 ∷ 48 ∷ 55 ∷ replicate 13 1)
unfolding u32_to_str digits_loop memcpy
u32_to_str-307 = refl

-- The conversion of -5 reads behind its array.
s32_to_str-minus_5 : s32_to_str (negsuc 4) buffer ≡ fault
unfolding s32_to_str put_first memcpy_after_first digits_loop memcpy
s32_to_str-minus_5 = refl
