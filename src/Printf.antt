-- ===== src/Printf.antt =====
-- util/printf.c: the conversion of numbers to text. Arrays are lists of bytes.
pub mod Decimal
mod Tests
use raw_os.Common.{
  ℕ, zero, suc, ◌+◌, ◌-◌, ◌/◌, ◌%◌, ◌^◌, List, [], ◌∷◌, Outcome, ok, fault, ◌>>=◌, ltb, ◌==◌,
  if◌then◌else◌, set, length, drop, take, ◌++◌, replicate, ℤ, pos, negsuc,
}
use raw_os.CString.{memcpy}

-- The loop of both decimal conversions: `auxbuffer` points to `b[n - 1]`. The result is the array
-- and the final `n`; a write before the array's start is undefined.
unfoldable pub digits_loop : ℕ → ℕ → List ℕ → Outcome (List ℕ × ℕ)
digits_loop zero val b = if val == 0 then ok (b, 0) else fault
digits_loop (suc n) val b =
    if val == 0 then ok (b, suc n) else digits_loop n (val / 10) (set b n (48 + val % 10))

-- `buffer[0] = c`
unfoldable pub put_first : List ℕ → ℕ → Outcome (List ℕ)
put_first [] c = fault
put_first (x ∷ buffer) c = ok (c ∷ buffer)

-- The number of characters, and the buffer after the call.
unfoldable pub u32_to_str : ℕ → List ℕ → Outcome (ℕ × List ℕ)
u32_to_str val buffer =
    if val == 0
    then (put_first buffer 48 >>= λ buffer. ok (1, buffer))
    else (digits_loop 16 val (replicate 16 0) >>= λ r.
        memcpy buffer (drop r.1 r.0) (16 - r.1) >>= λ buffer. ok (16 - r.1, buffer))

-- `memcpy(&buffer[1], ...)`
unfoldable pub memcpy_after_first : List ℕ → List ℕ → ℕ → Outcome (List ℕ)
memcpy_after_first [] src size = fault
memcpy_after_first (x ∷ buffer) src size = memcpy buffer src size >>= λ copied. ok (x ∷ copied)

-- For a negative number `sum` is 1, so that `start` points behind the array and `size` is one more
-- than the number of digits. The negation of the least number is undefined.
unfoldable pub s32_to_str : ℤ → List ℕ → Outcome (ℕ × List ℕ)
s32_to_str (pos val) buffer = u32_to_str val buffer
s32_to_str (negsuc k) buffer =
    if ltb (k + 1) (2 ^ 31)
    then (put_first buffer 45 >>= λ buffer. digits_loop 16 (k + 1) (replicate 16 0) >>= λ r.
        memcpy_after_first buffer (drop r.1 r.0) (17 - r.1) >>= λ buffer. ok (17 - r.1, buffer))
    else fault
