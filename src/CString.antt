-- ===== src/CString.antt =====
-- util/util.c: the string functions and the memory functions. An array is the list of its bytes;
-- an access behind its end is undefined.
pub mod Laws
mod Tests
use raw_os.Common.{ℕ, zero, suc, List, [], ◌∷◌, Outcome, ok, fault, ◌>>=◌, ◌==◌, if◌then◌else◌}

unfoldable pub strlen : List ℕ → Outcome ℕ
strlen [] = fault
strlen (zero ∷ str) = ok 0
strlen (suc c ∷ str) = strlen str >>= λ len. ok (suc len)

-- The array `dst` after the copy.
unfoldable pub strcpy : List ℕ → List ℕ → Outcome (List ℕ)
strcpy dst [] = fault
strcpy [] (c ∷ src) = fault
strcpy (d ∷ dst) (zero ∷ src) = ok (0 ∷ dst)
strcpy (d ∷ dst) (suc c ∷ src) = strcpy dst src >>= λ copied. ok (suc c ∷ copied)

-- `!(s1[i] == 0 && s2[i] == 0)` where the loop ends with `s1[i]` zero.
unfoldable pub strcmp : List ℕ → List ℕ → Outcome ℕ
strcmp [] s2 = fault
strcmp (c ∷ s1) [] = fault
strcmp (zero ∷ s1) (zero ∷ s2) = ok 0
strcmp (zero ∷ s1) (suc d ∷ s2) = ok 1
strcmp (suc c ∷ s1) (zero ∷ s2) = ok 1
strcmp (suc c ∷ s1) (suc d ∷ s2) = let rest = strcmp s1 s2 in if c == d then rest else ok 1

unfoldable pub memcpy : List ℕ → List ℕ → ℕ → Outcome (List ℕ)
memcpy dst src zero = ok dst
memcpy [] src (suc size) = fault
memcpy (d ∷ dst) [] (suc size) = fault
memcpy (d ∷ dst) (s ∷ src) (suc size) = memcpy dst src size >>= λ copied. ok (s ∷ copied)

unfoldable pub memset : List ℕ → ℕ → ℕ → Outcome (List ℕ)
memset ptr value zero = ok ptr
memset [] value (suc num) = fault
memset (p ∷ ptr) value (suc num) = memset ptr value num >>= λ filled. ok (value ∷ filled)
