-- ===== src/CString/Tests.antt =====
-- Examples for the string functions of util/util.c.
use raw_os.Common.{ℕ, ◌≡◌, ◌≢◌, ◌⊎◌, List, [], ◌∷◌, ok}
use raw_os.CString.{strcmp}
use raw_os.CString.Laws.{strcmp-decides}

abbrev a : List ℕ
a = 97 ∷ []

abbrev ab : List ℕ
ab = 97 ∷ 98 ∷ []

-- "a" and "ab", each with other bytes behind the zero byte.
strcmp-decides_example :
    ((a ≡ ab) × (strcmp (97 ∷ 0 ∷ 5 ∷ []) (97 ∷ 98 ∷ 0 ∷ []) ≡ ok 0))
    ⊎ ((a ≢ ab) × (strcmp (97 ∷ 0 ∷ 5 ∷ []) (97 ∷ 98 ∷ 0 ∷ []) ≡ ok 1))
strcmp-decides_example = strcmp-decides a ab (5 ∷ []) [] tt tt
