-- ===== src/CString/Laws.antt =====
-- The functions of util/util.c on the text before the first zero byte.
use raw_os.Common.{
  ℕ, zero, suc, ◌≤◌, ◌<◌, ◌≡◌, ◌≢◌, refl, ◌∙◌, sym, ap, Bool, true, false, List, [], ◌∷◌, ◌++◌, ok,
  ◌==◌, if◌then◌else◌, arith, ◌⊎◌, inl, inr, length, take, drop, Bool-cases,
}
use raw_os.CString.{strlen, strcpy, strcmp, memcpy}

-- A text without a zero byte.
abbrev pub IsText : List ℕ → Type 0
IsText [] = Unit {0}
IsText (zero ∷ s) = ⊥
IsText (suc c ∷ s) = IsText s

-- The same text, and equal bytes.
abbrev pub same_text : List ℕ → List ℕ → Bool
same_text [] [] = true
same_text [] (d ∷ t) = false
same_text (c ∷ s) [] = false
same_text (c ∷ s) (d ∷ t) = if c == d then same_text s t else false

-- `strlen` of an array that starts with a text and a zero byte is the text's length.
pub strlen-length : (s rest : List ℕ) → IsText s → strlen (s ++ 0 ∷ rest) ≡ ok (length s)
unfolding strlen
strlen-length [] rest h = refl
strlen-length (zero ∷ s) rest h = absurd h
strlen-length (suc c ∷ s) rest h = rw (strlen-length s rest h)

pub same_text-eq : (s t : List ℕ) → same_text s t ≡ true → s ≡ t
same_text-eq [] [] e = refl
same_text-eq [] (d ∷ t) e = ground arith
same_text-eq (c ∷ s) [] e = ground arith
same_text-eq (c ∷ s) (d ∷ t) e = ground (arith, same_text-eq s t)

pub same_text_refl : (s : List ℕ) → same_text s s ≡ true
same_text_refl [] = refl
same_text_refl (c ∷ s) = ground (arith, same_text_refl s)

pub strcmp-same_text :
    (s t rest more : List ℕ)
    → IsText s
    → IsText t
    → strcmp (s ++ 0 ∷ rest) (t ++ 0 ∷ more) ≡ ok (if same_text s t then 0 else 1)
unfolding strcmp
strcmp-same_text [] [] rest more hs ht = refl
strcmp-same_text [] (zero ∷ t) rest more hs ht = absurd ht
strcmp-same_text [] (suc d ∷ t) rest more hs ht = refl
strcmp-same_text (zero ∷ s) t rest more hs ht = absurd hs
strcmp-same_text (suc c ∷ s) [] rest more hs ht = refl
strcmp-same_text (suc c ∷ s) (zero ∷ t) rest more hs ht = absurd ht
strcmp-same_text (suc c ∷ s) (suc d ∷ t) rest more hs ht =
    ground (arith, strcmp-same_text s t rest more hs ht)

-- `strcmp` of two arrays that start with a text and a zero byte returns 0 if the texts are the same
-- and 1 if not, whatever stands behind the zero bytes.
pub strcmp-decides :
    (s t rest more : List ℕ)
    → IsText s
    → IsText t
    → ((s ≡ t) × (strcmp (s ++ 0 ∷ rest) (t ++ 0 ∷ more) ≡ ok 0))
      ⊎ ((s ≢ t) × (strcmp (s ++ 0 ∷ rest) (t ++ 0 ∷ more) ≡ ok 1))
strcmp-decides s t rest more hs ht = elim (Bool-cases (same_text s t)) [
  | inl e ↦ inl (same_text-eq s t e, rw (strcmp-same_text s t rest more hs ht, e))
  | inr e ↦ inr (
    λ q. ground (arith, sym e ∙ ap (same_text s) (sym q) ∙ same_text_refl s),
    rw (strcmp-same_text s t rest more hs ht, e),
  )
]

-- `strcpy` of a text and its zero byte into an array with room for both writes them, and leaves the
-- rest of the array.
pub strcpy-text :
    (dst s rest : List ℕ)
    → IsText s
    → length s < length dst
    → strcpy dst (s ++ 0 ∷ rest) ≡ ok (s ++ 0 ∷ drop (suc (length s)) dst)
unfolding strcpy
strcpy-text [] s rest hs lt = elim lt [ ]
strcpy-text (d ∷ dst) [] rest hs lt = refl
strcpy-text (d ∷ dst) (zero ∷ s) rest hs lt = absurd hs
strcpy-text (d ∷ dst) (suc c ∷ s) rest hs lt = rw (strcpy-text dst s rest hs (omega arith))

-- `memcpy` inside of both arrays writes the first bytes of the source, and leaves the rest.
pub memcpy-take :
    (dst src : List ℕ) (size : ℕ)
    → size ≤ length dst
    → size ≤ length src
    → memcpy dst src size ≡ ok (take size src ++ drop size dst)
unfolding memcpy
memcpy-take dst src zero hd hs = refl
memcpy-take [] src (suc size) hd hs = elim hd [ ]
memcpy-take (d ∷ dst) [] (suc size) hd hs = elim hs [ ]
memcpy-take (d ∷ dst) (s ∷ src) (suc size) hd hs =
    rw (memcpy-take dst src size (omega arith) (omega arith))

-- The text in an array, up to its first zero byte, and that there is one.
abbrev pub text_of : List ℕ → List ℕ
text_of [] = []
text_of (zero ∷ s) = []
text_of (suc c ∷ s) = suc c ∷ text_of s

abbrev pub IsCString : List ℕ → Type 0
IsCString [] = ⊥
IsCString (zero ∷ s) = Unit {0}
IsCString (suc c ∷ s) = IsCString s

-- `strcmp` of two arrays with a zero byte compares the texts in them: it returns 0 if they are the
-- same and 1 if not.
pub strcmp-text_of :
    (a b : List ℕ)
    → IsCString a
    → IsCString b
    → strcmp a b ≡ ok (if same_text (text_of a) (text_of b) then 0 else 1)
unfolding strcmp
strcmp-text_of [] b ha hb = absurd ha
strcmp-text_of (zero ∷ a) [] ha hb = absurd hb
strcmp-text_of (suc c ∷ a) [] ha hb = absurd hb
strcmp-text_of (zero ∷ a) (zero ∷ b) ha hb = refl
strcmp-text_of (zero ∷ a) (suc d ∷ b) ha hb = refl
strcmp-text_of (suc c ∷ a) (zero ∷ b) ha hb = refl
strcmp-text_of (suc c ∷ a) (suc d ∷ b) ha hb = ground (arith, strcmp-text_of a b ha hb)

pub IsCString-text : (s rest : List ℕ) → IsText s → IsCString (s ++ 0 ∷ rest)
IsCString-text [] rest h = tt
IsCString-text (zero ∷ s) rest h = absurd h
IsCString-text (suc c ∷ s) rest h = IsCString-text s rest h

pub text_of-text : (s rest : List ℕ) → IsText s → text_of (s ++ 0 ∷ rest) ≡ s
text_of-text [] rest h = refl
text_of-text (zero ∷ s) rest h = absurd h
text_of-text (suc c ∷ s) rest h = ap (λ t. suc c ∷ t) (text_of-text s rest h)

pub IsText-snoc : (s : List ℕ) (c : ℕ) → IsText s → IsText (s ++ suc c ∷ [])
IsText-snoc [] c h = tt
IsText-snoc (zero ∷ s) c h = absurd h
IsText-snoc (suc d ∷ s) c h = IsText-snoc s c h

-- `strcpy` of an array with a zero byte into one that is at least as long copies its text, with a
-- zero byte after it.
pub strcpy-IsCString :
    (dst src : List ℕ)
    → IsCString src
    → length src ≤ length dst
    → (copied : List ℕ) × (strcpy dst src ≡ ok copied)
      × IsCString copied
      × (text_of copied ≡ text_of src)
unfolding strcpy
strcpy-IsCString dst [] h le = absurd h
strcpy-IsCString [] (c ∷ src) h le = elim le [ ]
strcpy-IsCString (d ∷ dst) (zero ∷ src) h le = (0 ∷ dst, refl, tt, refl)
strcpy-IsCString (d ∷ dst) (suc c ∷ src) h le =
    let (copied, e, z, t) = strcpy-IsCString dst src h (omega arith) in
    (suc c ∷ copied, rw e, z, ap (λ s. suc c ∷ s) t)
