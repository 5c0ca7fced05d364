-- ===== src/Paging/Marks.antt =====
-- Which entries of a swept table go and stay, and small facts on its tests.
use mathlib.Core.Path.{subst}
use raw_os.Common.{
  ℕ, zero, suc, ◌+◌, ◌≤◌, ◌<◌, ◌≡◌, ◌≢◌, refl, Bool, true, false, not, ◌&&◌, ◌||◌, Bool-cases, inl,
  inr, eq_or_lt, ◌==◌, if◌then◌else◌, leb, ltb, arith,
}
use raw_os.Paging.{PageDirectory, PageEntry, zero_entry, write}
use raw_os.Paging.Entries.{removed, stays, frees, any_stays}

-- A removed page among the entries frees its frame.
pub frees_hit :
    (first : ℕ) (pages : ℕ → PageEntry) (n j x : ℕ)
    → j ≤ x
    → x < j + n
    → removed first pages x ≡ true
    → frees first pages n j (pages x).frame_address_20_bits ≡ true
frees_hit first pages zero j x le lt e = absurd (omega (arith, le, lt))
frees_hit first pages (suc n) j x le lt e = elim (eq_or_lt j x le) [
  | inl same ↦
      subst
        (λ y.
          removed first pages y ≡ true
          → frees first pages (suc n) j (pages y).frame_address_20_bits ≡ true)
        same (λ r. rw r (ground arith)) e
  | inr l ↦ or_true _ _ (frees_hit first pages n (j + 1) x (omega arith) (omega arith) e)
]
  where
    or_true : (a b : Bool) → b ≡ true → (a || b) ≡ true
    or_true a b e = ground (arith, e)

-- No other frame is freed.
pub frees_miss :
    (first : ℕ) (pages : ℕ → PageEntry) (n j f : ℕ)
    → ((x : ℕ)
        → j ≤ x
        → x < j + n
        → removed first pages x ≡ true
        → (pages x).frame_address_20_bits ≢ f)
    → frees first pages n j f ≡ false
frees_miss first pages zero j f none_has = refl
frees_miss first pages (suc n) j f none_has =
    both
      (one_miss (removed first pages j) ((pages j).frame_address_20_bits)
        (none_has j (omega arith) (omega arith)))
      (frees_miss first pages n (j + 1) f λ x le lt. none_has x (omega arith) (omega arith))
  where
    one_miss : (r : Bool) (g : ℕ) → (r ≡ true → g ≢ f) → (r && (g == f)) ≡ false
    one_miss true g h = ground (arith, h refl)
    one_miss false g h = refl

    both : {a b : Bool} → a ≡ false → b ≡ false → (a || b) ≡ false
    both p q = ground (arith, p, q)

pub none_stays :
    (first : ℕ) (pages : ℕ → PageEntry) (n j x : ℕ)
    → any_stays first pages n j ≡ false
    → j ≤ x
    → x < j + n
    → stays first pages x ≡ false
none_stays first pages zero j x e le lt = absurd (omega (arith, le, lt))
none_stays first pages (suc n) j x e le lt = elim (eq_or_lt j x le) [
  | inl same ↦ subst (λ y. stays first pages y ≡ false) same (left_false _ _ e)
  | inr l ↦ none_stays first pages n (j + 1) x (right_false _ _ e) (omega arith) (omega arith)
]
  where
    left_false : (a b : Bool) → (a || b) ≡ false → a ≡ false
    left_false a b e = ground (arith, e)

    right_false : (a b : Bool) → (a || b) ≡ false → b ≡ false
    right_false a b e = ground (arith, e)

pub no_table_goes : (z b c : Bool) → z ≡ true → ((not z && b) && c) ≡ true → ⊥
no_table_goes z b c e f = ground (arith, e, f)

pub drop_test : (z b c : Bool) → z ≡ false → ((not z && b) && c) ≡ true → (b && c) ≡ true
drop_test z b c e f = ground (arith, e, f)

pub add_test : (z b c : Bool) → z ≡ false → (b && c) ≡ true → ((not z && b) && c) ≡ true
add_test z b c e f = ground (arith, e, f)

pub none_left : (z b c : Bool) → (b && c) ≡ false → false ≡ ((not z && b) && c)
none_left z b c e = ground (arith, e)

pub present_after :
    (p : PageEntry) (st : Bool)
    → (if p.present && not st then zero_entry else p).present ≡ (p.present && st)
present_after p st = elim (Bool-cases p.present) [
  | inl e ↦ elim (Bool-cases st) [ inl f ↦ rw (e, f) refl | inr f ↦ rw (e, f) refl ]
  | inr e ↦ rw e refl
]

pub in_range : (x : ℕ) (r : Bool) → x < 1024 → (leb 0 x && (ltb x (0 + 1024) && r)) ≡ r
in_range x r lt = ground arith

pub all_gone : (d m : Bool) → d ≡ true → d ≡ (true && not m) → m ≡ false
all_gone d m e f = ground (arith, e, f)

pub is_zero : (t : ℕ) → (t == 0) ≡ false → t ≢ 0
is_zero t e = ground (arith, e)

pub is_same : (t u : ℕ) → (t == u) ≡ true → u ≡ t
is_same t u e = ground arith

pub self_test : (t : ℕ) → (t == t) ≡ true
self_test t = ground arith

pub and_assoc : (a b c : Bool) → (a && (b && c)) ≡ ((a && b) && c)
and_assoc a b c = ground arith

pub differ : (k i : ℕ) → k ≢ i → (k == i) ≡ false
differ k i ne = ground arith

abbrev cleared : (ℕ → PageDirectory) → ℕ → ℕ → (ℕ → ℕ) → PageDirectory
cleared directories d i r =
    write directories d
      (record { tables = write (directories d).tables i 0; tables_x86_representation = r }) d

pub cleared_other :
    (directories : ℕ → PageDirectory) (d i k : ℕ) (r : ℕ → ℕ)
    → k ≢ i
    → (cleared directories d i r).tables k ≡ (directories d).tables k
cleared_other directories d i k r ne = rw (self_test d, differ k i ne) refl

pub cleared_self :
    (directories : ℕ → PageDirectory) (d i : ℕ) (r : ℕ → ℕ)
    → (cleared directories d i r).tables i ≡ 0
cleared_self directories d i r = rw (self_test d, self_test i) refl
