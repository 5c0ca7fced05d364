-- ===== src/Avl/Lists.antt =====
-- Insertion and removal on sorted lists, at either side of the root of a tree.
use raw_os.Common.{◌≡◌, ◌≢◌, refl, ap, List, [], ◌∷◌, ◌++◌, Ordering, arith}
use raw_os.Avl.{Hole, compare_hole}
use raw_os.Avl.Sorted.{
  ◌≺◌, All, IsSorted, insert_sorted, remove_sorted, compare_hole-lt, compare_hole-gt,
  compare_hole_refl, ≺_trans, lt_of_compare_hole, gt_of_compare_hole, eq_of_compare_hole,
}

pub All-imp :
    {P Q : Hole → Type 0} (xs : List Hole) → ((x : Hole) → P x → Q x) → All P xs → All Q xs
All-imp [] f h = tt
All-imp (x ∷ xs) f h = (f x h.0, All-imp xs f h.1)

pub All-append : (P : Hole → Type 0) (xs ys : List Hole) → All P xs → All P ys → All P (xs ++ ys)
All-append P [] ys h k = k
All-append P (x ∷ xs) ys h k = (h.0, All-append P xs ys h.1 k)

pub All-append_left : (P : Hole → Type 0) (xs ys : List Hole) → All P (xs ++ ys) → All P xs
All-append_left P [] ys h = tt
All-append_left P (x ∷ xs) ys h = (h.0, All-append_left P xs ys h.1)

pub All-append_right : (P : Hole → Type 0) (xs ys : List Hole) → All P (xs ++ ys) → All P ys
All-append_right P [] ys h = h
All-append_right P (x ∷ xs) ys h = All-append_right P xs ys h.1

-- What a sorted list says at one of its elements.
pub record IsSplit (xs : List Hole) (x : Hole) (ys : List Hole) : Type 0 where
  pub left : IsSorted xs
  pub below : All (λ y. y ≺ x) xs
  pub above : All (λ y. x ≺ y) ys
  pub right : IsSorted ys

pub IsSorted-IsSplit :
    (xs : List Hole) (x : Hole) (ys : List Hole) → IsSorted (xs ++ x ∷ ys) → IsSplit xs x ys
IsSorted-IsSplit [] x ys h = record { left = tt; below = tt; above = h.0; right = h.1 }
IsSorted-IsSplit (z ∷ xs) x ys h =
    let rest = IsSorted-IsSplit xs x ys h.1 in
    record {
      left = (All-append_left _ xs (x ∷ ys) h.0, rest.left);
      below = ((All-append_right _ xs (x ∷ ys) h.0).0, rest.below);
      above = rest.above;
      right = rest.right;
    }

pub IsSplit-IsSorted :
    (xs : List Hole) (x : Hole) (ys : List Hole) → IsSplit xs x ys → IsSorted (xs ++ x ∷ ys)
IsSplit-IsSorted [] x ys s = (s.above, s.right)
IsSplit-IsSorted (z ∷ xs) x ys s = (
  All-append _ xs (x ∷ ys) s.left.0
      (s.below.0, All-imp ys (λ y h. ≺_trans z x y s.below.0 h) s.above),
  IsSplit-IsSorted xs x ys
      (record { left = s.left.1; below = s.below.1; above = s.above; right = s.right }),
)

module _ (a : Hole) where
  pub insert_sorted-right :
      (xs : List Hole) (x : Hole) (ys : List Hole)
      → All (λ y. y ≺ x) xs
      → x ≺ a
      → insert_sorted a (xs ++ x ∷ ys) ≡ xs ++ x ∷ insert_sorted a ys
  insert_sorted-right [] x ys below lt = rw (compare_hole-gt a x lt, insert_sorted)
  insert_sorted-right (z ∷ xs) x ys below lt =
      rw (compare_hole-gt a z (≺_trans z x a below.0 lt), insert_sorted)
        (ap (◌∷◌ z) (insert_sorted-right xs x ys below.1 lt))

  pub insert_sorted-left :
      (xs : List Hole) (x : Hole) (ys : List Hole)
      → a ≺ x
      → insert_sorted a (xs ++ x ∷ ys) ≡ insert_sorted a xs ++ x ∷ ys
  insert_sorted-left [] x ys lt = rw (compare_hole-lt a x lt, insert_sorted)
  insert_sorted-left (z ∷ xs) x ys lt = ground (arith, insert_sorted-left xs x ys lt)

  pub remove_sorted-right :
      (xs : List Hole) (x : Hole) (ys : List Hole)
      → All (λ y. y ≺ x) xs
      → x ≺ a
      → remove_sorted a (xs ++ x ∷ ys) ≡ xs ++ x ∷ remove_sorted a ys
  remove_sorted-right [] x ys below lt = rw (compare_hole-gt a x lt, remove_sorted)
  remove_sorted-right (z ∷ xs) x ys below lt =
      rw (compare_hole-gt a z (≺_trans z x a below.0 lt), remove_sorted)
        (ap (◌∷◌ z) (remove_sorted-right xs x ys below.1 lt))

  remove_sorted-above : (xs : List Hole) → All (λ y. a ≺ y) xs → remove_sorted a xs ≡ xs
  remove_sorted-above [] h = refl
  remove_sorted-above (x ∷ xs) h =
      rw (compare_hole-lt a x h.0, remove_sorted) (ap (◌∷◌ x) (remove_sorted-above xs h.1))

  pub remove_sorted-left :
      (xs : List Hole) (x : Hole) (ys : List Hole)
      → All (λ y. x ≺ y) ys
      → a ≺ x
      → remove_sorted a (xs ++ x ∷ ys) ≡ remove_sorted a xs ++ x ∷ ys
  remove_sorted-left [] x ys above lt =
      remove_sorted-above (x ∷ ys) (lt, All-imp ys (λ y h. ≺_trans a x y lt h) above)
  remove_sorted-left (z ∷ xs) x ys above lt = ground (arith, remove_sorted-left xs x ys above lt)

  pub remove_sorted-here :
      (xs ys : List Hole) → All (λ y. y ≺ a) xs → remove_sorted a (xs ++ a ∷ ys) ≡ xs ++ ys
  remove_sorted-here [] ys below = rw (compare_hole_refl a, remove_sorted)
  remove_sorted-here (z ∷ xs) ys below =
      rw (compare_hole-gt a z below.0, remove_sorted)
        (ap (◌∷◌ z) (remove_sorted-here xs ys below.1))

  pub All-insert_sorted :
      (P : Hole → Type 0) (xs : List Hole) → P a → All P xs → All P (insert_sorted a xs)
  All-insert_sorted P [] p h = (p, tt)
  All-insert_sorted P (x ∷ xs) p h = ground (arith, All-insert_sorted P xs p)

  pub All-remove_sorted :
      (P : Hole → Type 0) (xs : List Hole) → All P xs → All P (remove_sorted a xs)
  All-remove_sorted P [] h = tt
  All-remove_sorted P (x ∷ xs) h = ground (arith, All-remove_sorted P xs)

  -- Inserting a new element keeps a list sorted.
  pub insert_sorted-IsSorted :
      (xs : List Hole) → All (λ y. a ≢ y) xs → IsSorted xs → IsSorted (insert_sorted a xs)
  insert_sorted-IsSorted [] new s = (tt, tt)
  insert_sorted-IsSorted (x ∷ xs) new s =
      by_order (compare_hole a x) refl (insert_sorted-IsSorted xs new.1 s.1)
    where
      by_order :
          (o : Ordering)
          → compare_hole a x ≡ o
          → IsSorted (insert_sorted a xs)
          → IsSorted (elim o [ Ordering.lt ↦ a ∷ x ∷ xs | _ ↦ x ∷ insert_sorted a xs ])
      by_order Ordering.lt e ih =
          let lt = lt_of_compare_hole a x e in ((lt, All-imp xs (λ y h. ≺_trans a x y lt h) s.0), s)
      by_order Ordering.eq e ih = absurd (new.0 (eq_of_compare_hole a x e))
      by_order Ordering.gt e ih =
          (All-insert_sorted (λ y. x ≺ y) xs (gt_of_compare_hole a x e) s.0, ih)

  pub remove_sorted-IsSorted : (xs : List Hole) → IsSorted xs → IsSorted (remove_sorted a xs)
  remove_sorted-IsSorted [] s = tt
  remove_sorted-IsSorted (x ∷ xs) s =
      ground (arith, remove_sorted-IsSorted xs s.1, All-remove_sorted (λ y. x ≺ y) xs s.0)
