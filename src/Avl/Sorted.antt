-- ===== src/Avl/Sorted.antt =====
-- The specification of the tree: the sorted list of its holes.
use raw_os.Common.{◌<◌, ◌≡◌, ◌⊎◌, inl, inr, List, [], ◌∷◌, ◌++◌, Ordering, arith}
use raw_os.Avl.{Hole, Tree, leaf, node, compare_hole}

infix 50 ◌≺◌
abbrev pub ◌≺◌ : Hole → Hole → Type 0
a ≺ b = (a.size < b.size) ⊎ ((a.size ≡ b.size) × (a.addr < b.addr))

pub lt_of_compare_hole : (a b : Hole) → compare_hole a b ≡ Ordering.lt → a ≺ b
unfolding compare_hole
lt_of_compare_hole a b h = ground arith

pub gt_of_compare_hole : (a b : Hole) → compare_hole a b ≡ Ordering.gt → b ≺ a
unfolding compare_hole
gt_of_compare_hole a b h = ground arith

pub eq_of_compare_hole : (a b : Hole) → compare_hole a b ≡ Ordering.eq → a ≡ b
unfolding compare_hole
eq_of_compare_hole a b h = ground arith

pub compare_hole-lt : (a b : Hole) → a ≺ b → compare_hole a b ≡ Ordering.lt
unfolding compare_hole
compare_hole-lt a b h = ground arith

pub compare_hole-gt : (a b : Hole) → b ≺ a → compare_hole a b ≡ Ordering.gt
unfolding compare_hole
compare_hole-gt a b h = ground arith

pub compare_hole_refl : (a : Hole) → compare_hole a a ≡ Ordering.eq
unfolding compare_hole
compare_hole_refl a = ground arith

pub ≺_trans : (a b c : Hole) → a ≺ b → b ≺ c → a ≺ c
≺_trans a b c h k = ground arith

abbrev pub All : (Hole → Type 0) → List Hole → Type 0
All P [] = Unit
All P (x ∷ xs) = P x × All P xs

abbrev pub IsSorted : List Hole → Type 0
IsSorted [] = Unit
IsSorted (x ∷ xs) = All (λ y. x ≺ y) xs × IsSorted xs

-- The holes of a tree from left to right.
abbrev pub inorder : Tree → List Hole
inorder leaf = []
inorder (node p l r h k) = inorder l ++ k ∷ inorder r

-- Insertion into a sorted list and removal from it.
abbrev pub insert_sorted : Hole → List Hole → List Hole
insert_sorted a [] = a ∷ []
insert_sorted a (x ∷ xs) = elim (compare_hole a x) [
  | Ordering.lt ↦ a ∷ x ∷ xs
  | _ ↦ x ∷ insert_sorted a xs
]

abbrev pub remove_sorted : Hole → List Hole → List Hole
remove_sorted a [] = []
remove_sorted a (x ∷ xs) = elim (compare_hole a x) [ Ordering.eq ↦ xs | _ ↦ x ∷ remove_sorted a xs ]

-- `a` is in the list.
abbrev pub Has : Hole → List Hole → Type 0
Has a [] = ⊥
Has a (x ∷ xs) = (a ≡ x) ⊎ Has a xs

pub Has-append : (a : Hole) (xs ys : List Hole) → Has a (xs ++ ys) → Has a xs ⊎ Has a ys
Has-append a [] ys h = inr h
Has-append a (x ∷ xs) ys (inl e) = inl (inl e)
Has-append a (x ∷ xs) ys (inr h) = elim (Has-append a xs ys h) [
  | inl l ↦ inl (inr l)
  | inr r ↦ inr r
]

pub Has-left : (a : Hole) (xs ys : List Hole) → Has a xs → Has a (xs ++ ys)
Has-left a [] ys h = absurd h
Has-left a (x ∷ xs) ys (inl e) = inl e
Has-left a (x ∷ xs) ys (inr h) = inr (Has-left a xs ys h)

pub Has-right : (a : Hole) (xs ys : List Hole) → Has a ys → Has a (xs ++ ys)
Has-right a [] ys h = h
Has-right a (x ∷ xs) ys h = inr (Has-right a xs ys h)
