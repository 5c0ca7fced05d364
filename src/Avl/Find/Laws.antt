-- ===== src/Avl/Find/Laws.antt =====
-- Which hole the search answers.
use raw_os.Common.{
  ℕ, ◌+◌, ◌^◌, ◌≤◌, ◌<◌, ◌≡◌, ◌≢◌, refl, sym, true, List, [], ◌∷◌, ◌++◌, leb, ◌==◌, if◌then◌else◌,
  ◌⊎◌, inl, inr, arith, lt_or_le,
}
use raw_os.Avl.{Hole, Tree, leaf, node, Avl, compare_hole_size}
use raw_os.Avl.Valid.{IsHoles}
use raw_os.Avl.Sorted.{◌≺◌, All, IsSorted, inorder}
use raw_os.Avl.Lists.{All-imp, All-append_left, All-append_right, IsSorted-IsSplit}
use raw_os.Avl.Find.{hole_has_alignment_space, avl_find_hole_internal, kalloc_avl_find_hole}
use raw_os.Avl.Sorted.{Has, Has-left, Has-right}

-- The address of the first hole of a list that is large enough; 0 if there is none.
abbrev pub first_fit : ℕ → List Hole → ℕ
first_fit wanted [] = 0
first_fit wanted (x ∷ xs) = if leb wanted x.size then x.addr else first_fit wanted xs

first_fit-skip :
    (wanted : ℕ) (xs ys : List Hole)
    → All (λ x. x.size < wanted) xs
    → first_fit wanted (xs ++ ys) ≡ first_fit wanted ys
first_fit-skip wanted [] ys h = refl
first_fit-skip wanted (x ∷ xs) ys h = ground (arith, first_fit-skip wanted xs ys h.1)

first_fit-root :
    (wanted : ℕ) (xs : List Hole) (k : Hole) (ys : List Hole)
    → All (λ x. x.addr ≢ 0) xs
    → wanted ≤ k.size
    → first_fit wanted (xs ++ k ∷ ys)
      ≡ (if first_fit wanted xs == 0 then k.addr else first_fit wanted xs)
first_fit-root wanted [] k ys h le = ground arith
first_fit-root wanted (x ∷ xs) k ys h le = ground (arith, first_fit-root wanted xs k ys h.1 le)

size_below : (x k : Hole) (wanted : ℕ) → x ≺ k → k.size < wanted → x.size < wanted
size_below x k wanted lt small = ground arith

no_alignment :
    (hole : Hole) (wanted : ℕ)
    → wanted < 2 ^ 32
    → hole_has_alignment_space hole wanted 0 ≡ leb wanted hole.size
unfolding hole_has_alignment_space
no_alignment hole wanted h = ground arith

find-eq-first_fit :
    (t : Tree) (wanted : ℕ)
    → IsSorted (inorder t)
    → All (λ x. x.addr ≢ 0) (inorder t)
    → wanted < 2 ^ 32
    → avl_find_hole_internal t wanted 0 ≡ first_fit wanted (inorder t)
unfolding avl_find_hole_internal compare_hole_size
find-eq-first_fit leaf wanted s addrs w = refl
find-eq-first_fit (node p l r h k) wanted s addrs w =
    let split = IsSorted-IsSplit (inorder l) k (inorder r) s in
    let addrs_r = All-append_right (λ x. x.addr ≢ 0) (inorder l) (k ∷ inorder r) addrs in
    let addrs_l = All-append_left (λ x. x.addr ≢ 0) (inorder l) (k ∷ inorder r) addrs in
    let right = find-eq-first_fit r wanted split.right addrs_r.1 w in
    let left = find-eq-first_fit l wanted split.left addrs_l w in
    elim (lt_or_le wanted (k.size + 1)) [
      | inr small ↦
          let skip =
            first_fit-skip wanted (inorder l) (k ∷ inorder r)
              (All-imp (inorder l) (λ x lt. size_below x k wanted lt (omega arith)) split.below) in
          ground (arith, no_alignment k wanted w)
      | inl fits ↦
          let root = first_fit-root wanted (inorder l) k (inorder r) addrs_l (omega arith) in
          ground (arith, no_alignment k wanted w)
    ]

-- Without an alignment the search answers the first hole that is large enough: of the least such
-- size, and of the least address among those of that size; 0 exactly if no hole is large enough.
pub kalloc_avl_find_hole-eq-first_fit :
    (avl : Avl) (wanted : ℕ)
    → IsHoles avl
    → All (λ x. x.addr ≢ 0) (inorder avl.root)
    → wanted < 2 ^ 32
    → kalloc_avl_find_hole avl wanted 0 ≡ first_fit wanted (inorder avl.root)
unfolding kalloc_avl_find_hole
kalloc_avl_find_hole-eq-first_fit avl wanted v addrs w =
    find-eq-first_fit avl.root wanted v.sorted addrs w

-- A hole is usable if it is large enough behind its first aligned address.
abbrev pub IsUsable : ℕ → ℕ → Hole → Type 0
IsUsable wanted alignment x =
    (wanted ≤ x.size) × (hole_has_alignment_space x wanted alignment ≡ true)

-- An answer is the address of a usable hole of the list.
abbrev pub Answers : (Hole → Type 0) → List Hole → ℕ → Type 0
Answers P xs a = (a ≡ 0) ⊎ ((x : Hole) × Has x xs × (x.addr ≡ a) × P x)

find_cases :
    (p : ℕ) (l r : Tree) (h : ℕ) (k : Hole) (wanted alignment : ℕ)
    → let found = avl_find_hole_internal (node p l r h k) wanted alignment in
      (found ≡ avl_find_hole_internal r wanted alignment)
      ⊎ (found ≡ avl_find_hole_internal l wanted alignment)
      ⊎ (found ≡ k.addr) × IsUsable wanted alignment k
unfolding avl_find_hole_internal compare_hole_size
find_cases p l r h k wanted alignment = ground arith

find-Answers :
    (t : Tree) (wanted alignment : ℕ)
    → Answers (IsUsable wanted alignment) (inorder t) (avl_find_hole_internal t wanted alignment)
unfolding avl_find_hole_internal
find-Answers leaf wanted alignment = inl refl
find-Answers (node p l r h k) wanted alignment =
    let P = IsUsable wanted alignment in
    elim (find_cases p l r h k wanted alignment) [
      | inl e ↦ rw e (on_right (find-Answers r wanted alignment))
      | inr (inl e) ↦ rw e (on_left (find-Answers l wanted alignment))
      | inr (inr (e, usable)) ↦
          inr (k, Has-right k (inorder l) (k ∷ inorder r) (inl refl), sym e, usable)
    ]
  where
    on_right :
        Answers (IsUsable wanted alignment) (inorder r) (avl_find_hole_internal r wanted alignment)
        → Answers
            (IsUsable wanted alignment)
            (inorder l ++ k ∷ inorder r)
            (avl_find_hole_internal r wanted alignment)
    on_right (inl none) = inl none
    on_right (inr (x, has, at, usable)) =
        inr (x, Has-right x (inorder l) (k ∷ inorder r) (inr has), at, usable)

    on_left :
        Answers (IsUsable wanted alignment) (inorder l) (avl_find_hole_internal l wanted alignment)
        → Answers
            (IsUsable wanted alignment)
            (inorder l ++ k ∷ inorder r)
            (avl_find_hole_internal l wanted alignment)
    on_left (inl none) = inl none
    on_left (inr (x, has, at, usable)) =
        inr (x, Has-left x (inorder l) (k ∷ inorder r) has, at, usable)

-- With any alignment, an answer other than 0 is the address of a hole of the tree that is large
-- enough behind its first aligned address.
pub kalloc_avl_find_hole-Answers :
    (avl : Avl) (wanted alignment : ℕ)
    → Answers
        (IsUsable wanted alignment)
        (inorder avl.root)
        (kalloc_avl_find_hole avl wanted alignment)
unfolding kalloc_avl_find_hole
kalloc_avl_find_hole-Answers avl wanted alignment = find-Answers avl.root wanted alignment
