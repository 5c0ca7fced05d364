-- ===== src/Avl/Remove/Laws.antt =====
-- The removal of a hole of the tree, and of one that is not there.
use mathlib.Core.List.{append_assoc, append-nil}
use raw_os.Common.{
  ℕ, ◌≡◌, refl, ap, ◌∙◌, sym, Bool, false, List, [], ◌∷◌, ◌++◌, ◌>>=◌, inl, inr, Returns,
  Returns-imp, Returns-and, Returns->>=, arith, Ordering,
}
use raw_os.Avl.{Hole, Tree, leaf, node, Avl, Edit, compare_hole}
use raw_os.Avl.Shape.{IsAvl}
use raw_os.Avl.Valid.{IsHoles}
use raw_os.Avl.Sorted.{
  ◌≺◌, All, IsSorted, inorder, remove_sorted, compare_hole-lt, lt_of_compare_hole,
  gt_of_compare_hole, eq_of_compare_hole,
}
use raw_os.Avl.Lists.{
  IsSplit, IsSorted-IsSplit, remove_sorted-left, remove_sorted-right, remove_sorted-here,
  remove_sorted-IsSorted,
}
use raw_os.Avl.Remove.{remove_root, remove_internal, kalloc_avl_remove, shrink_left, shrink_right}
use raw_os.Avl.Remove.Shrink.{
  shrink_left-Shrunk, shrink_right-Shrunk, shrink_left-Keeps, shrink_right-Keeps,
}
use raw_os.Avl.Remove.Root.{IsRemoved, IsLast, remove_root-IsRemoved}
use mathlib.Core.Path.{subst}
use raw_os.Avl.Sorted.{Has, Has-append}

-- An element of a sorted list stands on its side of every other.
Has-All : (P : Hole → Type 0) (a : Hole) (xs : List Hole) → All P xs → Has a xs → P a
Has-All P a [] h m = absurd m
Has-All P a (x ∷ xs) h (inl e) = rw e h.0
Has-All P a (x ∷ xs) h (inr m) = Has-All P a xs h.1 m

≺_irrefl : (a b : Hole) → a ≺ b → b ≺ a → ⊥
≺_irrefl a b h k = ground arith

Has-last : (q : Hole) (init : List Hole) → Has q (init ++ q ∷ [])
Has-last q [] = inl refl
Has-last q (x ∷ init) = inr (Has-last q init)

IsLast-Has : (q : Hole) (xs : List Hole) → IsLast q xs → Has q xs
IsLast-Has q xs (init, e) = rw e (Has-last q init)

-- Moving the last element of a sorted list behind the list.
remove_sorted-last :
    (q : Hole) (xs ys : List Hole)
    → IsLast q xs
    → IsSorted xs
    → remove_sorted q xs ++ q ∷ ys ≡ xs ++ ys
remove_sorted-last q xs ys (init, e) s =
    let s' : IsSorted (init ++ q ∷ []) = subst IsSorted e s in
    rw (e, remove_sorted-here q init [] (IsSorted-IsSplit init q [] s').below)
      (rw (append-nil init) (sym (append_assoc init (q ∷ []) ys)))

module _ (p : ℕ) (l r : Tree) (h : ℕ) (k hole : Hole) (free : List ℕ) (v : IsAvl (node p l r h k))
    (split : IsSplit (inorder l) k (inorder r)) where
  on_the_right : k ≺ hole → Has hole (inorder (node p l r h k)) → Has hole (inorder r)
  on_the_right lt m = elim (Has-append hole (inorder l) (k ∷ inorder r) m) [
    | inl left ↦
        absurd (≺_irrefl k hole lt (Has-All (λ y. y ≺ k) hole (inorder l) split.below left))
    | inr (inl e) ↦ absurd (ground arith)
    | inr (inr right) ↦ right
  ]

  on_the_left : hole ≺ k → Has hole (inorder (node p l r h k)) → Has hole (inorder l)
  on_the_left lt m = elim (Has-append hole (inorder l) (k ∷ inorder r) m) [
    | inl left ↦ left
    | inr (inl e) ↦ absurd (ground arith)
    | inr (inr right) ↦
        absurd (≺_irrefl hole k lt (Has-All (λ y. k ≺ y) hole (inorder r) split.above right))
  ]

  shrink_right-IsRemoved :
      (e : Edit)
      → k ≺ hole
      → IsRemoved r hole free e
      → Returns (shrink_right p l h k e) (IsRemoved (node p l r h k) hole free)
  shrink_right-IsRemoved e lt i =
      Returns-imp (shrink_right p l h k e) _ _
        (Returns-and (shrink_right p l h k e) _ _
          (shrink_right-Shrunk p l r h k e v (i.balanced, i.shrinks))
          (shrink_right-Keeps p l h k e))
        (λ e' (b, keeps). record {
          balanced = b.0;
          shrinks = b.1;
          holes =
              keeps.0
              ∙ ap (λ xs. inorder l ++ k ∷ xs) i.holes
              ∙ sym (remove_sorted-right hole (inorder l) k (inorder r) split.below lt);
          freed = i.freed;
          free_grows = keeps.1 ∙ i.free_grows;
          found = keeps.2 ∙ i.found;
        })

  shrink_left-IsRemoved :
      (e : Edit)
      → hole ≺ k
      → IsRemoved l hole free e
      → Returns (shrink_left p r h k e) (IsRemoved (node p l r h k) hole free)
  shrink_left-IsRemoved e lt i =
      Returns-imp (shrink_left p r h k e) _ _
        (Returns-and (shrink_left p r h k e) _ _
          (shrink_left-Shrunk p l r h k e v (i.balanced, i.shrinks)) (shrink_left-Keeps p r h k e))
        (λ e' (b, keeps). record {
          balanced = b.0;
          shrinks = b.1;
          holes =
              keeps.0
              ∙ ap (λ xs. xs ++ k ∷ inorder r) i.holes
              ∙ sym (remove_sorted-left hole (inorder l) k (inorder r) split.above lt);
          freed = i.freed;
          free_grows = keeps.1 ∙ i.free_grows;
          found = keeps.2 ∙ i.found;
        })

  -- The predecessor `q` of the hole has been removed from the left subtree and stands in its place.
  predecessor-IsRemoved :
      (q : Hole) (e : Edit)
      → IsLast q (inorder l)
      → IsRemoved l q free e
      → Returns (shrink_left p r h q e) (IsRemoved (node p l r h k) k free)
  predecessor-IsRemoved q e last i =
      Returns-imp (shrink_left p r h q e) _ _
        (Returns-and (shrink_left p r h q e) _ _
          (shrink_left-Shrunk p l r h q e v (i.balanced, i.shrinks)) (shrink_left-Keeps p r h q e))
        (λ e' (b, keeps). record {
          balanced = b.0;
          shrinks = b.1;
          holes =
              keeps.0
              ∙ ap (λ xs. xs ++ q ∷ inorder r) i.holes
              ∙ remove_sorted-last q (inorder l) (inorder r) last split.left
              ∙ sym (remove_sorted-here k (inorder l) (inorder r) split.below);
          freed = i.freed;
          free_grows = keeps.1 ∙ i.free_grows;
          found = keeps.2 ∙ i.found;
        })

remove_internal-IsRemoved :
    (t : Tree) (hole : Hole) (free : List ℕ) (c : Bool)
    → IsAvl t
    → IsSorted (inorder t)
    → Has hole (inorder t)
    → Returns (remove_internal t hole free c) (IsRemoved t hole free)
unfolding remove_internal
remove_internal-IsRemoved leaf hole free c v s m = absurd m
remove_internal-IsRemoved (node p l r h k) hole free c v s m =
    by_order (compare_hole hole k) refl
      (λ q has. remove_internal-IsRemoved l q free c v.0 split.left has)
      (λ has. remove_internal-IsRemoved r hole free c v.1 split.right has)
  where
    split : IsSplit (inorder l) k (inorder r)
    split = IsSorted-IsSplit (inorder l) k (inorder r) s

    on_predecessor :
        ((q : Hole) → Has q (inorder l) → Returns (remove_internal l q free c) (IsRemoved l q free))
        → (q : Hole) → IsLast q (inorder l)
        → Returns
            (elim (compare_hole q k) [
              | Ordering.gt ↦ remove_internal r q free c >>= shrink_right p l h q
              | _ ↦ remove_internal l q free c >>= shrink_left p r h q
            ])
            (IsRemoved (node p l r h k) k free)
    on_predecessor left q last =
        let has = IsLast-Has q (inorder l) last in
        rw (compare_hole-lt q k (Has-All (λ y. y ≺ k) q (inorder l) split.below has)) (
          Returns->>= (remove_internal l q free c) _ _ _ (left q has)
            (λ d. predecessor-IsRemoved p l r h k hole free v split q d last))

    by_order :
        (o : Ordering)
        → compare_hole hole k ≡ o
        → ((q : Hole)
            → Has q (inorder l)
            → Returns (remove_internal l q free c) (IsRemoved l q free))
        → (Has hole (inorder r) → Returns (remove_internal r hole free c) (IsRemoved r hole free))
        → Returns
            (elim o [
              | Ordering.eq ↦ remove_root (node p l r h k) free λ q. elim (compare_hole q k) [
                | Ordering.gt ↦ remove_internal r q free c >>= shrink_right p l h q
                | _ ↦ remove_internal l q free c >>= shrink_left p r h q
              ]
              | Ordering.gt ↦ remove_internal r hole free c >>= shrink_right p l h k
              | Ordering.lt ↦ remove_internal l hole free c >>= shrink_left p r h k
            ])
            (IsRemoved (node p l r h k) hole free)
    by_order Ordering.eq e left right =
        rw (eq_of_compare_hole hole k e)
          (remove_root-IsRemoved p l r h k free _ v split.below (on_predecessor left))
    by_order Ordering.gt e left right =
        let lt = gt_of_compare_hole hole k e in
        Returns->>= (remove_internal r hole free c) _ _ _
          (right (on_the_right p l r h k hole free v split lt m))
          (λ d. shrink_right-IsRemoved p l r h k hole free v split d lt)
    by_order Ordering.lt e left right =
        let lt = lt_of_compare_hole hole k e in
        Returns->>= (remove_internal l hole free c) _ _ _
          (left hole (on_the_left p l r h k hole free v split lt m))
          (λ d. shrink_left-IsRemoved p l r h k hole free v split d lt)

-- Removing a hole of a valid tree returns and finds it, whatever the uninitialised flag holds; the
-- tree stays balanced and sorted, holds what removal from the sorted list leaves, and one node is
-- put before the free ones.
pub kalloc_avl_remove-refines :
    (uninitialised : Bool) (avl : Avl) (hole : Hole)
    → IsHoles avl
    → Has hole (inorder avl.root)
    → Returns (kalloc_avl_remove uninitialised avl hole) (λ r.
      IsHoles r.0
      × (inorder r.0.root ≡ remove_sorted hole (inorder avl.root))
      × ((n : ℕ) × (r.0.free ≡ n ∷ avl.free))
      × (r.1 ≡ false))
unfolding kalloc_avl_remove
kalloc_avl_remove-refines uninitialised avl hole v has =
    Returns->>= (remove_internal avl.root hole avl.free uninitialised)
      (IsRemoved avl.root hole avl.free) _ _
      (remove_internal-IsRemoved avl.root hole avl.free uninitialised v.balanced v.sorted has)
      (λ e i. (
        record {
          balanced = i.balanced;
          sorted = rw i.holes (remove_sorted-IsSorted hole (inorder avl.root) v.sorted);
        },
        i.holes,
        (i.freed, i.free_grows),
        i.found,
      ))
