-- ===== src/Avl/Insert/Laws.antt =====
-- The insertion returns a balanced tree that holds the sorted list with the new hole.
use raw_os.Common.{
  ℕ, ◌≡◌, ◌≢◌, refl, ap, ◌∙◌, sym, false, List, ◌∷◌, ◌++◌, panicked, ◌>>=◌, Returns, Ensures, arith,
  Ordering, Returns->>=, Returns-and, Returns-imp, inl,
}
use raw_os.Avl.{Hole, Tree, leaf, node, Avl, Edit, compare_hole, get_free_node, get_balance_factor}
use raw_os.Avl.Shape.{IsAvl, Grows}
use raw_os.Avl.Sorted.{
  inorder, IsSorted, All, insert_sorted, lt_of_compare_hole, gt_of_compare_hole, eq_of_compare_hole,
}
use raw_os.Avl.Lists.{
  IsSorted-IsSplit, All-append_left, All-append_right, insert_sorted-left, insert_sorted-right,
}
use raw_os.Avl.Insert.{
  grow_right, grown_right, grow_left, grown_left, insert_internal, kalloc_avl_insert,
}
use raw_os.Avl.Insert.Grow.{grow_left-Balanced, grow_right-Balanced}
use raw_os.Avl.Lists.{IsSplit}
use raw_os.Avl.Sorted.{◌≺◌}
use raw_os.Avl.Lists.{insert_sorted-IsSorted}
use raw_os.Avl.Rebalance.{rebalance_left-SameHoles, rebalance_right-SameHoles}
use raw_os.Avl.Valid.{IsHoles}

-- A step keeps the free list and the error flag, and the holes in their order.
abbrev Keeps : List Hole → Edit → Edit → Type 0
Keeps holes e e' = (inorder e'.tree ≡ holes) × (e'.free ≡ e.free) × (e'.failed ≡ e.failed)

module _ (p : ℕ) (l : Tree) (h : ℕ) (k : Hole) (e : Edit) where
  grown_right-Keeps : Ensures (grown_right p l h k e) (Keeps (inorder l ++ k ∷ inorder e.tree) e)
  unfolding grown_right get_balance_factor
  grown_right-Keeps = ground (arith, rebalance_left-SameHoles (node p l e.tree h k) e.tree)

  grow_right-Keeps : Ensures (grow_right p l h k e) (Keeps (inorder l ++ k ∷ inorder e.tree) e)
  unfolding grow_right
  grow_right-Keeps = ground (arith, grown_right-Keeps)

module _ (p : ℕ) (r : Tree) (h : ℕ) (k : Hole) (e : Edit) where
  grown_left-Keeps : Ensures (grown_left p r h k e) (Keeps (inorder e.tree ++ k ∷ inorder r) e)
  unfolding grown_left get_balance_factor
  grown_left-Keeps = ground (arith, rebalance_right-SameHoles (node p e.tree r h k) e.tree)

  grow_left-Keeps : Ensures (grow_left p r h k e) (Keeps (inorder e.tree ++ k ∷ inorder r) e)
  unfolding grow_left
  grow_left-Keeps = ground (arith, grown_left-Keeps)

-- `e` is what the insertion of `hole` into `t` leaves, where `rest` are the free nodes left.
pub record IsInserted (t : Tree) (hole : Hole) (rest : List ℕ) (e : Edit) : Type 0 where
  pub balanced : IsAvl e.tree
  pub grows : Grows t e.changed e.tree
  pub holes : inorder e.tree ≡ insert_sorted hole (inorder t)
  pub free : e.free ≡ rest
  pub no_error : e.failed ≡ false

module _ (p : ℕ) (l r : Tree) (h : ℕ) (k hole : Hole) (rest : List ℕ) (v : IsAvl (node p l r h k))
    (split : IsSplit (inorder l) k (inorder r)) (e : Edit) where
  grow_right-IsInserted :
      k ≺ hole
      → IsInserted r hole rest e
      → Returns (grow_right p l h k e) (IsInserted (node p l r h k) hole rest)
  grow_right-IsInserted lt i =
      Returns-imp (grow_right p l h k e) _ _
        (Returns-and (grow_right p l h k e) _ _
          (grow_right-Balanced p l r h k e v (i.balanced, i.grows)) (grow_right-Keeps p l h k e))
        (λ e' (b, keeps). record {
          balanced = b.0;
          grows = b.1;
          holes =
              keeps.0
              ∙ ap (λ xs. inorder l ++ k ∷ xs) i.holes
              ∙ sym (insert_sorted-right hole (inorder l) k (inorder r) split.below lt);
          free = keeps.1 ∙ i.free;
          no_error = keeps.2 ∙ i.no_error;
        })

  grow_left-IsInserted :
      hole ≺ k
      → IsInserted l hole rest e
      → Returns (grow_left p r h k e) (IsInserted (node p l r h k) hole rest)
  grow_left-IsInserted lt i =
      Returns-imp (grow_left p r h k e) _ _
        (Returns-and (grow_left p r h k e) _ _
          (grow_left-Balanced p l r h k e v (i.balanced, i.grows)) (grow_left-Keeps p r h k e))
        (λ e' (b, keeps). record {
          balanced = b.0;
          grows = b.1;
          holes =
              keeps.0
              ∙ ap (λ xs. xs ++ k ∷ inorder r) i.holes
              ∙ sym (insert_sorted-left hole (inorder l) k (inorder r) lt);
          free = keeps.1 ∙ i.free;
          no_error = keeps.2 ∙ i.no_error;
        })

insert_internal-IsInserted :
    (t : Tree) (hole : Hole) (n : ℕ) (rest : List ℕ)
    → IsAvl t
    → IsSorted (inorder t)
    → All (λ y. hole ≢ y) (inorder t)
    → Returns (insert_internal t hole (n ∷ rest)) (IsInserted t hole rest)
unfolding insert_internal get_free_node
insert_internal-IsInserted leaf hole n rest v s new = record {
  balanced = (tt, tt, omega arith, omega arith, omega arith);
  grows = (omega arith, inl refl);
  holes = refl;
  free = refl;
  no_error = refl;
}
insert_internal-IsInserted (node p l r h k) hole n rest v s new =
    by_order (compare_hole hole k) refl
      (insert_internal-IsInserted l hole n rest v.0 split.left (All-append_left _ _ _ new))
      (insert_internal-IsInserted r hole n rest v.1 split.right
        (All-append_right _ (inorder l) _ new).1)
  where
    split : IsSplit (inorder l) k (inorder r)
    split = IsSorted-IsSplit (inorder l) k (inorder r) s

    by_order :
        (o : Ordering)
        → compare_hole hole k ≡ o
        → Returns (insert_internal l hole (n ∷ rest)) (IsInserted l hole rest)
        → Returns (insert_internal r hole (n ∷ rest)) (IsInserted r hole rest)
        → Returns
            (elim o [
              | Ordering.eq ↦ panicked
              | Ordering.gt ↦ insert_internal r hole (n ∷ rest) >>= grow_right p l h k
              | Ordering.lt ↦ insert_internal l hole (n ∷ rest) >>= grow_left p r h k
            ])
            (IsInserted (node p l r h k) hole rest)
    by_order Ordering.eq e left right =
        (All-append_right _ (inorder l) _ new).0 (eq_of_compare_hole hole k e)
    by_order Ordering.gt e left right =
        Returns->>= (insert_internal r hole (n ∷ rest)) _ _ _ right
          (λ d. grow_right-IsInserted p l r h k hole rest v split d (gt_of_compare_hole hole k e))
    by_order Ordering.lt e left right =
        Returns->>= (insert_internal l hole (n ∷ rest)) _ _ _ left
          (λ d. grow_left-IsInserted p l r h k hole rest v split d (lt_of_compare_hole hole k e))

-- Inserting a new hole into a valid tree, with a free node left, returns without an error; the tree
-- stays balanced and sorted, holds what insertion into the sorted list gives, and uses one node.
pub kalloc_avl_insert-refines :
    (avl : Avl) (hole : Hole) (n : ℕ) (rest : List ℕ)
    → IsHoles avl
    → avl.free ≡ n ∷ rest
    → All (λ y. hole ≢ y) (inorder avl.root)
    → Returns (kalloc_avl_insert avl hole) (λ r.
      IsHoles r.0
      × (inorder r.0.root ≡ insert_sorted hole (inorder avl.root))
      × (r.0.free ≡ rest)
      × (r.1 ≡ false))
unfolding kalloc_avl_insert
kalloc_avl_insert-refines avl hole n rest v free new =
    Returns->>= (insert_internal avl.root hole avl.free) (IsInserted avl.root hole rest) _ _
      (rw free (insert_internal-IsInserted avl.root hole n rest v.balanced v.sorted new))
      (λ e i. (
        record {
          balanced = i.balanced;
          sorted = rw i.holes (insert_sorted-IsSorted hole (inorder avl.root) new v.sorted);
        },
        i.holes,
        i.free,
        i.no_error,
      ))
