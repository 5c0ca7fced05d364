-- ===== src/Avl/Remove/Root.antt =====
-- The removal at the node that holds the hole.
use mathlib.Core.List.{append_assoc}
use raw_os.Common.{ℕ, ◌≡◌, refl, ap, ◌∙◌, sym, false, List, [], ◌∷◌, ◌++◌, Outcome, Returns, arith}
use raw_os.Avl.{Hole, Tree, leaf, node, height, Edit, put_free_node}
use raw_os.Avl.Shape.{IsAvl}
use raw_os.Avl.Sorted.{inorder, remove_sorted, compare_hole_refl}
use raw_os.Avl.Remove.{rightmost, find_predecessor, remove_root}
use raw_os.Avl.Remove.Shrink.{Shrinks}
use raw_os.Avl.Sorted.{All, ◌≺◌}
use raw_os.Avl.Lists.{remove_sorted-here}

-- `e` is what the removal of `hole` from `t` leaves, where `free` were the free nodes before.
pub record IsRemoved (t : Tree) (hole : Hole) (free : List ℕ) (e : Edit) : Type 0 where
  pub balanced : IsAvl e.tree
  pub shrinks : Shrinks (height t) e.changed e.tree
  pub holes : inorder e.tree ≡ remove_sorted hole (inorder t)
  pub freed : ℕ
  pub free_grows : e.free ≡ freed ∷ free
  pub found : e.failed ≡ false

-- `q` is the last element of the list.
abbrev pub IsLast : Hole → List Hole → Type 0
IsLast q xs = (init : List Hole) × (xs ≡ init ++ q ∷ [])

pub rightmost-IsLast :
    (p : ℕ) (l r : Tree) (h : ℕ) (k : Hole) → IsLast (rightmost k r) (inorder (node p l r h k))
unfolding rightmost
rightmost-IsLast p l leaf h k = (inorder l, refl)
rightmost-IsLast p l (node q a b hq kq) h k =
    let (init, e) = rightmost-IsLast q a b hq kq in
    (
      inorder l ++ k ∷ init,
      ap (λ xs. inorder l ++ k ∷ xs) e ∙ sym (append_assoc (inorder l) (k ∷ init) _),
    )

remove_sorted-single : (k : Hole) → remove_sorted k (k ∷ []) ≡ []
remove_sorted-single k = rw (compare_hole_refl k, remove_sorted)

-- With two children the removal goes on with the last hole of the left subtree.
pub remove_root-IsRemoved :
    (p : ℕ) (l r : Tree) (h : ℕ) (k : Hole) (free : List ℕ) (descend : Hole → Outcome Edit)
    → IsAvl (node p l r h k)
    → All (λ y. y ≺ k) (inorder l)
    → ((q : Hole) → IsLast q (inorder l) → Returns (descend q) (IsRemoved (node p l r h k) k free))
    → Returns (remove_root (node p l r h k) free descend) (IsRemoved (node p l r h k) k free)
unfolding remove_root put_free_node find_predecessor
remove_root-IsRemoved p leaf leaf h k free descend v below rec = record {
  balanced = tt;
  shrinks = omega arith;
  holes = sym (remove_sorted-single k);
  freed = p;
  free_grows = refl;
  found = refl;
}
remove_root-IsRemoved p leaf (node q leaf leaf hq kq) h k free descend v below rec = record {
  balanced = (tt, tt, omega arith, omega arith, omega arith);
  shrinks = omega arith;
  holes = rw (compare_hole_refl k, remove_sorted);
  freed = q;
  free_grows = refl;
  found = refl;
}
remove_root-IsRemoved p leaf (node q (node s c d hs ks) b hq kq) h k free descend v below rec =
    absurd (omega arith)
remove_root-IsRemoved p leaf (node q leaf (node s c d hs ks) hq kq) h k free descend v below rec =
    absurd (omega arith)
remove_root-IsRemoved p (node q leaf leaf hq kq) leaf h k free descend v below rec = record {
  balanced = (tt, tt, omega arith, omega arith, omega arith);
  shrinks = omega arith;
  holes = sym (remove_sorted-here k (kq ∷ []) [] below);
  freed = q;
  free_grows = refl;
  found = refl;
}
remove_root-IsRemoved p (node q (node s c d hs ks) b hq kq) leaf h k free descend v below rec =
    absurd (omega arith)
remove_root-IsRemoved p (node q leaf (node s c d hs ks) hq kq) leaf h k free descend v below rec =
    absurd (omega arith)
remove_root-IsRemoved p (node q a b hq kq) (node s c d hs ks) h k free descend v below rec =
    rec (rightmost kq b) (rightmost-IsLast q a b hq kq)
