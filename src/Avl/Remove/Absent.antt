-- ===== src/Avl/Remove/Absent.antt =====
-- The removal of a hole that is not in the tree.
use raw_os.Common.{ℕ, ◌≡◌, ◌≢◌, refl, Bool, true, false, List, ◌∷◌, ok, arith}
use raw_os.Avl.{Hole, Tree, leaf, node, Avl}
use raw_os.Avl.Sorted.{All, inorder, eq_of_compare_hole}
use raw_os.Avl.Lists.{All-append_left, All-append_right}
use raw_os.Avl.Remove.{remove_internal, kalloc_avl_remove, shrink_left, shrink_right}

shrink_right-same :
    (p : ℕ) (l r : Tree) (h : ℕ) (k : Hole) (free : List ℕ) (failed : Bool)
    → shrink_right p l h k (record { tree = r; free = free; changed = false; failed = failed })
      ≡ ok (record { tree = node p l r h k; free = free; changed = false; failed = failed })
unfolding shrink_right
shrink_right-same p l r h k free failed = refl

shrink_left-same :
    (p : ℕ) (l r : Tree) (h : ℕ) (k : Hole) (free : List ℕ) (failed : Bool)
    → shrink_left p r h k (record { tree = l; free = free; changed = false; failed = failed })
      ≡ ok (record { tree = node p l r h k; free = free; changed = false; failed = failed })
unfolding shrink_left
shrink_left-same p l r h k free failed = refl

remove_internal-absent :
    (t : Tree) (hole : Hole) (free : List ℕ)
    → All (λ y. hole ≢ y) (inorder t)
    → remove_internal t hole free false
      ≡ ok (record { tree = t; free = free; changed = false; failed = true })
unfolding remove_internal
remove_internal-absent leaf hole free absent = refl
remove_internal-absent (node p l r h k) hole free absent = ground (
  arith,
  (All-append_right (λ y. hole ≢ y) (inorder l) (k ∷ inorder r) absent).0,
  eq_of_compare_hole hole k,
  remove_internal-absent l hole free (All-append_left _ (inorder l) (k ∷ inorder r) absent),
  remove_internal-absent r hole free
      (All-append_right (λ y. hole ≢ y) (inorder l) (k ∷ inorder r) absent).1,
  shrink_left-same p l r h k free true,
  shrink_right-same p l r h k free true,
)

-- Removing a hole that the tree does not hold reports that and changes nothing, provided that the
-- uninitialised flag happens to hold 0.
pub kalloc_avl_remove-absent :
    (avl : Avl) (hole : Hole)
    → All (λ y. hole ≢ y) (inorder avl.root)
    → kalloc_avl_remove false avl hole ≡ ok (avl, true)
unfolding kalloc_avl_remove
kalloc_avl_remove-absent avl hole absent = rw (remove_internal-absent avl.root hole avl.free absent)
