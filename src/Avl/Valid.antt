-- ===== src/Avl/Valid.antt =====
-- The invariant of the tree of holes.
use raw_os.Avl.{Avl}
use raw_os.Avl.Shape.{IsAvl}
use raw_os.Avl.Sorted.{inorder, IsSorted}

-- What the tree of holes is between two calls.
pub record IsHoles (avl : Avl) : Type 0 where
  pub balanced : IsAvl avl.root
  pub sorted : IsSorted (inorder avl.root)
