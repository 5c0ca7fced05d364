-- ===== src/Avl/Shape.antt =====
-- The balance invariant of the tree, and how its height moves.
use raw_os.Common.{ℕ, ◌+◌, ◌≤◌, ◌≡◌, ◌≢◌, ◌⊎◌, max, Bool, true, false, refl}
use raw_os.Avl.{Hole, Tree, leaf, node, height}
use raw_os.Avl.{update_node_height}

-- The heights stored at the nodes are right, and those of two siblings differ by at most 1.
abbrev pub IsAvl : Tree → Type 0
IsAvl leaf = Unit
IsAvl (node p l r h k) =
    IsAvl l
    × IsAvl r
    × (h ≡ max (height r) (height l) + 1)
    × (height l ≤ height r + 1)
    × (height r ≤ height l + 1)

-- A tree of one node, or one whose subtrees have different heights.
abbrev pub Leans : Tree → Type 0
Leans leaf = ⊥
Leans (node p l r h k) = (h ≡ 1) ⊎ (height l ≢ height r)

-- How the height of `t` moves to that of `t'` in an insertion, by the flag that it leaves.
abbrev pub Grows : Tree → Bool → Tree → Type 0
Grows t true t' = (height t' ≡ height t + 1) × Leans t'
Grows t false t' = height t' ≡ height t

-- A node over balanced subtrees of nearly equal height, once its own height is written.
pub update_node_height-IsAvl :
    (p : ℕ) (l r : Tree) (k : Hole)
    → IsAvl l
    → IsAvl r
    → height l ≤ height r + 1
    → height r ≤ height l + 1
    → IsAvl (update_node_height p l r k)
unfolding update_node_height
update_node_height-IsAvl p l r k v w a b = (v, w, refl, a, b)
