-- ===== src/Avl/Insert.antt =====
-- `insert_internal` and `kalloc_avl_insert` of alloc/kalloc_avl.c.
pub mod Grow
pub mod Laws
use raw_os.Common.{
  ℕ, zero, suc, ◌+◌, ◌-◌, max, Bool, true, false, ◌&&◌, List, [], ◌∷◌, Outcome, ok, panicked, fault,
  assert, ◌>>=◌, ◌>>◌, if◌then◌else◌, Ordering, ℤ, pos, negsuc, ◌==ℤ◌, leb_ℤ,
}
use raw_os.Avl.{
  Hole, Tree, leaf, node, Avl, Edit, compare_hole, get_free_node, get_balance_factor, rotate_left,
  rotate_right, double_rotate_left, double_rotate_right,
}
use raw_os.Avl.{rebalance_left, rebalance_right}

-- After the insertion into the right subtree, where the height of that subtree has changed.
unfoldable pub grown_right : ℕ → Tree → ℕ → Hole → Edit → Outcome Edit
grown_right p l h k e =
    let t = node p l e.tree h k in
    get_balance_factor t >>= λ balance.
    assert (leb_ℤ (pos 0) balance && leb_ℤ balance (pos 2))
    >> (if balance ==ℤ pos 0
        then ok (record e { tree = t; changed = false })
        else if balance ==ℤ pos 1
        then ok (record e { tree = node p l e.tree (h + 1) k; changed = true })
        else if balance ==ℤ pos 2
        then (rebalance_left t e.tree >>= λ new_root.
            ok (record e { tree = new_root; changed = false }))
        else ok (record e { tree = t }))

unfoldable pub grow_right : ℕ → Tree → ℕ → Hole → Edit → Outcome Edit
grow_right p l h k e =
    if e.changed then grown_right p l h k e else ok (record e { tree = node p l e.tree h k })

-- After the insertion into the left subtree, where the height of that subtree has changed.
unfoldable pub grown_left : ℕ → Tree → ℕ → Hole → Edit → Outcome Edit
grown_left p r h k e =
    let t = node p e.tree r h k in
    get_balance_factor t >>= λ balance.
    assert (leb_ℤ (negsuc 1) balance && leb_ℤ balance (pos 0))
    >> (if balance ==ℤ pos 0
        then ok (record e { tree = t; changed = false })
        else if balance ==ℤ negsuc 0
        then ok (record e { tree = node p e.tree r (h + 1) k; changed = true })
        else if balance ==ℤ negsuc 1
        then (rebalance_right t e.tree >>= λ new_root.
            ok (record e { tree = new_root; changed = false }))
        else ok (record e { tree = t }))

unfoldable pub grow_left : ℕ → Tree → ℕ → Hole → Edit → Outcome Edit
grow_left p r h k e =
    if e.changed then grown_left p r h k e else ok (record e { tree = node p e.tree r h k })

-- The last argument but one is the free list. `get_free_node` panics where it has no node, so
-- `*error` stays 0. The flag `*subtree_height_changed` is written before it is read.
unfoldable pub insert_internal : Tree → Hole → List ℕ → Outcome Edit
insert_internal leaf hole free = do
  r ← get_free_node free
  ok (record { tree = node r.0 leaf leaf 1 hole; free = r.1; changed = true; failed = false })
insert_internal (node p l r h k) hole free = elim (compare_hole hole k) [
  | Ordering.eq ↦ panicked
  | Ordering.gt ↦ insert_internal r hole free >>= grow_right p l h k
  | Ordering.lt ↦ insert_internal l hole free >>= grow_left p r h k
]

-- The new tree, and the error code.
unfoldable pub kalloc_avl_insert : Avl → Hole → Outcome (Avl × Bool)
kalloc_avl_insert avl hole = do
  e ← insert_internal avl.root hole avl.free
  ok (record { free = e.free; root = e.tree }, e.failed)
