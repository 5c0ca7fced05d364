-- ===== src/Avl/Remove.antt =====
-- `remove_internal` and `kalloc_avl_remove` of alloc/kalloc_avl.c.
pub mod Shrink
pub mod Root
pub mod Laws
pub mod Absent
use raw_os.Common.{
  ℕ, zero, suc, ◌+◌, ◌-◌, Bool, true, false, ◌&&◌, List, Outcome, ok, fault, assert, ◌>>=◌, ◌>>◌,
  if◌then◌else◌, Ordering, ℤ, pos, negsuc, ◌==ℤ◌, leb_ℤ,
}
use raw_os.Avl.{
  Hole, Tree, leaf, node, Avl, Edit, compare_hole, put_free_node, get_balance_factor,
  rebalance_left, rebalance_right,
}

-- The last hole of a subtree, where `k` is the one met last.
unfoldable pub rightmost : Hole → Tree → Hole
rightmost k leaf = k
rightmost k (node p l r h k') = rightmost k' r

-- The walk to the left child and then to the right as far as possible.
unfoldable pub find_predecessor : Tree → Outcome Hole
unfolding rightmost
find_predecessor (node p (node q a b hq kq) r h k) = ok (rightmost kq b)
find_predecessor _ = fault

-- After a rotation the height is the old one if the new root leans, and one less if it is even.
unfoldable pub settle : Tree → ℤ → Edit → Outcome Edit
settle new_root lean e = do
  balance ← get_balance_factor new_root
  if balance ==ℤ lean
      then ok (record e { tree = new_root; changed = false })
      else ok (record e { tree = new_root; changed = true })

-- After the removal from the right subtree, where the height of that subtree has changed.
unfoldable pub shrunk_right : ℕ → Tree → ℕ → Hole → Edit → Outcome Edit
shrunk_right p l h k e =
    let t = node p l e.tree h k in
    get_balance_factor t >>= λ balance.
    assert (leb_ℤ (negsuc 1) balance && leb_ℤ balance (pos 0))
    >> (if balance ==ℤ pos 0
        then ok (record e { tree = node p l e.tree (h - 1) k; changed = true })
        else if balance ==ℤ negsuc 0
        then ok (record e { tree = t; changed = false })
        else if balance ==ℤ negsuc 1
        then (rebalance_right t l >>= λ new_root. settle new_root (pos 1) e)
        else ok (record e { tree = t }))

unfoldable pub shrink_right : ℕ → Tree → ℕ → Hole → Edit → Outcome Edit
shrink_right p l h k e =
    if e.changed then shrunk_right p l h k e else ok (record e { tree = node p l e.tree h k })

-- After the removal from the left subtree, where the height of that subtree has changed.
unfoldable pub shrunk_left : ℕ → Tree → ℕ → Hole → Edit → Outcome Edit
shrunk_left p r h k e =
    let t = node p e.tree r h k in
    get_balance_factor t >>= λ balance.
    assert (leb_ℤ (pos 0) balance && leb_ℤ balance (pos 2))
    >> (if balance ==ℤ pos 0
        then ok (record e { tree = node p e.tree r (h - 1) k; changed = true })
        else if balance ==ℤ pos 1
        then ok (record e { tree = t; changed = false })
        else if balance ==ℤ pos 2
        then (rebalance_left t r >>= λ new_root. settle new_root (negsuc 0) e)
        else ok (record e { tree = t }))

unfoldable pub shrink_left : ℕ → Tree → ℕ → Hole → Edit → Outcome Edit
shrink_left p r h k e =
    if e.changed then shrunk_left p r h k e else ok (record e { tree = node p e.tree r h k })

-- The node of the hole itself. A node with no child is freed; a single child is freed in its place,
-- after its hole has been copied, and whatever hangs below that child is dropped; with two children
-- `descend` goes on with the predecessor's hole, which has been written to the node.
unfoldable pub remove_root : Tree → List ℕ → (Hole → Outcome Edit) → Outcome Edit
remove_root leaf free descend = fault
remove_root (node p leaf leaf h k) free descend =
    ok (record { tree = leaf; free = put_free_node free p; changed = true; failed = false })
remove_root (node p leaf (node q a b hq kq) h k) free descend = ok (record {
  tree = node p leaf leaf (h - 1) kq;
  free = put_free_node free q;
  changed = true;
  failed = false;
})
remove_root (node p (node q a b hq kq) leaf h k) free descend = ok (record {
  tree = node p leaf leaf (h - 1) kq;
  free = put_free_node free q;
  changed = true;
  failed = false;
})
remove_root (node p (node q a b hq kq) (node s c d hs ks) h k) free descend =
    find_predecessor (node p (node q a b hq kq) (node s c d hs ks) h k) >>= descend

-- `changed` is what `*subtree_height_changed` holds before the call, which `kalloc_avl_remove`
-- leaves uninitialised. The second comparison is that of the predecessor with the node.
unfoldable pub remove_internal : Tree → Hole → List ℕ → Bool → Outcome Edit
remove_internal leaf hole free changed =
    ok (record { tree = leaf; free = free; changed = changed; failed = true })
remove_internal (node p l r h k) hole free changed = elim (compare_hole hole k) [
  | Ordering.eq ↦ remove_root (node p l r h k) free λ q. elim (compare_hole q k) [
    | Ordering.gt ↦ remove_internal r q free changed >>= shrink_right p l h q
    | _ ↦ remove_internal l q free changed >>= shrink_left p r h q
  ]
  | Ordering.gt ↦ remove_internal r hole free changed >>= shrink_right p l h k
  | Ordering.lt ↦ remove_internal l hole free changed >>= shrink_left p r h k
]

-- The new tree, and 1 where the hole was not found.
unfoldable pub kalloc_avl_remove : Bool → Avl → Hole → Outcome (Avl × Bool)
kalloc_avl_remove uninitialised avl hole = do
  e ← remove_internal avl.root hole avl.free uninitialised
  ok (record { free = e.free; root = e.tree }, e.failed)
