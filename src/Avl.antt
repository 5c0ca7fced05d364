-- ===== src/Avl.antt =====
-- alloc/kalloc_avl.c: the balanced tree in which the kernel heap keeps its holes, ordered by size
-- and then by address. A null pointer is `leaf`; a node keeps the address of its
-- `Kalloc_AVL_Node`, since nodes are taken from and given back to a free list.
pub mod Sorted
pub mod Lists
pub mod Rotations
pub mod Rebalance
pub mod Valid
pub mod Nodes
mod Tests
pub mod Insert
pub mod Remove
pub mod Find
pub mod Shape
use raw_os.Common.{
  ℕ, zero, suc, ◌+◌, ◌-◌, ◌*◌, ◌/◌, ◌%◌, ◌^◌, max, bit_and, Bool, true, false, not, ◌&&◌, List, [],
  ◌∷◌, Outcome, ok, panicked, fault, assert, ◌>>=◌, ◌>>◌, ltb, leb, ◌==◌, if◌then◌else◌, Ordering,
  ℤ, pos, negsuc, sub_ℕ, ◌==ℤ◌, leb_ℤ,
}

pub record Hole : Type 0 where
  pub size : ℕ
  pub addr : ℕ

-- address, left, right, height, hole
pub data Tree : Type 0 where
  leaf : Tree
  node : ℕ → Tree → Tree → ℕ → Hole → Tree

-- `gt`, `lt` and `eq` stand for 1, -1 and 0.
unfoldable pub compare_hole_size : ℕ → ℕ → Ordering
compare_hole_size s1 s2 =
    if ltb s2 s1 then Ordering.gt else if ltb s1 s2 then Ordering.lt else Ordering.eq

unfoldable pub compare_hole : Hole → Hole → Ordering
compare_hole h1 h2 =
    if ltb h2.size h1.size
    then Ordering.gt
    else if ltb h1.size h2.size
    then Ordering.lt
    else if ltb h2.addr h1.addr
    then Ordering.gt
    else if ltb h1.addr h2.addr
    then Ordering.lt
    else Ordering.eq

-- `sizeof(Kalloc_AVL_Node)` for 32-bit pointers.
abbrev pub node_size : ℕ
node_size = 20

-- The addresses of `n` nodes that lie one behind the other.
unfoldable pub nodes_from : ℕ → ℕ → List ℕ
nodes_from zero addr = []
nodes_from (suc n) addr = addr ∷ nodes_from n (addr + node_size)

pub record Avl : Type 0 where
  pub free : List ℕ
  pub root : Tree

-- The free nodes are chained through `right`; the model keeps the chain as a list.
unfoldable pub kalloc_avl_init : ℕ → ℕ → Outcome Avl
unfolding nodes_from
kalloc_avl_init addr data_size = do
  assert (leb node_size data_size)
  ok (record { free = nodes_from (data_size / node_size) addr; root = leaf })

unfoldable pub get_free_node : List ℕ → Outcome (ℕ × List ℕ)
get_free_node [] = panicked
get_free_node (target ∷ free) = ok (target, free)

unfoldable pub put_free_node : List ℕ → ℕ → List ℕ
put_free_node free n = n ∷ free

-- The stored height of a subtree; 0 for a null pointer.
abbrev pub height : Tree → ℕ
height leaf = 0
height (node p l r h k) = h

-- A node whose height has been written by `update_node_height`.
unfoldable pub update_node_height : ℕ → Tree → Tree → Hole → Tree
update_node_height p l r k = node p l r (max (height r) (height l) + 1) k

unfoldable pub rotate_right : Tree → Outcome Tree
rotate_right (node p (node q a b hq kq) c hp kp) =
    ok (update_node_height q a (update_node_height p b c kp) kq)
rotate_right _ = fault

unfoldable pub rotate_left : Tree → Outcome Tree
rotate_left (node p a (node q b c hq kq) hp kp) =
    ok (update_node_height q (update_node_height p a b kp) c kq)
rotate_left _ = fault

unfoldable pub double_rotate_right : Tree → Outcome Tree
double_rotate_right (node p (node q a (node s b c hs ks) hq kq) d hp kp) =
    ok (update_node_height s (update_node_height q a b kq) (update_node_height p c d kp) ks)
double_rotate_right _ = fault

unfoldable pub double_rotate_left : Tree → Outcome Tree
double_rotate_left (node p a (node q (node s b c hs ks) d hq kq) hp kp) =
    ok (update_node_height s (update_node_height p a b kp) (update_node_height q c d kq) ks)
double_rotate_left _ = fault

unfoldable pub get_balance_factor : Tree → Outcome ℤ
get_balance_factor leaf = fault
get_balance_factor (node p l r h k) = ok (sub_ℕ (height r) (height l))

-- The rotations where the right subtree has become two higher than the left one. The insertion
-- and the removal choose between them in the same way.
unfoldable pub rebalance_left : Tree → Tree → Outcome Tree
rebalance_left t right = do
  right_balance ← get_balance_factor right
  if right_balance ==ℤ negsuc 0 then double_rotate_left t else rotate_left t

-- The rotations where the left subtree has become two higher than the right one.
unfoldable pub rebalance_right : Tree → Tree → Outcome Tree
rebalance_right t left = do
  left_balance ← get_balance_factor left
  if left_balance ==ℤ pos 1 then double_rotate_right t else rotate_right t

-- What the recursive functions return and write: the new subtree, the free list, and the two
-- flags `*subtree_height_changed` and `*error` or `*not_found`.
pub record Edit : Type 0 where
  pub tree : Tree
  pub free : List ℕ
  pub changed : Bool
  pub failed : Bool
