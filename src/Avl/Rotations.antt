-- ===== src/Avl/Rotations.antt =====
-- The rotations keep the holes of a tree and their order.
use mathlib.Core.List.{append_assoc}
use raw_os.Common.{◌≡◌, Ensures}
use raw_os.Avl.{
  Tree, leaf, node, rotate_left, rotate_right, double_rotate_left, double_rotate_right,
  update_node_height,
}
use raw_os.Avl.Sorted.{inorder}

abbrev pub SameHoles : Tree → Tree → Type 0
SameHoles t t' = inorder t' ≡ inorder t

pub rotate_left-SameHoles : (t : Tree) → Ensures (rotate_left t) (SameHoles t)
unfolding rotate_left update_node_height
rotate_left-SameHoles leaf = tt
rotate_left-SameHoles (node p a leaf hp kp) = tt
rotate_left-SameHoles (node p a (node q b c hq kq) hp kp) = simp append_assoc

pub rotate_right-SameHoles : (t : Tree) → Ensures (rotate_right t) (SameHoles t)
unfolding rotate_right update_node_height
rotate_right-SameHoles leaf = tt
rotate_right-SameHoles (node p leaf c hp kp) = tt
rotate_right-SameHoles (node p (node q a b hq kq) c hp kp) = simp append_assoc

pub double_rotate_left-SameHoles : (t : Tree) → Ensures (double_rotate_left t) (SameHoles t)
unfolding double_rotate_left update_node_height
double_rotate_left-SameHoles leaf = tt
double_rotate_left-SameHoles (node p a leaf hp kp) = tt
double_rotate_left-SameHoles (node p a (node q leaf d hq kq) hp kp) = tt
double_rotate_left-SameHoles (node p a (node q (node s b c hs ks) d hq kq) hp kp) =
    simp append_assoc

pub double_rotate_right-SameHoles : (t : Tree) → Ensures (double_rotate_right t) (SameHoles t)
unfolding double_rotate_right update_node_height
double_rotate_right-SameHoles leaf = tt
double_rotate_right-SameHoles (node p leaf d hp kp) = tt
double_rotate_right-SameHoles (node p (node q a leaf hq kq) d hp kp) = tt
double_rotate_right-SameHoles (node p (node q a (node s b c hs ks) hq kq) d hp kp) =
    simp append_assoc
