-- ===== src/Avl/Rebalance.antt =====
-- Where two siblings differ by 2 in height, the chosen rotation restores the balance.
use raw_os.Common.{
  ℕ, ◌+◌, ◌≤◌, ◌<◌, ◌≡◌, ok, pos, negsuc, sub_ℕ, ◌==ℤ◌, sub_ℕ-pos, sub_ℕ-negsuc, ◌⊎◌, inl, inr,
  Returns, Ensures, Bool-cases, lt_or_le, arith, ap,
}
use raw_os.Avl.{
  Hole, Tree, leaf, node, height, get_balance_factor, rotate_left, rotate_right, double_rotate_left,
  double_rotate_right, update_node_height, rebalance_left, rebalance_right,
}
use raw_os.Avl.Shape.{IsAvl, Leans, update_node_height-IsAvl}
use raw_os.Avl.Rotations.{
  SameHoles, rotate_left-SameHoles, rotate_right-SameHoles, double_rotate_left-SameHoles,
  double_rotate_right-SameHoles,
}
use raw_os.Common.{eq_or_lt, ℤ, sym}

pub rebalance_left-SameHoles : (t r : Tree) → Ensures (rebalance_left t r) (SameHoles t)
unfolding rebalance_left get_balance_factor
rebalance_left-SameHoles t leaf = tt
rebalance_left-SameHoles t (node q a b hq kq) =
    elim (Bool-cases (sub_ℕ (height b) (height a) ==ℤ negsuc 0)) [
      | inl double ↦ rw double (double_rotate_left-SameHoles t)
      | inr single ↦ rw single (rotate_left-SameHoles t)
    ]

pub rebalance_right-SameHoles : (t l : Tree) → Ensures (rebalance_right t l) (SameHoles t)
unfolding rebalance_right get_balance_factor
rebalance_right-SameHoles t leaf = tt
rebalance_right-SameHoles t (node q a b hq kq) =
    elim (Bool-cases (sub_ℕ (height b) (height a) ==ℤ pos 1)) [
      | inl double ↦ rw double (double_rotate_right-SameHoles t)
      | inr single ↦ rw single (rotate_right-SameHoles t)
    ]

-- Which rotation is taken, by the heights below the taller subtree.
rebalance_left-double :
    (t : Tree) (q : ℕ) (a b : Tree) (hq : ℕ) (kq : Hole)
    → height a ≡ height b + 1
    → rebalance_left t (node q a b hq kq) ≡ double_rotate_left t
unfolding rebalance_left get_balance_factor
rebalance_left-double t q a b hq kq e = ground arith

rebalance_left-single :
    (t : Tree) (q : ℕ) (a b : Tree) (hq : ℕ) (kq : Hole)
    → height a ≤ height b
    → rebalance_left t (node q a b hq kq) ≡ rotate_left t
unfolding rebalance_left get_balance_factor
rebalance_left-single t q a b hq kq e = ground arith

rebalance_right-double :
    (t : Tree) (q : ℕ) (a b : Tree) (hq : ℕ) (kq : Hole)
    → height b ≡ height a + 1
    → rebalance_right t (node q a b hq kq) ≡ double_rotate_right t
unfolding rebalance_right get_balance_factor
rebalance_right-double t q a b hq kq e = ground arith

rebalance_right-single :
    (t : Tree) (q : ℕ) (a b : Tree) (hq : ℕ) (kq : Hole)
    → height b ≤ height a
    → rebalance_right t (node q a b hq kq) ≡ rotate_right t
unfolding rebalance_right get_balance_factor
rebalance_right-single t q a b hq kq e = ground arith

-- Both subtrees have the same height.
abbrev pub Even : Tree → Type 0
Even leaf = ⊥
Even (node p l r h k) = height l ≡ height r

-- The rotation gives back the height of the taller subtree `s`, or is one higher where `s` was even.
abbrev pub Settled : Tree → ℤ → Tree → Type 0
Settled s lean t =
    ((get_balance_factor t ≡ ok (pos 0)) × (height t ≡ height s))
    ⊎ ((get_balance_factor t ≡ ok lean) × (height t ≡ height s + 1) × Even s)

balance-pos :
    (p : ℕ) (l r : Tree) (h : ℕ) (k : Hole) (n : ℕ)
    → height r ≡ height l + n
    → get_balance_factor (node p l r h k) ≡ ok (pos n)
unfolding get_balance_factor
balance-pos p l r h k n e = ap ok (sub_ℕ-pos (height r) (height l) n e)

balance-negsuc :
    (p : ℕ) (l r : Tree) (h : ℕ) (k : Hole) (n : ℕ)
    → height l ≡ height r + n + 1
    → get_balance_factor (node p l r h k) ≡ ok (negsuc n)
unfolding get_balance_factor
balance-negsuc p l r h k n e = ap ok (sub_ℕ-negsuc (height r) (height l) n e)

-- The rotation gives a balanced tree.
pub rebalance_left-IsAvl :
    (p : ℕ) (l r : Tree) (h : ℕ) (k : Hole)
    → IsAvl l
    → IsAvl r
    → height r ≡ height l + 2
    → Returns (rebalance_left (node p l r h k) r) (λ t. IsAvl t × Settled r (negsuc 0) t)
unfolding rebalance_left rotate_left double_rotate_left update_node_height
rebalance_left-IsAvl p l leaf h k v w e = absurd (omega arith)
rebalance_left-IsAvl p l (node q leaf b hq kq) h k v w e =
    rw (rebalance_left-single (node p l (node q leaf b hq kq) h k) q leaf b hq kq (omega arith)) (
      update_node_height-IsAvl q (update_node_height p l leaf k) b kq
          (update_node_height-IsAvl p l leaf k v tt (omega arith) (omega arith)) w.1 (omega arith)
          (omega arith),
      inl (balance-pos _ _ _ _ _ 0 (omega arith), omega arith),
    )
rebalance_left-IsAvl p l (node q (node s b c hs ks) d hq kq) h k v w e =
    elim (lt_or_le (height d) hs) [
      | inl high ↦
          rw
            (rebalance_left-double (node p l (node q (node s b c hs ks) d hq kq) h k) q
              (node s b c hs ks) d hq kq (omega arith))
            (
              update_node_height-IsAvl s (update_node_height p l b k) (update_node_height q c d kq)
                  ks (update_node_height-IsAvl p l b k v w.0.0 (omega arith) (omega arith))
                  (update_node_height-IsAvl q c d kq w.0.1 w.1 (omega arith) (omega arith))
                  (omega arith) (omega arith),
              inl (balance-pos _ _ _ _ _ 0 (omega arith), omega arith),
            )
      | inr low ↦
          rw
            (rebalance_left-single (node p l (node q (node s b c hs ks) d hq kq) h k) q
              (node s b c hs ks) d hq kq low)
            (
              update_node_height-IsAvl q (update_node_height p l (node s b c hs ks) k) d kq
                  (update_node_height-IsAvl p l (node s b c hs ks) k v w.0 (omega arith)
                    (omega arith))
                  w.1 (omega arith) (omega arith),
              elim (eq_or_lt hs (height d) low) [
                | inl same ↦ inr (balance-negsuc _ _ _ _ _ 0 (omega arith), omega arith, same)
                | inr less ↦ inl (balance-pos _ _ _ _ _ 0 (omega arith), omega arith)
              ],
            )
    ]

pub rebalance_right-IsAvl :
    (p : ℕ) (l r : Tree) (h : ℕ) (k : Hole)
    → IsAvl r
    → IsAvl l
    → height l ≡ height r + 2
    → Returns (rebalance_right (node p l r h k) l) (λ t. IsAvl t × Settled l (pos 1) t)
unfolding rebalance_right rotate_right double_rotate_right update_node_height
rebalance_right-IsAvl p leaf r h k v w e = absurd (omega arith)
rebalance_right-IsAvl p (node q a leaf hq kq) r h k v w e =
    rw (rebalance_right-single (node p (node q a leaf hq kq) r h k) q a leaf hq kq (omega arith)) (
      update_node_height-IsAvl q a (update_node_height p leaf r k) kq w.0
          (update_node_height-IsAvl p leaf r k tt v (omega arith) (omega arith)) (omega arith)
          (omega arith),
      inl (balance-pos _ _ _ _ _ 0 (omega arith), omega arith),
    )
rebalance_right-IsAvl p (node q a (node s b c hs ks) hq kq) r h k v w e =
    elim (lt_or_le (height a) hs) [
      | inl high ↦
          rw
            (rebalance_right-double (node p (node q a (node s b c hs ks) hq kq) r h k) q a
              (node s b c hs ks) hq kq (omega arith))
            (
              update_node_height-IsAvl s (update_node_height q a b kq) (update_node_height p c r k)
                  ks (update_node_height-IsAvl q a b kq w.0 w.1.0 (omega arith) (omega arith))
                  (update_node_height-IsAvl p c r k w.1.1 v (omega arith) (omega arith))
                  (omega arith) (omega arith),
              inl (balance-pos _ _ _ _ _ 0 (omega arith), omega arith),
            )
      | inr low ↦
          rw
            (rebalance_right-single (node p (node q a (node s b c hs ks) hq kq) r h k) q a
              (node s b c hs ks) hq kq low)
            (
              update_node_height-IsAvl q a (update_node_height p (node s b c hs ks) r k) kq w.0
                  (update_node_height-IsAvl p (node s b c hs ks) r k w.1 v (omega arith)
                    (omega arith))
                  (omega arith) (omega arith),
              elim (eq_or_lt hs (height a) low) [
                | inl same ↦ inr (balance-pos _ _ _ _ _ 1 (omega arith), omega arith, sym same)
                | inr less ↦ inl (balance-pos _ _ _ _ _ 0 (omega arith), omega arith)
              ],
            )
    ]

-- An even tree of height 2 or more does not lean, so a rotation under an insertion gives back the
-- height of the subtree that has grown.
pub height-Settled :
    (s : Tree) (lean : ℤ) (t : Tree)
    → Leans s
    → 1 < height s
    → Settled s lean t
    → height t ≡ height s
height-Settled leaf lean t leans h (inl a) = a.1
height-Settled leaf lean t leans h (inr a) = absurd leans
height-Settled (node p l r k x) lean t leans h (inl a) = a.1
height-Settled (node p l r k x) lean t (inl one) h (inr a) = absurd (omega arith)
height-Settled (node p l r k x) lean t (inr differ) h (inr a) = absurd (differ a.2)
