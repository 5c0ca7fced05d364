-- ===== src/Avl/Remove/Shrink.antt =====
-- The step of the removal at each node on the way up restores the balance.
use mathlib.Core.Path.{subst}
use raw_os.Common.{
  ℕ, ◌+◌, ◌≡◌, refl, Bool, true, false, List, ◌∷◌, ◌++◌, ok, ℤ, pos, negsuc, ◌==ℤ◌, sub_ℕ-pos,
  sub_ℕ-negsuc, if◌then◌else◌, inl, inr, lt_or_le, Returns, Ensures, Returns->>=, arith,
}
use raw_os.Avl.{Hole, Tree, node, height, Edit, get_balance_factor, rebalance_left, rebalance_right}
use raw_os.Avl.Shape.{IsAvl}
use raw_os.Avl.Sorted.{inorder}
use raw_os.Avl.Rebalance.{
  Settled, rebalance_left-IsAvl, rebalance_right-IsAvl, rebalance_left-SameHoles,
  rebalance_right-SameHoles,
}
use raw_os.Avl.Remove.{settle, shrunk_left, shrunk_right, shrink_left, shrink_right}

-- How a height `n` moves to that of `t` in a removal, by the flag that it leaves.
abbrev pub Shrinks : ℕ → Bool → Tree → Type 0
Shrinks n true t = height t + 1 ≡ n
Shrinks n false t = height t ≡ n

abbrev pub Shrunk : ℕ → Edit → Type 0
Shrunk n e = IsAvl e.tree × Shrinks n e.changed e.tree

settle-Shrunk :
    (s t : Tree) (lean : ℤ) (e : Edit)
    → (pos 0 ==ℤ lean) ≡ false
    → (lean ==ℤ lean) ≡ true
    → IsAvl t
    → Settled s lean t
    → Returns (settle t lean e) (Shrunk (height s + 1))
unfolding settle
settle-Shrunk s t lean e differs same v (inl a) = rw (a.0) (rw differs (v, omega (arith, a.1)))
settle-Shrunk s t lean e differs same v (inr a) = rw (a.0) (rw same (v, a.1))

shrunk_right-Shrunk :
    (p : ℕ) (l r : Tree) (h : ℕ) (k : Hole) (e : Edit)
    → IsAvl (node p l r h k)
    → IsAvl e.tree
    → Shrinks (height r) true e.tree
    → Returns (shrunk_right p l h k e) (Shrunk h)
unfolding shrunk_right get_balance_factor
shrunk_right-Shrunk p l r h k e v w g = elim (lt_or_le (height l) (height r)) [
  | inl higher ↦
      rw (sub_ℕ-pos (height e.tree) (height l) 0 (omega arith))
        ((v.0, w, omega arith, omega arith, omega arith), omega arith)
  | inr le ↦ elim (lt_or_le (height r) (height l)) [
    | inr ge ↦
        rw (sub_ℕ-negsuc (height e.tree) (height l) 0 (omega arith))
          ((v.0, w, omega arith, omega arith, omega arith), refl)
    | inl lower ↦ rw (sub_ℕ-negsuc (height e.tree) (height l) 1 (omega arith)) (
        Returns->>= (rebalance_right (node p l e.tree h k) l) _ _ (Shrunk h)
          (rebalance_right-IsAvl p l e.tree h k w v.0 (omega arith))
          (λ t rotated.
            subst (λ n. Returns (settle t (pos 1) e) (Shrunk n)) (omega arith)
              (settle-Shrunk l t (pos 1) e refl refl rotated.0 rotated.1)))
  ]
]

shrunk_left-Shrunk :
    (p : ℕ) (l r : Tree) (h : ℕ) (k : Hole) (e : Edit)
    → IsAvl (node p l r h k)
    → IsAvl e.tree
    → Shrinks (height l) true e.tree
    → Returns (shrunk_left p r h k e) (Shrunk h)
unfolding shrunk_left get_balance_factor
shrunk_left-Shrunk p l r h k e v w g = elim (lt_or_le (height r) (height l)) [
  | inl higher ↦
      rw (sub_ℕ-pos (height r) (height e.tree) 0 (omega arith))
        ((w, v.1, omega arith, omega arith, omega arith), omega arith)
  | inr le ↦ elim (lt_or_le (height l) (height r)) [
    | inr ge ↦
        rw (sub_ℕ-pos (height r) (height e.tree) 1 (omega arith))
          ((w, v.1, omega arith, omega arith, omega arith), refl)
    | inl lower ↦ rw (sub_ℕ-pos (height r) (height e.tree) 2 (omega arith)) (
        Returns->>= (rebalance_left (node p e.tree r h k) r) _ _ (Shrunk h)
          (rebalance_left-IsAvl p e.tree r h k w v.1 (omega arith))
          (λ t rotated.
            subst (λ n. Returns (settle t (negsuc 0) e) (Shrunk n)) (omega arith)
              (settle-Shrunk r t (negsuc 0) e refl refl rotated.0 rotated.1)))
  ]
]

pub shrink_right-Shrunk :
    (p : ℕ) (l r : Tree) (h : ℕ) (k : Hole) (e : Edit)
    → IsAvl (node p l r h k)
    → Shrunk (height r) e
    → Returns (shrink_right p l h k e) (Shrunk h)
unfolding shrink_right
shrink_right-Shrunk p l r h k e v (w, g) = by_flag e.changed refl g
  where
    by_flag :
        (c : Bool)
        → e.changed ≡ c
        → Shrinks (height r) c e.tree
        → Returns
            (if c then shrunk_right p l h k e else ok (record e { tree = node p l e.tree h k }))
            (Shrunk h)
    by_flag true is g = shrunk_right-Shrunk p l r h k e v w g
    by_flag false is g = rw is ((v.0, w, omega arith, omega arith, omega arith), refl)

pub shrink_left-Shrunk :
    (p : ℕ) (l r : Tree) (h : ℕ) (k : Hole) (e : Edit)
    → IsAvl (node p l r h k)
    → Shrunk (height l) e
    → Returns (shrink_left p r h k e) (Shrunk h)
unfolding shrink_left
shrink_left-Shrunk p l r h k e v (w, g) = by_flag e.changed refl g
  where
    by_flag :
        (c : Bool)
        → e.changed ≡ c
        → Shrinks (height l) c e.tree
        → Returns
            (if c then shrunk_left p r h k e else ok (record e { tree = node p e.tree r h k }))
            (Shrunk h)
    by_flag true is g = shrunk_left-Shrunk p l r h k e v w g
    by_flag false is g = rw is ((w, v.1, omega arith, omega arith, omega arith), refl)

-- A step keeps the free list and the error flag, and the holes in their order.
abbrev pub Keeps : List Hole → Edit → Edit → Type 0
Keeps holes e e' = (inorder e'.tree ≡ holes) × (e'.free ≡ e.free) × (e'.failed ≡ e.failed)

settle-Keeps : (t : Tree) (lean : ℤ) (e : Edit) → Ensures (settle t lean e) (Keeps (inorder t) e)
unfolding settle
settle-Keeps t lean e = ground arith

module _ (p : ℕ) (l : Tree) (h : ℕ) (k : Hole) (e : Edit) where
  shrunk_right-Keeps : Ensures (shrunk_right p l h k e) (Keeps (inorder l ++ k ∷ inorder e.tree) e)
  unfolding shrunk_right get_balance_factor settle
  shrunk_right-Keeps = ground (arith, rebalance_right-SameHoles (node p l e.tree h k) l)

  pub shrink_right-Keeps :
      Ensures (shrink_right p l h k e) (Keeps (inorder l ++ k ∷ inorder e.tree) e)
  unfolding shrink_right
  shrink_right-Keeps = ground (arith, shrunk_right-Keeps)

module _ (p : ℕ) (r : Tree) (h : ℕ) (k : Hole) (e : Edit) where
  shrunk_left-Keeps : Ensures (shrunk_left p r h k e) (Keeps (inorder e.tree ++ k ∷ inorder r) e)
  unfolding shrunk_left get_balance_factor settle
  shrunk_left-Keeps = ground (arith, rebalance_left-SameHoles (node p e.tree r h k) r)

  pub shrink_left-Keeps :
      Ensures (shrink_left p r h k e) (Keeps (inorder e.tree ++ k ∷ inorder r) e)
  unfolding shrink_left
  shrink_left-Keeps = ground (arith, shrunk_left-Keeps)
