-- ===== src/Avl/Insert/Grow.antt =====
-- The step of the insertion at each node on the way up restores the balance.
use raw_os.Common.{ℕ, ◌≡◌, refl, Bool, true, false, ok, Returns, if◌then◌else◌, arith}
use raw_os.Avl.{Hole, Tree, node, height, Edit, get_balance_factor}
use raw_os.Avl.Shape.{IsAvl, Grows}
use raw_os.Avl.Insert.{grow_right, grown_right, grow_left, grown_left}
use raw_os.Common.{inl, inr, lt_or_le}
use raw_os.Common.{sub_ℕ-pos, sub_ℕ-negsuc, Returns->>=}
use raw_os.Avl.Rebalance.{rebalance_left-IsAvl, rebalance_right-IsAvl, height-Settled}
use raw_os.Common.{pos}
use raw_os.Avl.{rebalance_left, rebalance_right}
use raw_os.Common.{negsuc}

abbrev pub Balanced : Tree → Edit → Type 0
Balanced t e = IsAvl e.tree × Grows t e.changed e.tree

-- Where the subtree has grown: the heights become equal, differ by 1, or a rotation is due.
grown_right-Balanced :
    (p : ℕ) (l r : Tree) (h : ℕ) (k : Hole) (e : Edit)
    → IsAvl (node p l r h k)
    → IsAvl e.tree
    → Grows r true e.tree
    → Returns (grown_right p l h k e) (Balanced (node p l r h k))
unfolding grown_right get_balance_factor
grown_right-Balanced p l r h k e v w g = elim (lt_or_le (height r) (height l)) [
  | inl lower ↦
      rw (sub_ℕ-pos (height e.tree) (height l) 0 (omega arith))
        ((v.0, w, omega arith, omega arith, omega arith), omega arith)
  | inr le ↦ elim (lt_or_le (height l) (height r)) [
    | inl higher ↦ rw (sub_ℕ-pos (height e.tree) (height l) 2 (omega arith)) (
        Returns->>= (rebalance_left (node p l e.tree h k) e.tree) _ _ (Balanced (node p l r h k))
          (rebalance_left-IsAvl p l e.tree h k v.0 w (omega arith))
          (λ t rotated. (
            rotated.0,
            omega (arith, height-Settled e.tree (negsuc 0) t g.1 (omega arith) rotated.1),
          )))
    | inr ge ↦
        rw (sub_ℕ-pos (height e.tree) (height l) 1 (omega arith))
          ((v.0, w, omega arith, omega arith, omega arith), (refl, inr (omega arith)))
  ]
]

pub grow_right-Balanced :
    (p : ℕ) (l r : Tree) (h : ℕ) (k : Hole) (e : Edit)
    → IsAvl (node p l r h k)
    → IsAvl e.tree × Grows r e.changed e.tree
    → Returns (grow_right p l h k e) (Balanced (node p l r h k))
unfolding grow_right
grow_right-Balanced p l r h k e v (w, g) = by_flag e.changed refl g
  where
    by_flag :
        (c : Bool)
        → e.changed ≡ c
        → Grows r c e.tree
        → Returns
            (if c then grown_right p l h k e else ok (record e { tree = node p l e.tree h k }))
            (Balanced (node p l r h k))
    by_flag true is g = grown_right-Balanced p l r h k e v w g
    by_flag false is g = rw is ((v.0, w, omega arith, omega arith, omega arith), refl)

grown_left-Balanced :
    (p : ℕ) (l r : Tree) (h : ℕ) (k : Hole) (e : Edit)
    → IsAvl (node p l r h k)
    → IsAvl e.tree
    → Grows l true e.tree
    → Returns (grown_left p r h k e) (Balanced (node p l r h k))
unfolding grown_left get_balance_factor
grown_left-Balanced p l r h k e v w g = elim (lt_or_le (height l) (height r)) [
  | inl lower ↦
      rw (sub_ℕ-pos (height r) (height e.tree) 0 (omega arith))
        ((w, v.1, omega arith, omega arith, omega arith), omega arith)
  | inr le ↦ elim (lt_or_le (height r) (height l)) [
    | inl higher ↦ rw (sub_ℕ-negsuc (height r) (height e.tree) 1 (omega arith)) (
        Returns->>= (rebalance_right (node p e.tree r h k) e.tree) _ _ (Balanced (node p l r h k))
          (rebalance_right-IsAvl p e.tree r h k v.1 w (omega arith))
          (λ t rotated. (
            rotated.0,
            omega (arith, height-Settled e.tree (pos 1) t g.1 (omega arith) rotated.1),
          )))
    | inr ge ↦
        rw (sub_ℕ-negsuc (height r) (height e.tree) 0 (omega arith))
          ((w, v.1, omega arith, omega arith, omega arith), (refl, inr (omega arith)))
  ]
]

pub grow_left-Balanced :
    (p : ℕ) (l r : Tree) (h : ℕ) (k : Hole) (e : Edit)
    → IsAvl (node p l r h k)
    → IsAvl e.tree × Grows l e.changed e.tree
    → Returns (grow_left p r h k e) (Balanced (node p l r h k))
unfolding grow_left
grow_left-Balanced p l r h k e v (w, g) = by_flag e.changed refl g
  where
    by_flag :
        (c : Bool)
        → e.changed ≡ c
        → Grows l c e.tree
        → Returns
            (if c then grown_left p r h k e else ok (record e { tree = node p e.tree r h k }))
            (Balanced (node p l r h k))
    by_flag true is g = grown_left-Balanced p l r h k e v w g
    by_flag false is g = rw is ((w, v.1, omega arith, omega arith, omega arith), refl)
