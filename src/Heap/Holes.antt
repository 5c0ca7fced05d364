-- ===== src/Heap/Holes.antt =====
-- The calls of the tree, as the heap makes them.
use raw_os.Common.{
  ◌≤◌, ℕ, ◌+◌, ◌≡◌, ◌≢◌, refl, sym, ap, ◌⊎◌, inl, inr, Bool, false, List, ◌∷◌, ok, Returns-ok,
  arith,
}
use raw_os.Avl.{Hole, Avl}
use raw_os.Avl.Insert.{kalloc_avl_insert}
use raw_os.Avl.Remove.{kalloc_avl_remove}
use raw_os.Heap.{KallocHeap, hole_of, used_at, insert_hole, remove_hole}
use raw_os.Heap.Layout.{Block, place, rebuild, Layout-split}
use raw_os.Heap.Focus.{Focus-Layout}
use raw_os.Heap.Tracks.{Tracks, Tracks-imp, insert-Tracks, remove-Tracks}
use raw_os.Heap.Opened.{
  left_holes, right_holes, IsAround, left_holes-lt, right_holes-ge, holes-split, holes-join,
  Has-add_hole, add_hole-Has, IsHeap, IsOpened,
}

-- A node of the tree is left for a hole.
abbrev pub HasNode : Avl → Type 0
HasNode avl = (n : ℕ) × (rest : List ℕ) × (avl.free ≡ n ∷ rest)

module _ (heap : KallocHeap) (P : Hole → Type 0) (t : Tracks heap.avl P) where
  pub insert_hole-Tracks :
      (h n : ℕ)
      → HasNode heap.avl
      → ((k : Hole) → P k → hole_of h n ≢ k)
      → (avl : Avl) × (insert_hole heap h n ≡ ok (record heap { avl = avl }))
        × Tracks avl (λ k. (k ≡ hole_of h n) ⊎ P k)
  unfolding insert_hole
  insert_hole-Tracks h n (x, rest, free) new =
      let r =
        Returns-ok (kalloc_avl_insert heap.avl (hole_of h n)) _
          (insert-Tracks heap.avl P (hole_of h n) x rest t free new) in
      (r.0.0, rw (r.1, insert_hole) refl, r.2.0)

  pub remove_hole-Tracks :
      (junk : Bool) (h n : ℕ)
      → P (hole_of h n)
      → (avl : Avl) × (remove_hole junk heap h n ≡ ok (record heap { avl = avl }))
        × Tracks avl (λ k. P k × (k ≢ hole_of h n))
        × HasNode avl
  unfolding remove_hole
  remove_hole-Tracks junk h n p =
      let r =
        Returns-ok (kalloc_avl_remove junk heap.avl (hole_of h n)) _
          (remove-Tracks junk heap.avl P (hole_of h n) t p) in
      (r.0.0, rw (r.1, remove_hole) refl, r.2.0, (r.2.1.0, heap.avl.free, r.2.1.1))

-- The holes around a hole are others.
around-differs :
    (a : ℕ) (left : List Block) (n : ℕ) (right : List Block) (k : Hole)
    → IsAround a left (place a left + 12 + n + 8) right k
    → k ≢ hole_of (place a left) n
around-differs a left n right k (inl has) e =
    absurd (omega (arith, left_holes-lt a left k has, ap Hole.addr e))
around-differs a left n right k (inr has) e =
    absurd (omega (arith, right_holes-ge (place a left + 12 + n + 8) right k has, ap Hole.addr e))

add-IsAround :
    (a : ℕ) (left : List Block) (n : ℕ) (right : List Block) (k : Hole)
    → (k ≡ hole_of (place a left) n) ⊎ IsAround a left (place a left + 12 + n + 8) right k
    → IsAround a left (place a left) (record { size = n; used = false } ∷ right) k
add-IsAround a left n right k (inl e) = inr (inl e)
add-IsAround a left n right k (inr (inl h)) = inl h
add-IsAround a left n right k (inr (inr h)) = inr (inr h)

split-IsAround :
    (a : ℕ) (left : List Block) (n : ℕ) (right : List Block) (k : Hole)
    → IsAround a left (place a left) (record { size = n; used = false } ∷ right) k
    → (k ≡ hole_of (place a left) n) ⊎ IsAround a left (place a left + 12 + n + 8) right k
split-IsAround a left n right k (inl h) = inr (inl h)
split-IsAround a left n right k (inr (inl e)) = inl e
split-IsAround a left n right k (inr (inr h)) = inr (inr h)

-- Of two cases, the one that is left.
other : {P Q : Type 0} → P ⊎ Q → (P → ⊥) → Q
other (inl p) refuted = absurd (refuted p)
other (inr q) refuted = q

-- The block that was changed is a hole now and goes into the tree.
pub insert_hole-IsHeap :
    (heap : KallocHeap) (left : List Block) (n : ℕ) (right : List Block)
    → IsOpened heap left n right
    → HasNode heap.avl
    → used_at heap.memory (place heap.initial_addr left) ≡ 0
    → (avl : Avl) × (insert_hole heap (place heap.initial_addr left) n
        ≡ ok (record heap { avl = avl }))
      × IsHeap
          (record heap { avl = avl })
          (rebuild left (record { size = n; used = false } ∷ right))
insert_hole-IsHeap heap left n right o node used =
    let a = heap.initial_addr in
    let hole : Block = record { size = n; used = false } in
    let r =
      insert_hole-Tracks heap _ o.tracks (place a left) n node
        (λ k around e. around-differs a left n right k around (sym e)) in
    (
      r.0,
      r.1,
      record {
        layout = Focus-Layout heap.memory a left n right (a + heap.size) false o.focus used;
        tracks =
            Tracks-imp (r.0) _ _
              (λ k p. holes-join a left (hole ∷ right) k (add-IsAround a left n right k p))
              (λ k has. split-IsAround a left n right k (holes-split a left (hole ∷ right) k has))
              r.2;
        bound = o.bound;
      },
    )

-- The hole between `left` and `right` is taken out of the tree.
pub remove_hole-IsOpened :
    (junk : Bool) (heap : KallocHeap) (left : List Block) (n : ℕ) (right : List Block)
    → IsHeap heap (rebuild left (record { size = n; used = false } ∷ right))
    → (avl : Avl) × (remove_hole junk heap (place heap.initial_addr left) n
        ≡ ok (record heap { avl = avl }))
      × IsOpened (record heap { avl = avl }) left n right
      × HasNode avl
remove_hole-IsOpened junk heap left n right v =
    let a = heap.initial_addr in
    let hole : Block = record { size = n; used = false } in
    let parts = Layout-split heap.memory a left (hole ∷ right) (a + heap.size) v.layout in
    let r =
      remove_hole-Tracks heap _ v.tracks junk (place a left) n
        (holes-join a left (hole ∷ right) (hole_of (place a left) n) (inr (inl refl))) in
    (
      r.0,
      r.1,
      record {
        focus = record {
          before = parts.0;
          size = parts.1.0.size;
          footer = parts.1.0.footer;
          after = parts.1.1;
        };
        tracks =
            Tracks-imp (r.0) _ _
              (λ k p.
                other (split-IsAround a left n right k (holes-split a left (hole ∷ right) k p.0))
                  p.1)
              (λ k around. (
                holes-join a left (hole ∷ right) k (add-IsAround a left n right k (inr around)),
                around-differs a left n right k around,
              ))
              r.2;
        bound = v.bound;
      },
      r.3,
    )

-- The neighbour that the block takes in was taken out of the tree.
module _ (a : ℕ) (left : List Block) (b : Block) (right : List Block) (e f : ℕ) (avl : Avl) where
  pub drop_left-Tracks :
      place a (b ∷ left) ≤ e
      → f ≡ e
      → Tracks avl (λ k. IsAround a (b ∷ left) e right k × (k ≢ hole_of (place a left) b.size))
      → Tracks avl (IsAround a left f right)
  drop_left-Tracks le same =
      Tracks-imp avl _ _
        (λ k p. rw same (elim (p.0) [
          | inl has ↦
              inl (other (Has-add_hole (place a left) b (left_holes a left) k has) λ x. p.1 x.1)
          | inr has ↦ inr has
        ]))
        (λ k q. elim (rw same at q) [
          | inl has ↦ (
            inl (add_hole-Has (place a left) b (left_holes a left) k has),
            λ x. omega (arith, left_holes-lt a left k has, ap Hole.addr x),
          )
          | inr has ↦
              (inr has, λ x. omega (arith, right_holes-ge e right k has, ap Hole.addr x, le))
        ])

  pub drop_right-Tracks :
      place a left ≤ e
      → f ≡ e + 12 + b.size + 8
      → Tracks avl (λ k. IsAround a left e (b ∷ right) k × (k ≢ hole_of e b.size))
      → Tracks avl (IsAround a left f right)
  drop_right-Tracks le same =
      Tracks-imp avl _ _
        (λ k p. rw same (elim (p.0) [
          | inl has ↦ inl has
          | inr has ↦ inr (
              other (Has-add_hole e b (right_holes (e + 12 + b.size + 8) right) k has) λ x. p.1 x.1)
        ]))
        (λ k q. elim (rw same at q) [
          | inl has ↦ (inl has, λ x. omega (arith, left_holes-lt a left k has, ap Hole.addr x, le))
          | inr has ↦ (
            inr (add_hole-Has e b (right_holes (e + 12 + b.size + 8) right) k has),
            λ x. omega (arith, right_holes-ge (e + 12 + b.size + 8) right k has, ap Hole.addr x),
          )
        ])
