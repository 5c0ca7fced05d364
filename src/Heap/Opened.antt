-- ===== src/Heap/Opened.antt =====
-- The heap between two calls, and while a call changes one block that the tree does not keep.
use raw_os.Common.{
  ℕ, ◌+◌, ◌^◌, ◌≤◌, ◌<◌, ◌≡◌, refl, ap, ◌⊎◌, ◌↔◌, inl, inr, true, false, List, [], ◌∷◌,
  if◌then◌else◌, arith,
}
use raw_os.Avl.{Hole}
use raw_os.Avl.Sorted.{Has}
use raw_os.Heap.{KallocHeap, hole_of}
use raw_os.Heap.Layout.{Block, Layout, place, rebuild}
use raw_os.Heap.Focus.{Focus}
use raw_os.Heap.Tracks.{Tracks}

abbrev pub add_hole : ℕ → Block → List Hole → List Hole
add_hole h b ks = if b.used then ks else hole_of h b.size ∷ ks

-- The holes behind `a`, and before `place a left`.
abbrev pub right_holes : ℕ → List Block → List Hole
right_holes a [] = []
right_holes a (b ∷ bs) = add_hole a b (right_holes (a + 12 + b.size + 8) bs)

abbrev pub left_holes : ℕ → List Block → List Hole
left_holes a [] = []
left_holes a (b ∷ bs) = add_hole (place a bs) b (left_holes a bs)

-- The hole is one of those before `place a left` or behind `e`.
abbrev pub IsAround : ℕ → List Block → ℕ → List Block → Hole → Type 0
IsAround a left e right k = Has k (left_holes a left) ⊎ Has k (right_holes e right)

pub Has-add_hole :
    (h : ℕ) (b : Block) (ks : List Hole) (k : Hole)
    → Has k (add_hole h b ks)
    → ((b.used ≡ false) × (k ≡ hole_of h b.size)) ⊎ Has k ks
Has-add_hole h b ks k has = ground (arith, has)

pub add_hole-Has :
    (h : ℕ) (b : Block) (ks : List Hole) (k : Hole) → Has k ks → Has k (add_hole h b ks)
add_hole-Has h b ks k has = ground (arith, has)

pub left_holes-lt :
    (a : ℕ) (bs : List Block) (k : Hole) → Has k (left_holes a bs) → k.addr < place a bs
left_holes-lt a [] k has = absurd has
left_holes-lt a (b ∷ bs) k has = elim (Has-add_hole (place a bs) b (left_holes a bs) k has) [
  | inl e ↦ omega (arith, ap Hole.addr e.1)
  | inr h ↦ omega (arith, left_holes-lt a bs k h)
]

pub right_holes-ge :
    (a : ℕ) (bs : List Block) (k : Hole) → Has k (right_holes a bs) → a + 12 ≤ k.addr
right_holes-ge a [] k has = absurd has
right_holes-ge a (b ∷ bs) k has =
    elim (Has-add_hole a b (right_holes (a + 12 + b.size + 8) bs) k has) [
      | inl e ↦ omega (arith, ap Hole.addr e.1)
      | inr h ↦ omega (arith, right_holes-ge (a + 12 + b.size + 8) bs k h)
    ]

add_hole-move :
    (h : ℕ) (b : Block) (ks js : List Hole) (k : Hole)
    → (Has k ks ⊎ Has k (add_hole h b js)) ↔ (Has k (add_hole h b ks) ⊎ Has k js)
add_hole-move h b ks js k =
    elim (b.used)
      as (λ u.
        (Has k ks ⊎ Has k (if u then js else hole_of h b.size ∷ js))
        ↔ (Has k (if u then ks else hole_of h b.size ∷ ks) ⊎ Has k js)) [
          | true ↦ (λ x. x, λ x. x)
          | false ↦ (
            λ x. elim x [ inl a ↦ inl (inr a) | inr (inl e) ↦ inl (inl e) | inr (inr c) ↦ inr c ],
            λ x. elim x [ inl (inl e) ↦ inr (inl e) | inl (inr a) ↦ inl a | inr c ↦ inr (inr c) ],
          )
        ]

pub hole-Has :
    (h : ℕ) (b : Block) (ks : List Hole) → b.used ≡ false → Has (hole_of h b.size) (add_hole h b ks)
hole-Has h b ks used = rw (used, add_hole) (inl refl)

-- The holes of all blocks are those on the two sides of a place.
pub holes-split :
    (a : ℕ) (left right : List Block) (k : Hole)
    → Has k (right_holes a (rebuild left right))
    → IsAround a left (place a left) right k
holes-split a [] right k has = inr has
holes-split a (b ∷ left) right k has =
    (add_hole-move (place a left) b (left_holes a left)
        (right_holes (place a left + 12 + b.size + 8) right) k).0
      (holes-split a left (b ∷ right) k has)

pub holes-join :
    (a : ℕ) (left right : List Block) (k : Hole)
    → IsAround a left (place a left) right k
    → Has k (right_holes a (rebuild left right))
holes-join a [] right k (inl has) = absurd has
holes-join a [] right k (inr has) = has
holes-join a (b ∷ left) right k around = holes-join a left (b ∷ right) k (
    (add_hole-move (place a left) b (left_holes a left)
        (right_holes (place a left + 12 + b.size + 8) right) k).1
      around)

-- Between two calls: the blocks fill the heap, and the tree keeps the holes.
pub record IsHeap (heap : KallocHeap) (bs : List Block) : Type 0 where
  pub layout : Layout heap.memory heap.initial_addr bs (heap.initial_addr + heap.size)
  pub tracks : Tracks heap.avl (λ k. Has k (right_holes heap.initial_addr bs))
  pub bound : heap.initial_addr + heap.size < 2 ^ 32

-- While a call changes the block between `left` and `right`, of `n` bytes, which the tree does not
-- keep.
pub record IsOpened (heap : KallocHeap) (left : List Block) (n : ℕ) (right : List Block)
    : Type 0 where
  pub focus : Focus heap.memory heap.initial_addr left n right (heap.initial_addr + heap.size)
  pub tracks :
      Tracks heap.avl
        (IsAround heap.initial_addr left (place heap.initial_addr left + 12 + n + 8) right)
  pub bound : heap.initial_addr + heap.size < 2 ^ 32
