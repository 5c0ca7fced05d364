-- ===== src/Heap/Reuse.antt =====
-- kalloc_heap_alloc (alloc/kalloc_heap.c) where a hole of the heap is large enough.
use raw_os.Common.{
  ℕ, suc, ◌+◌, ◌^◌, ◌≤◌, ◌<◌, ◌≡◌, refl, ap, ◌∙◌, ◌⊎◌, inl, inr, Bool, true, false, not, List, [],
  ◌∷◌, leb, ◌==◌, lt_or_le, Outcome, Returns, Returns-imp, arith,
}
use raw_os.Avl.{Hole}
use raw_os.Avl.Sorted.{◌≺◌, Has, All, IsSorted, inorder}
use raw_os.Avl.Lists.{All-imp}
use raw_os.Avl.Find.{kalloc_avl_find_hole}
use raw_os.Avl.Find.Laws.{first_fit, kalloc_avl_find_hole-eq-first_fit}
use raw_os.Heap.{Memory, KallocHeap, hole_of}
use raw_os.Heap.Memory.{Framed}
use raw_os.Heap.Layout.{Block, place, rebuild, Layout-le, Layout-split}
use raw_os.Heap.Tracks.{All-Has, Has-All}
use raw_os.Heap.Opened.{right_holes, right_holes-ge, Has-add_hole, IsHeap}
use raw_os.Heap.Alloc.{kalloc_heap_alloc}
use raw_os.Heap.Taken.{carved}
use raw_os.Heap.AllocIn.{alloc_in-Closes}

-- A hole of the tree is a hole of the heap.
locate :
    (a : ℕ) (left bs : List Block) (k : Hole)
    → Has k (right_holes (place a left) bs)
    → (left' : List Block) × (n : ℕ) × (right : List Block) × (rebuild left bs
        ≡ rebuild left' (record { size = n; used = false } ∷ right))
      × (k ≡ hole_of (place a left') n)
locate a left [] k has = absurd has
locate a left (b ∷ bs) k has =
    elim (Has-add_hole (place a left) b (right_holes (place a (b ∷ left)) bs) k has) [
      | inl here ↦ (
        left,
        b.size,
        bs,
        ap (λ u. rebuild left (record { size = b.size; used = u } ∷ bs)) here.0,
        here.1,
      )
      | inr there ↦ locate a (b ∷ left) bs k there
    ]

leb-true : (a b : ℕ) → a ≤ b → leb a b ≡ true
leb-true a b le = ground (arith, le)

leb-false : (a b : ℕ) → b < a → leb a b ≡ false
leb-false a b lt = ground (arith, lt)

≺-le : (a b : Hole) → a ≺ b → a.size ≤ b.size
≺-le a b below = ground (arith, below)

-- The hole is not the first one, which is too small.
Has-later :
    (y : Hole) (ks : List Hole) (k : Hole) (wanted : ℕ)
    → y.size < wanted
    → wanted ≤ k.size
    → Has k (y ∷ ks)
    → Has k ks
Has-later y ks k wanted small le (inl e) = absurd (omega (arith, ap Hole.size e, small, le))
Has-later y ks k wanted small le (inr has) = has

-- In a sorted list, the first hole that is large enough is a least one.
fitting :
    (wanted : ℕ) (ks : List Hole) (k : Hole)
    → IsSorted ks
    → Has k ks
    → wanted ≤ k.size
    → (x : Hole) × Has x ks
      × (first_fit wanted ks ≡ x.addr)
      × (wanted ≤ x.size)
      × All (λ y. (y.size < wanted) ⊎ (x.size ≤ y.size)) ks
fitting wanted [] k s has le = absurd has
fitting wanted (y ∷ ks) k s has le = elim (lt_or_le y.size wanted) [
  | inl small ↦
      let r = fitting wanted ks k s.1 (Has-later y ks k wanted small le has) le in
      (r.0, inr r.1, rw (leb-false wanted y.size small, first_fit) r.2, r.3, (inl small, r.4))
  | inr fits ↦ (
    y,
    inl refl,
    rw (leb-true wanted y.size fits, first_fit) refl,
    fits,
    (inr (omega arith), All-imp ks (λ z below. inr (≺-le y z below)) s.0),
  )
]

-- What the caller gets of the blocks `bs`: a least hole that is large enough is carved, and the
-- other blocks stay.
pub record IsAllocated (a : ℕ) (bs : List Block) (size : ℕ) (r : ℕ × KallocHeap) : Type 0 where
  pub left : List Block
  pub n : ℕ
  pub right : List Block
  pub found : bs ≡ rebuild left (record { size = n; used = false } ∷ right)
  pub fits : size ≤ n
  pub best : All (λ k. (k.size < size) ⊎ (n ≤ k.size)) (right_holes a bs)
  pub address : (r.0) ≡ place a left + 12
  pub heap : IsHeap (r.1) (rebuild left (carved n size right))
  pub start : (r.1).initial_addr ≡ a

found_size :
    (heap : KallocHeap) (left : List Block) (n : ℕ) (right : List Block)
    → IsHeap heap (rebuild left (record { size = n; used = false } ∷ right))
    → n < 2 ^ 32
found_size heap left n right v =
    let e = heap.initial_addr + heap.size in
    let parts =
      Layout-split heap.memory heap.initial_addr left (record { size = n; used = false } ∷ right) e
        v.layout in
    omega (arith, Layout-le heap.memory _ right e parts.1.1, v.bound)

nonzero : (x : ℕ) → not (x + 12 == 0) ≡ true
nonzero x = ground arith

-- The same, and what the call writes lies in the hole.
pub record IsAllocatedIn (m : Memory) (a : ℕ) (bs : List Block) (size : ℕ) (r : ℕ × KallocHeap)
    : Type 0 where
  pub allocated : IsAllocated a bs size r
  pub kept :
      Framed m (r.1).memory (place a allocated.left) (place a allocated.left + 12 + allocated.n + 8)

pub kalloc_heap_alloc-IsAllocatedIn :
    (create_page : ℕ → Memory → Outcome Memory) (fuel : ℕ) (junk : Bool) (heap : KallocHeap)
    (bs : List Block) (size : ℕ) (k : Hole)
    → IsHeap heap bs
    → Has k (right_holes heap.initial_addr bs)
    → size ≤ k.size
    → Returns
        (kalloc_heap_alloc create_page (suc fuel) junk heap size 0)
        (IsAllocatedIn heap.memory heap.initial_addr bs size)
unfolding kalloc_heap_alloc
kalloc_heap_alloc-IsAllocatedIn create_page fuel junk heap bs size k v has le =
    let a = heap.initial_addr in
    let holes = inorder heap.avl.root in
    let x = fitting size holes k v.tracks.holes.sorted (v.tracks.kept k has) le in
    let l = locate a [] bs (x.0) (v.tracks.keeps (x.0) x.1) in
    let v' = rw (l.3) at v in
    let fits : size ≤ l.1 = omega (arith, x.3, ap Hole.size l.4) in
    let c = alloc_in-Closes junk heap (l.0) (l.1) (l.2) size v' fits in
    let answer : kalloc_avl_find_hole heap.avl size 0 ≡ place a (l.0) + 12 =
      kalloc_avl_find_hole-eq-first_fit heap.avl size v.tracks.holes
        (All-Has _ holes
          λ y h zero. omega (arith, right_holes-ge a bs y (v.tracks.keeps y h), zero))
        (omega (arith, found_size heap (l.0) (l.1) (l.2) v', fits))
      ∙ x.2
      ∙ ap Hole.addr l.4 in
    rw (answer, nonzero (place a (l.0)), kalloc_heap_alloc)
      (rw c.2 (record {
        kept = c.4;
        allocated = record {
          left = l.0;
          n = l.1;
          right = l.2;
          found = l.3;
          fits = fits;
          best = All-Has _ (right_holes a bs) λ y h.
              elim (Has-All _ holes y x.4 (v.tracks.kept y h)) [
                | inl small ↦ inl small
                | inr least ↦ inr (omega (arith, least, ap Hole.size l.4))
              ];
          address = refl;
          heap = c.3;
          start = refl;
        };
      }))

-- Where a hole of a well-formed heap is large enough, an allocation without alignment returns the
-- address of a least such hole, and the heap is well formed with the hole carved; no page is needed.
pub kalloc_heap_alloc-IsAllocated :
    (create_page : ℕ → Memory → Outcome Memory) (fuel : ℕ) (junk : Bool) (heap : KallocHeap)
    (bs : List Block) (size : ℕ) (k : Hole)
    → IsHeap heap bs
    → Has k (right_holes heap.initial_addr bs)
    → size ≤ k.size
    → Returns
        (kalloc_heap_alloc create_page (suc fuel) junk heap size 0)
        (IsAllocated heap.initial_addr bs size)
kalloc_heap_alloc-IsAllocated create_page fuel junk heap bs size k v has le =
    Returns-imp (kalloc_heap_alloc create_page (suc fuel) junk heap size 0) _ _
      (kalloc_heap_alloc-IsAllocatedIn create_page fuel junk heap bs size k v has le)
      (λ r i. i.allocated)
