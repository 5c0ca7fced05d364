-- ===== src/Heap/Grow.antt =====
-- kalloc_heap_alloc (alloc/kalloc_heap.c): the recursion that adds pages until a hole is large
-- enough.
use raw_os.Common.{
  ℕ, zero, suc, ◌+◌, ◌*◌, ◌^◌, ◌≤◌, ◌<◌, ◌≡◌, refl, ap, ◌⊎◌, inl, inr, Bool, true, false, List, [],
  ◌∷◌, if◌then◌else◌, Outcome, Returns, Returns-imp, Returns-ok, ok, arith,
}
use raw_os.Avl.{Hole}
use raw_os.Avl.Sorted.{Has}
use raw_os.Avl.Find.{kalloc_avl_find_hole}
use raw_os.Avl.Find.Laws.{kalloc_avl_find_hole-Answers}
use raw_os.Heap.{Memory, KallocHeap, hole_of}
use raw_os.Heap.Layout.{Block, place, rebuild}
use raw_os.Heap.Opened.{right_holes, left_holes, hole-Has, holes-join, IsHeap}
use raw_os.Heap.Holes.{HasNode}
use raw_os.Heap.Alloc.{expand, kalloc_heap_alloc}
use raw_os.Heap.Reuse.{IsAllocated, kalloc_heap_alloc-IsAllocated}
use raw_os.Heap.Expand.{grown, Maps, IsGrown, expand-IsGrown}

-- The blocks, the last one first, after `n` more pages.
abbrev pub grows : ℕ → List Block → List Block
grows zero left = left
grows (suc n) left = grows n (grown left)

-- The bytes at the end that are free, with the hole's header and footer.
abbrev pub tail_of : Block → ℕ
tail_of b = if b.used then 0 else b.size + 20

-- The next `n` pages behind this heap, whose blocks are `left`, can be mapped one after the other:
-- each of these calls returns in the memory in which it is made, and keeps the headers and the footers
-- of the blocks.
abbrev pub PagesCome : (ℕ → Memory → Outcome Memory) → Bool → ℕ → KallocHeap → List Block → Type 0
PagesCome create_page junk zero heap left = Unit
PagesCome create_page junk (suc n) heap left =
    Maps create_page heap (rebuild left [])
    × ((heap' : KallocHeap)
        → expand create_page junk heap ≡ ok heap'
        → PagesCome create_page junk n heap' (grown left))

-- At most `pages` pages are added, and then a hole is carved.
abbrev pub Grants : ℕ → List Block → ℕ → ℕ → ℕ × KallocHeap → Type 0
Grants a left size pages r =
    (k : ℕ) × (k ≤ pages) × IsAllocated a (rebuild (grows k left) []) size r

-- What the recursion needs: the last block `b` is a hole or a node of the tree is left, and the next
-- `pages` pages can be mapped, end below 4 GB and are enough for `size` bytes.
pub record IsRoomy (create_page : ℕ → Memory → Outcome Memory) (junk : Bool) (heap : KallocHeap)
    (b : Block) (left : List Block) (size pages : ℕ) : Type 0 where
  pub blocks : IsHeap heap (rebuild (b ∷ left) [])
  pub node : (b.used ≡ false) ⊎ HasNode heap.avl
  pub come : PagesCome create_page junk pages heap (b ∷ left)
  pub bound : heap.initial_addr + heap.size + 4096 * pages < 2 ^ 32
  pub enough : size + 20 ≤ tail_of b + 4096 * pages

hole_tail : (b : Block) → b.used ≡ false → tail_of b ≡ b.size + 20
hole_tail b used = ground (arith, used)

used_tail : (b : Block) → b.used ≡ true → tail_of b ≡ 0
used_tail b used = ground (arith, used)

grown_used :
    (b : Block) (left : List Block)
    → b.used ≡ true
    → grown (b ∷ left) ≡ record { size = 4076; used = false } ∷ b ∷ left
grown_used b left used =
    ap
      (λ u.
        if u
        then record { size = 4076; used = false } ∷ b ∷ left
        else record { size = b.size + 4096; used = false } ∷ left)
      used

grown_hole :
    (b : Block) (left : List Block)
    → b.used ≡ false
    → grown (b ∷ left) ≡ record { size = b.size + 4096; used = false } ∷ left
grown_hole b left used =
    ap
      (λ u.
        if u
        then record { size = 4076; used = false } ∷ b ∷ left
        else record { size = b.size + 4096; used = false } ∷ left)
      used

moved :
    (r : ℕ × KallocHeap) (k size a a' : ℕ) (xs ys : List Block)
    → a' ≡ a
    → xs ≡ ys
    → IsAllocated a' (rebuild (grows k ys) []) size r
    → IsAllocated a (rebuild (grows k xs) []) size r
moved r k size a a' xs ys e f i = rw (f, ← e) i

-- Without a page more, the last hole is large enough.
no_page : (b : Block) (size : ℕ) → size + 20 ≤ tail_of b → (b.used ≡ false) × (size ≤ b.size)
no_page b size enough = ground (arith, enough)

module _ (create_page : ℕ → Memory → Outcome Memory) (junk : Bool) where
  -- The heap has a hole that is large enough.
  at_once :
      (fuel : ℕ) (heap : KallocHeap) (left : List Block) (size pages : ℕ) (k : Hole)
      → IsHeap heap (rebuild left [])
      → Has k (right_holes heap.initial_addr (rebuild left []))
      → size ≤ k.size
      → Returns
          (kalloc_heap_alloc create_page (suc fuel) junk heap size 0)
          (Grants heap.initial_addr left size pages)
  at_once fuel heap left size pages k v has le =
      Returns-imp (kalloc_heap_alloc create_page (suc fuel) junk heap size 0) _ _
        (kalloc_heap_alloc-IsAllocated create_page fuel junk heap (rebuild left []) size k v has le)
        (λ r i. (0, omega arith, i))

  abbrev Again : ℕ → ℕ → Type 0
  Again pages size =
      (heap : KallocHeap)
      → (b : Block) → (left : List Block) → IsRoomy create_page junk heap b left size pages
      → Returns (kalloc_heap_alloc create_page (suc pages) junk heap size 0)
          (Grants heap.initial_addr (b ∷ left) size pages)

  -- The recursive call, after the page.
  recur :
      (pages : ℕ) (heap : KallocHeap) (b : Block) (left : List Block) (size : ℕ)
      → IsRoomy create_page junk heap b left size (suc pages)
      → Again pages size
      → (b' : Block) (left' : List Block) (heap' : KallocHeap) → grown (b ∷ left) ≡ b' ∷ left'
      → b'.used ≡ false
      → b'.size + 20 ≡ tail_of b + 4096
      → IsGrown heap (rebuild (b' ∷ left') []) heap'
      → PagesCome create_page junk pages heap' (b' ∷ left')
      → Returns
          (kalloc_heap_alloc create_page (suc pages) junk heap' size 0)
          (Grants heap.initial_addr (b ∷ left) size (suc pages))
  recur pages heap b left size roomy ih b' left' heap' e used tail g come =
      Returns-imp (kalloc_heap_alloc create_page (suc pages) junk heap' size 0) _ _
        (ih heap' b' left' (record {
          blocks = g.0;
          node = inl used;
          come = come;
          bound = omega (arith, g.1, g.2, roomy.bound);
          enough = omega (arith, hole_tail b' used, tail, roomy.enough);
        }))
        (λ r i. (
          suc (i.0),
          omega (arith, i.1),
          moved (r) (i.0) size heap.initial_addr heap'.initial_addr (grown (b ∷ left)) (b' ∷ left')
              g.1 e i.2,
        ))

  -- One more page, and the recursive call.
  one_page :
      (pages : ℕ) (heap : KallocHeap) (b : Block) (left : List Block) (size : ℕ)
      → IsRoomy create_page junk heap b left size (suc pages)
      → kalloc_avl_find_hole heap.avl size 0 ≡ 0
      → Again pages size
      → Returns
          (kalloc_heap_alloc create_page (suc (suc pages)) junk heap size 0)
          (Grants heap.initial_addr (b ∷ left) size (suc pages))
  unfolding kalloc_heap_alloc
  one_page pages heap b left size roomy none ih =
      let (heap', e, g) =
        Returns-ok (expand create_page junk heap) (IsGrown heap (rebuild (grown (b ∷ left)) [])) (
          expand-IsGrown create_page junk heap b left roomy.blocks (omega (arith, roomy.bound))
            roomy.node (roomy.come).0) in
      rw (none, kalloc_heap_alloc, e) (by_use (b.used) refl heap' g ((roomy.come).1 heap' e))
    where
      by_use :
          (u : Bool)
          → b.used ≡ u
          → (heap' : KallocHeap)
          → let bs : List Block =
              if u
              then record { size = 4076; used = false } ∷ b ∷ left
              else record { size = b.size + 4096; used = false } ∷ left in
            IsGrown heap (rebuild bs []) heap'
            → PagesCome create_page junk pages heap' bs
            → Returns
                (kalloc_heap_alloc create_page (suc pages) junk heap' size 0)
                (Grants heap.initial_addr (b ∷ left) size (suc pages))
      by_use true used heap' g come =
          recur pages heap b left size roomy ih (record { size = 4076; used = false }) (b ∷ left)
            heap' (grown_used b left used) refl (omega (arith, used_tail b used)) g come
      by_use false used heap' g come =
          recur pages heap b left size roomy ih (record { size = b.size + 4096; used = false }) left
            heap' (grown_hole b left used) refl (omega (arith, hole_tail b used)) g come

  last_fits :
      (heap : KallocHeap) (b : Block) (left : List Block) (size : ℕ)
      → b.used ≡ false
      → Has
          (hole_of (place heap.initial_addr left) b.size)
          (right_holes heap.initial_addr (rebuild (b ∷ left) []))
  last_fits heap b left size used =
      let a = heap.initial_addr in
      holes-join a (b ∷ left) [] (hole_of (place a left) b.size)
        (inl (hole-Has (place a left) b (left_holes a left) used))

  -- An allocation without alignment returns, and at most `pages` pages are added, if so many are
  -- enough for `size` bytes behind the last block, end below 4 GB and can be mapped one after the
  -- other behind the heap, keeping the headers and footers of its blocks, and the last block is a
  -- hole or a node of the tree is left. A least hole of the grown heap that is large enough is carved, and
  -- its address is the answer.
  pub kalloc_heap_alloc-Grants :
      (pages : ℕ) (heap : KallocHeap) (b : Block) (left : List Block) (size : ℕ)
      → IsRoomy create_page junk heap b left size pages
      → Returns
          (kalloc_heap_alloc create_page (suc pages) junk heap size 0)
          (Grants heap.initial_addr (b ∷ left) size pages)
  kalloc_heap_alloc-Grants zero heap b left size roomy =
      let fits = no_page b size (omega (arith, roomy.enough)) in
      at_once zero heap (b ∷ left) size zero (hole_of (place heap.initial_addr left) b.size)
        roomy.blocks (last_fits heap b left size fits.0) fits.1
  kalloc_heap_alloc-Grants (suc pages) heap b left size roomy =
      elim (kalloc_avl_find_hole-Answers heap.avl size 0) [
        | inl none ↦
            one_page pages heap b left size roomy none
              (λ heap' b' left' roomy'. kalloc_heap_alloc-Grants pages heap' b' left' size roomy')
        | inr (x, has, addr, usable) ↦
            at_once (suc pages) heap (b ∷ left) size (suc pages) x roomy.blocks
              (roomy.blocks.tracks.keeps x has) usable.0
      ]
