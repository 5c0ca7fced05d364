-- ===== src/Heap/Bounds.antt =====
-- Where the block lies that kalloc_heap_alloc (alloc/kalloc_heap.c) gives.
use raw_os.Common.{
  ℕ, suc, ◌+◌, ◌-◌, ◌^◌, ◌≤◌, ◌<◌, Bool, true, false, List, ◌∷◌, ltb, Outcome, Returns, Returns-imp,
  if◌then◌else◌, arith,
}
use raw_os.Heap.{Memory, KallocHeap}
use raw_os.Heap.Layout.{Block, Layout, place, place-le, Layout-le, Layout-split}
use raw_os.Heap.Taken.{carved}
use raw_os.Heap.Alloc.{kalloc_heap_alloc}
use raw_os.Avl.{Hole}
use raw_os.Avl.Sorted.{Has}
use raw_os.Heap.Opened.{right_holes, IsHeap}
use raw_os.Heap.Reuse.{kalloc_heap_alloc-IsAllocated}

-- The carved block ends before the heap.
carved-le :
    (m : Memory) (h n size : ℕ) (right : List Block) (e : ℕ)
    → size ≤ n
    → Layout m h (carved n size right) e
    → h + 12 + size + 8 ≤ e
carved-le m h n size right e fits = by_room (ltb (size + 20) n)
  where
    by_room :
        (room : Bool)
        → Layout m h
            (if room
              then record { size = size; used = true }
                ∷ record { size = n - size - 20; used = false }
                ∷ right
              else record { size = n; used = true } ∷ right)
            e
        → h + 12 + size + 8 ≤ e
    by_room true l =
        Layout-le m (h + 12 + size + 8) (record { size = n - size - 20; used = false } ∷ right) e
          l.1
    by_room false l = omega (arith, Layout-le m (h + 12 + n + 8) right e l.1, fits)

module _ (create_page : ℕ → Memory → Outcome Memory) where
  -- Where a hole of a well-formed heap is large enough, an allocation without alignment returns an
  -- address with `size` bytes behind it, a header before and a footer after them inside the heap.
  pub kalloc_heap_alloc-bounds :
      (fuel : ℕ) (junk : Bool) (heap : KallocHeap) (bs : List Block) (size : ℕ) (k : Hole)
      → IsHeap heap bs
      → Has k (right_holes heap.initial_addr bs)
      → size ≤ k.size
      → Returns (kalloc_heap_alloc create_page (suc fuel) junk heap size 0) (λ r.
        (heap.initial_addr + 12 ≤ r.0)
        × (r.0 + size + 8 ≤ (r.1).initial_addr + (r.1).size)
        × ((r.1).initial_addr + (r.1).size < 2 ^ 32))
  kalloc_heap_alloc-bounds fuel junk heap bs size k valid has le =
      Returns-imp (kalloc_heap_alloc create_page (suc fuel) junk heap size 0) _ _
        (kalloc_heap_alloc-IsAllocated create_page fuel junk heap bs size k valid has le)
        (λ r i.
          let e = (r.1).initial_addr + (r.1).size in
          let parts =
            Layout-split (r.1).memory (r.1).initial_addr i.left (carved i.n size i.right) e
              i.heap.layout in
          let end =
            carved-le (r.1).memory (place (r.1).initial_addr i.left) i.n size i.right e i.fits
              parts.1 in
          (
            omega (arith, i.address, place-le heap.initial_addr i.left),
            omega (arith, i.address, rw i.start at end),
            i.heap.bound,
          ))
