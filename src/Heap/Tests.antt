-- ===== src/Heap/Tests.antt =====
-- A heap of one used block and one hole, before the end of the first page.
use raw_os.Common.{
  ℕ, ◌+◌, ◌-◌, ◌*◌, ◌≤◌, ◌<◌, ◌^◌, ◌≡◌, refl, true, false, [], ◌∷◌, Outcome, ok, panicked, Returns,
  inl, zero, suc, arith, leb, ◌==◌, ◌&&◌, if◌then◌else◌,
}
use raw_os.Avl.{leaf, node}
use raw_os.Heap.{
  Memory, KallocHeap, read32, write32, set_size, set_used, set_header, hole_of, kalloc_heap_free,
}
use raw_os.Heap.Layout.{Block}
use raw_os.Heap.Opened.{IsHeap}
use raw_os.Heap.Free.{freed, kalloc_heap_free-refines, kalloc_heap_free-keeps}
use raw_os.Heap.Alloc.{kalloc_heap_alloc, kalloc_init}
use raw_os.Heap.Reuse.{IsAllocated, kalloc_heap_alloc-IsAllocated}
use raw_os.Heap.Grow.{Grants, IsRoomy, kalloc_heap_alloc-Grants}
use raw_os.Heap.Keeps.{kalloc_heap_alloc-keeps}
use raw_os.Heap.Bounds.{kalloc_heap_alloc-bounds}
use mathlib.Core.Path.{subst}
use raw_os.Heap.Create.{AreCreated}
use raw_os.Heap.Init.{kalloc_init-IsHeap}

abbrev block_then_hole : Memory
block_then_hole =
    set_header
      (set_size
        (set_used (set_header (set_size (set_used (λ x. 0) 4040 1) 4040 8) (4040 + 12 + 8) 4040)
          4068 0)
        4068 8)
      (4068 + 12 + 8) 4068

abbrev used_8 : Block
used_8 = record { size = 8; used = true }

abbrev hole_8 : Block
hole_8 = record { size = 8; used = false }

abbrev two : KallocHeap
two = record {
  avl_initial_addr = 0;
  initial_addr = 4040;
  size = 56;
  avl = record { free = 20 ∷ []; root = node 0 leaf leaf 1 (hole_of 4068 8) };
  memory = block_then_hole;
}

two-IsHeap : IsHeap two (used_8 ∷ hole_8 ∷ [])
unfolding read32 write32
two-IsHeap = record {
  layout = (
    record { size = refl; used = refl; footer = refl },
    (record { size = refl; used = refl; footer = refl }, refl),
  );
  tracks = record {
    holes = record { balanced = omega arith; sorted = omega arith };
    keeps = λ k h. h;
    kept = λ k h. h;
  };
  bound = omega arith;
}

freed_two : freed [] 8 (hole_8 ∷ []) ≡ record { size = 36; used = false } ∷ []
freed_two = refl

kalloc_heap_free-refines_example :
    Returns (kalloc_heap_free false two 4052) (λ heap.
      IsHeap heap (freed [] 8 (hole_8 ∷ [])) × (heap.initial_addr ≡ 4040) × (heap.size ≡ 56))
kalloc_heap_free-refines_example =
    kalloc_heap_free-refines false two [] 8 (hole_8 ∷ []) two-IsHeap (20, [], refl)

kalloc_heap_alloc-IsAllocated_example :
    Returns
      (kalloc_heap_alloc (λ page m. panicked) 1 false two 4 0)
      (IsAllocated 4040 (used_8 ∷ hole_8 ∷ []) 4)
kalloc_heap_alloc-IsAllocated_example =
    kalloc_heap_alloc-IsAllocated (λ page m. panicked) 0 false two (used_8 ∷ hole_8 ∷ []) 4
      (hole_of 4068 8) two-IsHeap (inl refl) (omega arith)

-- Only the page behind the heap can be mapped, and a byte of the used block changes.
abbrev map_page_1 : ℕ → Memory → Outcome Memory
map_page_1 page m = if page == 1 then ok (λ x. if x == 4055 then 3 else m x) else panicked

two-IsRoomy : IsRoomy map_page_1 false two hole_8 (used_8 ∷ []) 100 1
unfolding read32 write32
two-IsRoomy = record {
  blocks = two-IsHeap;
  node = inl refl;
  come = (
    (
      record { size = refl; used = refl; footer = refl },
      (record { size = refl; used = refl; footer = refl }, refl),
    ),
    λ heap' e. tt,
  );
  bound = omega arith;
  enough = omega arith;
}

kalloc_heap_alloc-Grants_example :
    Returns
      (kalloc_heap_alloc map_page_1 2 false two 100 0)
      (Grants 4040 (hole_8 ∷ used_8 ∷ []) 100 1)
kalloc_heap_alloc-Grants_example =
    kalloc_heap_alloc-Grants map_page_1 false 1 two hole_8 (used_8 ∷ []) 100 two-IsRoomy

-- Only the 17 pages from 0x500 on can be mapped.
abbrev map_17_pages : ℕ → Memory → Outcome Memory
map_17_pages page m = if leb 0x500 page && leb page 0x510 then ok m else panicked

map_17_pages-AreCreated : AreCreated map_17_pages 17 0x500 (λ x. 0) (λ x. 0)
map_17_pages-AreCreated = from 17 refl
  where
    -- The last `n` of the 17 pages.
    from : (n : ℕ) → leb n 17 ≡ true → AreCreated map_17_pages n (0x511 - n) (λ x. 0) (λ x. 0)
    from zero le = refl
    from (suc n) le = (
      (λ x. 0),
      ground (arith, le),
      subst (λ page. AreCreated map_17_pages n page (λ x. 0) (λ x. 0)) (next_page n le)
          (from n (ground (arith, le))),
    )
      where
        next_page : (n : ℕ) → leb (suc n) 17 ≡ true → 0x511 - n ≡ 0x511 - suc n + 1
        next_page n le = ground (arith, le)

kalloc_init-IsHeap_example : Returns (kalloc_init map_17_pages 1 false (λ x. 0) 1) (λ heap.
    IsHeap heap (
      record { size = 1; used = true }
      ∷ record { size = 1 * 4096 - 12 - 8 - 1 - 20; used = false }
      ∷ [])
    × (heap.initial_addr ≡ 0x00510000))
kalloc_init-IsHeap_example =
    kalloc_init-IsHeap map_17_pages 0 false (λ x. 0) (λ x. 0) 1 (omega arith) (omega arith)
      map_17_pages-AreCreated

kalloc_heap_alloc-bounds_example :
    Returns (kalloc_heap_alloc (λ page m. panicked) 1 false two 4 0) (λ r.
      (4052 ≤ r.0)
      × (r.0 + 4 + 8 ≤ (r.1).initial_addr + (r.1).size)
      × ((r.1).initial_addr + (r.1).size < 2 ^ 32))
kalloc_heap_alloc-bounds_example =
    kalloc_heap_alloc-bounds (λ page m. panicked) 0 false two (used_8 ∷ hole_8 ∷ []) 4
      (hole_of 4068 8) two-IsHeap (inl refl) (omega arith)

kalloc_heap_free-keeps_example :
    Returns (kalloc_heap_free false two 4052) (λ heap. heap.memory 4000 ≡ block_then_hole 4000)
kalloc_heap_free-keeps_example =
    kalloc_heap_free-keeps false two [] 8 (hole_8 ∷ []) 4000 two-IsHeap (20, [], refl)
      (inl (omega arith))

kalloc_heap_alloc-keeps_example :
    Returns
      (kalloc_heap_alloc (λ page m. panicked) 1 false two 4 0)
      (λ r. (r.1).memory 4055 ≡ block_then_hole 4055)
kalloc_heap_alloc-keeps_example =
    kalloc_heap_alloc-keeps (λ page m. panicked) 0 false two [] 8 (hole_8 ∷ []) 4 (hole_of 4068 8)
      4055 two-IsHeap (inl refl) (omega arith) (omega arith) (omega arith)
