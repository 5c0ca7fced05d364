-- ===== src/Heap/Init.antt =====
-- kalloc_init (alloc/kalloc.c): the kernel's heap, with its first block.
use raw_os.Common.{
  ℕ, suc, ◌+◌, ◌-◌, ◌*◌, ◌^◌, ◌≤◌, ◌<◌, ◌≡◌, ◌≢◌, refl, ◌∙◌, inl, Bool, true, false, List, [], ◌∷◌,
  Outcome, Returns, Returns->>=, arith,
}
use raw_os.Heap.{Memory, KallocHeap}
use raw_os.Heap.Layout.{Block, rebuild}
use raw_os.Heap.Opened.{IsHeap}
use raw_os.Heap.Alloc.{kalloc_heap_create, kalloc_heap_alloc, kalloc_alloc, kalloc_init}
use raw_os.Heap.Reuse.{IsAllocated}
use raw_os.Heap.Reuse.{kalloc_heap_alloc-IsAllocated}
use raw_os.Heap.Taken.{carved}
use raw_os.Heap.Create.{AreCreated, kalloc_heap_create-IsHeap}

two_blocks :
    (b : Block) (left : List Block) (c d : Block) (right : List Block)
    → b ∷ [] ≢ rebuild left (c ∷ d ∷ right)
two_blocks b [] c d right e = ground (arith, e)
two_blocks b (x ∷ left) c d right e = two_blocks b left x c (d ∷ right) e

only_block :
    (n : ℕ) (left : List Block) (k : ℕ) (right : List Block)
    → record { size = n; used = false } ∷ []
      ≡ rebuild left (record { size = k; used = false } ∷ right)
    → (left ≡ []) × (right ≡ []) × (n ≡ k)
only_block n [] k right e = ground (arith, e)
only_block n (x ∷ left) k right e =
    absurd (two_blocks _ left x (record { size = k; used = false }) right e)

carved_one :
    (n : ℕ)
    → 21 < n
    → carved n 1 []
      ≡ record { size = 1; used = true } ∷ record { size = n - 1 - 20; used = false } ∷ []
carved_one n large = ground (arith, large)

carved_only :
    (n : ℕ) (left : List Block) (k : ℕ) (right : List Block)
    → 21 < n
    → left ≡ []
    → right ≡ []
    → n ≡ k
    → rebuild left (carved k 1 right)
      ≡ record { size = 1; used = true } ∷ record { size = n - 1 - 20; used = false } ∷ []
carved_only n left k right large l r e = rw (l, r, ← e) (carved_one n large)

only_IsAllocated :
    (a n : ℕ) (r : ℕ × KallocHeap)
    → 21 < n
    → IsAllocated a (record { size = n; used = false } ∷ []) 1 r
    → IsHeap
        (r.1)
        (record { size = 1; used = true } ∷ record { size = n - 1 - 20; used = false } ∷ [])
      × ((r.1).initial_addr ≡ a)
only_IsAllocated a n r large i =
    let o = only_block n i.left i.n i.right i.found in
    (rw (carved_only n i.left i.n i.right large o.0 o.1 o.2) at i.heap, i.start)

module _ (create_page : ℕ → Memory → Outcome Memory) where
  -- If the pages of the kernel's heap, from page 0x500 on, can be created one after the other and end
  -- below 4 GB, the start of the heap returns: it is well formed, with one used byte, which the
  -- aligned allocations need before them, and one hole.
  pub kalloc_init-IsHeap :
      (fuel : ℕ) (junk : Bool) (m mapped : Memory) (pages : ℕ)
      → 1 ≤ pages
      → 0x00500000 + (16 + pages) * 4096 < 2 ^ 32
      → AreCreated create_page (16 + pages) 0x500 m mapped
      → Returns (kalloc_init create_page (suc fuel) junk m pages) (λ heap.
        IsHeap heap (
          record { size = 1; used = true }
          ∷ record { size = pages * 4096 - 12 - 8 - 1 - 20; used = false }
          ∷ [])
        × (heap.initial_addr ≡ 0x00510000))
  unfolding kalloc_init kalloc_alloc
  kalloc_init-IsHeap fuel junk m mapped pages some_page bound created =
      let n = pages * 4096 - 12 - 8 in
      Returns->>= (kalloc_heap_create create_page m 0x00500000 pages) _ _ _
        (kalloc_heap_create-IsHeap create_page m 0x00500000 pages refl some_page bound mapped
          created)
        (λ heap v.
          Returns->>= (kalloc_heap_alloc create_page (suc fuel) junk heap 1 0) _ _ _
            (kalloc_heap_alloc-IsAllocated create_page fuel junk heap
              (record { size = n; used = false } ∷ []) 1
              (record { size = n; addr = heap.initial_addr + 12 }) v.0 (inl refl)
              (omega (arith, some_page)))
            (λ r i.
              let w = only_IsAllocated heap.initial_addr n r (omega (arith, some_page)) i in
              (w.0, w.1 ∙ v.1)))
