-- ===== src/Heap/AllocIn.antt =====
-- alloc_in (in kalloc_heap_alloc, alloc/kalloc_heap.c), where nothing is to be aligned.
use raw_os.Common.{ℕ, ◌+◌, ◌-◌, ◌≤◌, ◌≡◌, refl, Bool, true, false, List, ◌∷◌, ltb, leb, ok, arith}
use raw_os.Avl.{Avl}
use raw_os.Avl.Find.{get_aligned_address}
use raw_os.Heap.{Memory, KallocHeap}
use raw_os.Heap.Memory.{Framed}
use raw_os.Heap.Layout.{Block, place, rebuild, Layout-split}
use raw_os.Heap.Opened.{IsHeap}
use raw_os.Heap.Holes.{remove_hole-IsOpened}
use raw_os.Heap.Alloc.{alloc_in}
use raw_os.Heap.Taken.{carved, take_hole-Closes}

back_12 : (x : ℕ) → x + 12 - 12 ≡ x
back_12 x = omega arith

unaligned : (x : ℕ) → get_aligned_address x 0 ≡ x
unfolding get_aligned_address
unaligned x = ground arith

not_below : (x : ℕ) → (ltb x x ≡ false) × (leb x x ≡ true)
not_below x = ground arith

-- A hole of at least `size` bytes is found at its place, and nothing is to be aligned.
pub alloc_in-Closes :
    (junk : Bool) (heap : KallocHeap) (left : List Block) (n : ℕ) (right : List Block) (size : ℕ)
    → IsHeap heap (rebuild left (record { size = n; used = false } ∷ right))
    → size ≤ n
    → (avl : Avl) × (m : Memory) × (alloc_in junk heap size 0 (place heap.initial_addr left + 12)
        ≡ ok (place heap.initial_addr left + 12, record heap { avl = avl; memory = m }))
      × IsHeap (record heap { avl = avl; memory = m }) (rebuild left (carved n size right))
      × Framed heap.memory m
          (place heap.initial_addr left)
          (place heap.initial_addr left + 12 + n + 8)
unfolding alloc_in
alloc_in-Closes junk heap left n right size v fits =
    let a = heap.initial_addr in
    let h = place a left in
    let hole : Block = record { size = n; used = false } in
    let parts = Layout-split heap.memory a left (hole ∷ right) (a + heap.size) v.layout in
    let r = remove_hole-IsOpened junk heap left n right v in
    let t = take_hole-Closes (record heap { avl = r.0 }) left n right size r.2 r.3 fits in
    (
      t.0,
      t.1,
      rw (back_12 h, parts.1.0.used, parts.1.0.size, unaligned (h + 12), alloc_in)
          (rw r.1 (rw ((not_below (h + 12)).0, (not_below (h + 12)).1, back_12 h) (rw t.2 refl))),
      t.3,
      t.4,
    )
