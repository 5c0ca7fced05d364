-- ===== src/Heap/Free.antt =====
-- kalloc_heap_free (alloc/kalloc_heap.c): the block becomes a hole, together with the holes before
-- and behind it.
use raw_os.Common.{
  ℕ, ◌+◌, ◌-◌, ◌≤◌, ◌<◌, ◌≡◌, refl, sym, ◌⊎◌, Bool, true, false, List, [], ◌∷◌, if◌then◌else◌, ok,
  Returns, arith,
}
use raw_os.Avl.{Avl}
use raw_os.Heap.{Memory, KallocHeap, size_at, used_at, set_used, insert_hole, kalloc_heap_free}
use raw_os.Heap.Memory.{Framed, Framed-trans, Framed-wider, inside32, read_back}
use raw_os.Heap.Layout.{Block, place, rebuild, Layout-split}
use raw_os.Heap.Focus.{Focus-used}
use raw_os.Heap.Tracks.{Tracks-imp}
use raw_os.Heap.Opened.{IsHeap, IsOpened, holes-split, holes-join}
use raw_os.Heap.Holes.{HasNode, insert_hole-IsHeap}
use raw_os.Heap.MergeNext.{merge_next-MergesNext}
use raw_os.Heap.Merge.{absorb_left, absorb_right, merge_previous-Merges}

-- The blocks after the block of `n` bytes between `left` and `right` has been freed.
abbrev pub freed : List Block → ℕ → List Block → List Block
freed left n right =
    let l = absorb_left left n in
    let r = absorb_right (l.1) right in rebuild (l.0) (record { size = r.0; used = false } ∷ r.1)

-- A used block is not in the tree.
used-IsOpened :
    (heap : KallocHeap) (left : List Block) (n : ℕ) (right : List Block)
    → IsHeap heap (rebuild left (record { size = n; used = true } ∷ right))
    → IsOpened heap left n right × (used_at heap.memory (place heap.initial_addr left) ≡ 1)
used-IsOpened heap left n right v =
    let a = heap.initial_addr in
    let block : Block = record { size = n; used = true } in
    let parts = Layout-split heap.memory a left (block ∷ right) (a + heap.size) v.layout in
    (
      record {
        focus = record {
          before = parts.0;
          size = parts.1.0.size;
          footer = parts.1.0.footer;
          after = parts.1.1;
        };
        tracks =
            Tracks-imp heap.avl _ _ (λ k. holes-split a left (block ∷ right) k)
              (λ k. holes-join a left (block ∷ right) k) v.tracks;
        bound = v.bound;
      },
      parts.1.0.used,
    )

-- The last lines: the block is marked as a hole and goes into the tree.
close :
    (heap : KallocHeap) (left : List Block) (n : ℕ) (right : List Block)
    → IsOpened heap left n right
    → HasNode heap.avl
    → let h = place heap.initial_addr left in
      let m = set_used heap.memory h 0 in
      (avl : Avl) × (insert_hole (record heap { memory = m }) h (size_at m h)
        ≡ ok (record heap { avl = avl; memory = m }))
      × IsHeap
          (record heap { avl = avl; memory = m })
          (rebuild left (record { size = n; used = false } ∷ right))
close heap left n right o node =
    let a = heap.initial_addr in
    let f = Focus-used heap.memory a left n right (a + heap.size) 0 o.focus in
    let r =
      insert_hole-IsHeap (record heap { memory = set_used heap.memory (place a left) 0 }) left n
        right (record { focus = f; tracks = o.tracks; bound = o.bound }) node
        (read_back heap.memory (place a left + 8) 0 (omega arith)) in
    (r.0, rw f.size r.1, r.2)

back_12 : (x : ℕ) → x + 12 - 12 ≡ x
back_12 x = omega arith

absorb_right-le : (n : ℕ) (right : List Block) → n ≤ (absorb_right n right).0
absorb_right-le n [] = omega arith
absorb_right-le n (b ∷ right) =
    elim (b.used)
      as (λ u.
        let r : ℕ × List Block = if u then (n, b ∷ right) else (n + (b.size + 20), right) in
        n ≤ r.0) [ true ↦ omega arith | false ↦ omega arith ]

-- The run of the function: what it writes lies inside the new hole.
free_runs :
    (junk : Bool) (heap : KallocHeap) (left : List Block) (n : ℕ) (right : List Block)
    → IsHeap heap (rebuild left (record { size = n; used = true } ∷ right))
    → HasNode heap.avl
    → let l = absorb_left left n in
      let r = absorb_right (l.1) right in
      let h = place heap.initial_addr (l.0) in
      (avl : Avl) × (m : Memory) × (kalloc_heap_free junk heap (place heap.initial_addr left + 12)
        ≡ ok (record heap { avl = avl; memory = m }))
      × IsHeap (record heap { avl = avl; memory = m }) (freed left n right)
      × Framed heap.memory m h (h + 12 + r.0 + 8)
unfolding kalloc_heap_free
free_runs junk heap left n right v node =
    let a = heap.initial_addr in
    let o = used-IsOpened heap left n right v in
    let l = absorb_left left n in
    let h = place a (l.0) in
    let p = merge_previous-Merges junk heap left n right (o.0) node in
    let heap1 : KallocHeap = record heap { avl = p.0; memory = p.1 } in
    let q = merge_next-MergesNext junk heap1 (l.0) (l.1) right p.3 p.4 in
    let heap2 : KallocHeap = record heap { avl = q.0; memory = q.1 } in
    let r = absorb_right (l.1) right in
    let c = close heap2 (l.0) (r.0) (r.1) q.3 q.4 in
    let end = h + 12 + r.0 + 8 in
    (
      c.0,
      set_used q.1 h 0,
      rw (back_12 (place a left), o.1, kalloc_heap_free)
          (rw (o.0.focus.size, p.2) (rw (sym p.5) (rw (q.2) c.1))),
      c.2,
      inside32 heap.memory q.1 h end (h + 8) 0 (omega arith) (omega arith) (
          Framed-trans heap.memory p.1 q.1 h end
            (Framed-wider heap.memory p.1 h (place a left + 12 + n + 8) h end (omega arith)
              (omega (arith, p.5, absorb_right-le (l.1) right)) p.6)
            q.5),
    )

-- Freeing the used block between `left` and `right` of a well-formed heap, at the address behind its
-- header, returns if a node of the tree is left. The heap is well-formed again and where it was,
-- and the block and the holes right beside it are one hole.
pub kalloc_heap_free-refines :
    (junk : Bool) (heap : KallocHeap) (left : List Block) (n : ℕ) (right : List Block)
    → IsHeap heap (rebuild left (record { size = n; used = true } ∷ right))
    → HasNode heap.avl
    → Returns (kalloc_heap_free junk heap (place heap.initial_addr left + 12)) (λ heap'.
      IsHeap heap' (freed left n right)
      × (heap'.initial_addr ≡ heap.initial_addr)
      × (heap'.size ≡ heap.size))
kalloc_heap_free-refines junk heap left n right v node =
    let f = free_runs junk heap left n right v node in rw f.2 (f.3, refl, refl)

-- Freeing the used block between `left` and `right` of a well-formed heap leaves every byte alone
-- that does not lie in the new hole, its header or its footer; so the other used blocks keep their
-- bytes.
pub kalloc_heap_free-keeps :
    (junk : Bool) (heap : KallocHeap) (left : List Block) (n : ℕ) (right : List Block) (x : ℕ)
    → IsHeap heap (rebuild left (record { size = n; used = true } ∷ right))
    → HasNode heap.avl
    → let l = absorb_left left n in
      let r = absorb_right (l.1) right in
      let h = place heap.initial_addr (l.0) in
      (x < h) ⊎ (h + 12 + r.0 + 8 ≤ x)
      → Returns
          (kalloc_heap_free junk heap (place heap.initial_addr left + 12))
          (λ heap'. heap'.memory x ≡ heap.memory x)
kalloc_heap_free-keeps junk heap left n right x v node outside =
    let f = free_runs junk heap left n right v node in rw f.2 (f.4 x outside)
