-- ===== src/Heap/MergeNext.antt =====
-- merge_next, the second part of kalloc_heap_free (alloc/kalloc_heap.c).
use raw_os.Common.{
  ℕ, ◌+◌, ◌-◌, ◌≤◌, ◌≡◌, refl, sym, inr, Bool, true, false, List, [], ◌∷◌, if◌then◌else◌, ◌==◌,
  Outcome, ok, arith,
}
use raw_os.Avl.{Avl}
use raw_os.Heap.{Memory, KallocHeap, set_size, set_header, remove_hole, merge_next}
use raw_os.Heap.Memory.{Framed, Framed-refl, Framed-wider, resized-Framed}
use raw_os.Heap.Layout.{Block, place, Layout-le}
use raw_os.Heap.Focus.{Focus-written}
use raw_os.Heap.Opened.{right_holes, IsOpened, hole-Has}
use raw_os.Heap.Holes.{HasNode, drop_right-Tracks, remove_hole-Tracks}
use raw_os.Heap.Merge.{absorb_right}

-- What the merge leaves; the block keeps its header.
abbrev pub MergesNext : KallocHeap → Outcome KallocHeap → List Block → ℕ → List Block → Type 0
MergesNext heap result left n right =
    (avl : Avl) × (m : Memory) × (result ≡ ok (record heap { avl = avl; memory = m }))
    × IsOpened (record heap { avl = avl; memory = m }) left n right
    × HasNode avl
    × Framed heap.memory m (place heap.initial_addr left)
        (place heap.initial_addr left + 12 + n + 8)

last_footer : (f e : ℕ) → f + 8 ≡ e → (f == e - 8) ≡ true
last_footer f e eq = ground (arith, eq)

inner_footer : (f e s : ℕ) → f + 8 + 12 + s + 8 ≤ e → (f == e - 8) ≡ false
inner_footer f e s le = ground (arith, le)

ends_next : (h n s : ℕ) → h + 12 + n + 8 + 12 + s ≡ h + 12 + (n + (s + 20))
ends_next h n s = omega arith

module _ (junk : Bool) (heap : KallocHeap) (left : List Block) (n : ℕ) (b : Block)
    (right : List Block) (o : IsOpened heap left n (b ∷ right)) where
  not_last : (place heap.initial_addr left + 12 + n == heap.initial_addr + heap.size - 8) ≡ false
  not_last =
      inner_footer (place heap.initial_addr left + 12 + n) (heap.initial_addr + heap.size) b.size
        (Layout-le heap.memory _ right (heap.initial_addr + heap.size) o.focus.after.1)

  merge_next-used :
      b.used ≡ true
      → merge_next junk heap (place heap.initial_addr left) (place heap.initial_addr left + 12 + n)
        ≡ ok heap
  unfolding merge_next
  merge_next-used used = rw (not_last, merge_next) (rw (o.focus.after.0.used, used) refl)

  merge_next_removing :
      (avl : Avl)
      → b.used ≡ false
      → remove_hole junk heap (place heap.initial_addr left + 12 + n + 8) b.size
        ≡ ok (record heap { avl = avl })
      → merge_next junk heap (place heap.initial_addr left) (place heap.initial_addr left + 12 + n)
        ≡ ok (record heap {
          avl = avl;
          memory =
              set_header
                (set_size heap.memory (place heap.initial_addr left) (n + (b.size + 20)))
                (place heap.initial_addr left + 12 + n + 8 + 12 + b.size)
                (place heap.initial_addr left);
        })
  unfolding merge_next
  merge_next_removing avl used removed =
      rw (not_last, merge_next)
        (rw (o.focus.after.0.used, used, o.focus.after.0.size, removed, o.focus.size) refl)

  merge_next-hole :
      b.used ≡ false
      → MergesNext heap
          (merge_next junk heap
            (place heap.initial_addr left)
            (place heap.initial_addr left + 12 + n))
          left
          (n + (b.size + 20))
          right
  merge_next-hole used =
      let a = heap.initial_addr in
      let h = place a left in
      let e = h + 12 + n + 8 in
      let r =
        remove_hole-Tracks heap _ o.tracks junk e b.size
          (inr (hole-Has e b (right_holes (e + 12 + b.size + 8) right) used)) in
      (
        r.0,
        set_header (set_size heap.memory h (n + (b.size + 20))) (e + 12 + b.size) h,
        merge_next_removing (r.0) used r.1,
        record {
          focus = rw (ends_next h n b.size) (
              Focus-written heap.memory a left (n + (b.size + 20)) right (a + heap.size)
                o.focus.before (rw (sym (ends_next h n b.size)) o.focus.after.1) o.bound);
          tracks =
              drop_right-Tracks a left b right e (h + 12 + (n + (b.size + 20)) + 8) (r.0)
                (omega arith) (omega arith) r.2;
          bound = o.bound;
        },
        r.3,
        Framed-wider heap.memory _ h (e + 12 + b.size + 8) h (h + 12 + (n + (b.size + 20)) + 8)
            (omega arith) (omega arith)
            (resized-Framed heap.memory h (n + (b.size + 20)) (e + 12 + b.size) (omega arith)),
      )

pub merge_next-MergesNext :
    (junk : Bool) (heap : KallocHeap) (left : List Block) (n : ℕ) (right : List Block)
    → IsOpened heap left n right
    → HasNode heap.avl
    → MergesNext heap
        (merge_next junk heap
          (place heap.initial_addr left)
          (place heap.initial_addr left + 12 + n))
        left
        (absorb_right n right).0
        (absorb_right n right).1
unfolding merge_next
merge_next-MergesNext junk heap left n [] o node = (
  heap.avl,
  heap.memory,
  rw
      (
        last_footer (place heap.initial_addr left + 12 + n) (heap.initial_addr + heap.size)
            o.focus.after,
        merge_next,
      )
      refl,
  o,
  node,
  Framed-refl heap.memory (place heap.initial_addr left) _,
)
merge_next-MergesNext junk heap left n (b ∷ right) o node = by_use (b.used) refl
  where
    by_use :
        (u : Bool)
        → b.used ≡ u
        → let r : ℕ × List Block = if u then (n, b ∷ right) else (n + (b.size + 20), right) in
          MergesNext heap
            (merge_next junk heap
              (place heap.initial_addr left)
              (place heap.initial_addr left + 12 + n))
            left
            (r.0)
            (r.1)
    by_use true used = (
      heap.avl,
      heap.memory,
      merge_next-used junk heap left n b right o used,
      o,
      node,
      Framed-refl heap.memory (place heap.initial_addr left) _,
    )
    by_use false used = merge_next-hole junk heap left n b right o used
