-- ===== src/Heap/Merge.antt =====
-- merge_previous, the first part of kalloc_heap_free (alloc/kalloc_heap.c).
use raw_os.Common.{
  ℕ, ◌+◌, ◌-◌, ◌≡◌, refl, sym, ap, ◌∙◌, inl, Bool, true, false, List, [], ◌∷◌, if◌then◌else◌, ◌==◌,
  ==_iff, Outcome, ok, arith,
}
use raw_os.Avl.{Avl}
use raw_os.Heap.{Memory, KallocHeap, header_at, set_size, set_header, remove_hole, merge_previous}
use raw_os.Heap.Memory.{Framed, Framed-refl, resized-Framed}
use raw_os.Heap.Layout.{Block, place, place-le}
use raw_os.Heap.Focus.{Focus-written}
use raw_os.Heap.Opened.{left_holes, IsOpened, hole-Has}
use raw_os.Heap.Holes.{HasNode, drop_left-Tracks, remove_hole-Tracks}

-- The block of `n` bytes takes in a hole before it, and one behind it.
abbrev pub absorb_left : List Block → ℕ → List Block × ℕ
absorb_left [] n = ([], n)
absorb_left (b ∷ left) n = if b.used then (b ∷ left, n) else (left, b.size + n + 20)

abbrev pub absorb_right : ℕ → List Block → ℕ × List Block
absorb_right n [] = (n, [])
absorb_right n (b ∷ right) = if b.used then (n, b ∷ right) else (n + (b.size + 20), right)

-- What a merge leaves: only the tree and the memory change, and the block ends where it ended.
abbrev pub Merges : KallocHeap → Outcome (KallocHeap × ℕ) → ℕ → List Block → ℕ → List Block → Type 0
Merges heap result f left n right =
    (avl : Avl) × (m : Memory) × (result
      ≡ ok (record heap { avl = avl; memory = m }, place heap.initial_addr left))
    × IsOpened (record heap { avl = avl; memory = m }) left n right
    × HasNode avl
    × (place heap.initial_addr left + 12 + n ≡ f)
    × Framed heap.memory m (place heap.initial_addr left) (f + 8)

back_8 : (x : ℕ) → x + 8 - 8 ≡ x
back_8 x = omega arith

ends : (p s n : ℕ) → p + 12 + s + 8 + 12 + n ≡ p + 12 + (s + n + 20)
ends p s n = omega arith

module _ (junk : Bool) (heap : KallocHeap) where
  -- The header that the footer before the block points to.
  previous :
      (b : Block) (left : List Block) (n : ℕ) (right : List Block)
      → IsOpened heap (b ∷ left) n right
      → header_at heap.memory (place heap.initial_addr (b ∷ left) - 8)
        ≡ place heap.initial_addr left
  previous b left n right o =
      ap (header_at heap.memory) (back_8 (place heap.initial_addr left + 12 + b.size))
      ∙ o.focus.before.0.footer

  not_first :
      (b : Block) (left : List Block)
      → (place heap.initial_addr (b ∷ left) == heap.initial_addr) ≡ false
  not_first b left = ground (arith, place-le heap.initial_addr left)

  merge_previous-used :
      (b : Block) (left : List Block) (n : ℕ) (right : List Block)
      → IsOpened heap (b ∷ left) n right
      → b.used ≡ true
      → merge_previous junk heap
          (place heap.initial_addr (b ∷ left))
          (place heap.initial_addr (b ∷ left) + 12 + n)
        ≡ ok (heap, place heap.initial_addr (b ∷ left))
  unfolding merge_previous
  merge_previous-used b left n right o used =
      rw (not_first b left, merge_previous)
        (rw (previous b left n right o, o.focus.before.0.used, used) refl)

  merge_previous_removing :
      (b : Block) (left : List Block) (n : ℕ) (right : List Block) (avl : Avl)
      → IsOpened heap (b ∷ left) n right
      → b.used ≡ false
      → remove_hole junk heap (place heap.initial_addr left) b.size ≡ ok (record heap { avl = avl })
      → merge_previous junk heap
          (place heap.initial_addr (b ∷ left))
          (place heap.initial_addr (b ∷ left) + 12 + n)
        ≡ ok (
          record heap {
            avl = avl;
            memory =
                set_header
                  (set_size heap.memory (place heap.initial_addr left) (b.size + n + 20))
                  (place heap.initial_addr (b ∷ left) + 12 + n)
                  (place heap.initial_addr left);
          },
          place heap.initial_addr left,
        )
  unfolding merge_previous
  merge_previous_removing b left n right avl o used removed =
      rw (not_first b left, merge_previous)
        (rw
          (
            previous b left n right o,
            o.focus.before.0.used,
            used,
            o.focus.before.0.size,
            removed,
            o.focus.size,
          )
          refl)

  merge_previous-hole :
      (b : Block) (left : List Block) (n : ℕ) (right : List Block)
      → IsOpened heap (b ∷ left) n right
      → HasNode heap.avl
      → b.used ≡ false
      → Merges heap
          (merge_previous junk heap
            (place heap.initial_addr (b ∷ left))
            (place heap.initial_addr (b ∷ left) + 12 + n))
          (place heap.initial_addr (b ∷ left) + 12 + n)
          left
          (b.size + n + 20)
          right
  unfolding merge_previous
  merge_previous-hole b left n right o node used =
      let a = heap.initial_addr in
      let p = place a left in
      let h = place a (b ∷ left) in
      let i = o.focus.before.0 in
      let r =
        remove_hole-Tracks heap _ o.tracks junk p b.size
          (inl (hole-Has p b (left_holes a left) used)) in
      (
        r.0,
        set_header (set_size heap.memory p (b.size + n + 20)) (h + 12 + n) p,
        merge_previous_removing b left n right (r.0) o used r.1,
        record {
          focus = rw (ends p b.size n) (
              Focus-written heap.memory a left (b.size + n + 20) right (a + heap.size)
                o.focus.before.1 (rw (sym (ends p b.size n)) o.focus.after) o.bound);
          tracks =
              drop_left-Tracks a left b right (h + 12 + n + 8) (p + 12 + (b.size + n + 20) + 8)
                (r.0) (omega arith) (omega arith) r.2;
          bound = o.bound;
        },
        r.3,
        omega arith,
        resized-Framed heap.memory p (b.size + n + 20) (h + 12 + n) (omega arith),
      )

  pub merge_previous-Merges :
      (left : List Block) (n : ℕ) (right : List Block)
      → IsOpened heap left n right
      → HasNode heap.avl
      → Merges heap
          (merge_previous junk heap
            (place heap.initial_addr left)
            (place heap.initial_addr left + 12 + n))
          (place heap.initial_addr left + 12 + n)
          (absorb_left left n).0
          (absorb_left left n).1
          right
  unfolding merge_previous
  merge_previous-Merges [] n right o node = (
    heap.avl,
    heap.memory,
    rw ((==_iff heap.initial_addr heap.initial_addr).1 refl, merge_previous) refl,
    o,
    node,
    refl,
    Framed-refl heap.memory (place heap.initial_addr []) _,
  )
  merge_previous-Merges (b ∷ left) n right o node = by_use (b.used) refl
    where
      by_use :
          (u : Bool)
          → b.used ≡ u
          → let l : List Block × ℕ = if u then (b ∷ left, n) else (left, b.size + n + 20) in
            Merges heap
              (merge_previous junk heap
                (place heap.initial_addr (b ∷ left))
                (place heap.initial_addr (b ∷ left) + 12 + n))
              (place heap.initial_addr (b ∷ left) + 12 + n)
              (l.0)
              (l.1)
              right
      by_use true used = (
        heap.avl,
        heap.memory,
        merge_previous-used b left n right o used,
        o,
        node,
        refl,
        Framed-refl heap.memory (place heap.initial_addr (b ∷ left)) _,
      )
      by_use false used = merge_previous-hole b left n right o node used
