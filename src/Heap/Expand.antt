-- ===== src/Heap/Expand.antt =====
-- expand (in kalloc_heap_alloc, alloc/kalloc_heap.c): the heap grows by one page.
use raw_os.Common.{
  ℕ, ◌+◌, ◌-◌, ◌/◌, ◌^◌, ◌≤◌, ◌<◌, ◌≡◌, refl, sym, ap, ◌∙◌, ◌⊎◌, inl, inr, Bool, true, false, List,
  [], ◌∷◌, if◌then◌else◌, Outcome, ok, Returns, Returns-ok, arith,
}
use raw_os.Heap.{Memory, KallocHeap, header_at, set_size}
use raw_os.Heap.Layout.{Block, flag, place, Before, Layout, rebuild, Layout-split}
use raw_os.Heap.Tracks.{Tracks, Tracks-imp}
use raw_os.Heap.Opened.{IsAround, left_holes, hole-Has, holes-split, holes-join, IsHeap}
use raw_os.Heap.Holes.{HasNode, insert_hole-IsHeap, remove_hole-Tracks, drop_left-Tracks}
use raw_os.Heap.Alloc.{expand}
use raw_os.Heap.Page.{hole_in_page, footer_moved, page_hole-Focus, wider_hole-Focus}

-- The blocks, the last one first, after one more page.
abbrev pub grown : List Block → List Block
grown [] = []
grown (b ∷ left) =
    if b.used
    then record { size = 4076; used = false } ∷ b ∷ left
    else record { size = b.size + 4096; used = false } ∷ left

-- The call that maps the page behind the heap returns, and the blocks' headers and footers are still
-- there; the bytes between them may have changed.
abbrev pub Maps : (ℕ → Memory → Outcome Memory) → KallocHeap → List Block → Type 0
Maps create_page heap bs =
    Returns (create_page ((heap.initial_addr + heap.size) / 4096) heap.memory)
      (λ m. Layout m heap.initial_addr bs (heap.initial_addr + heap.size))

-- The heap has grown by a page and has the blocks `bs`.
abbrev pub IsGrown : KallocHeap → List Block → KallocHeap → Type 0
IsGrown heap bs heap' =
    IsHeap heap' bs × (heap'.initial_addr ≡ heap.initial_addr) × (heap'.size ≡ heap.size + 4096)

back_8 : (x : ℕ) → x + 8 - 8 ≡ x
back_8 x = omega arith

minus_plus : (x : ℕ) → 8 ≤ x → x - 8 + 8 ≡ x
minus_plus x le = omega (arith, le)

footer_at : (h : ℕ) → h + 4096 - 8 ≡ h + 12 + 4076
footer_at h = omega arith

true_or_false : true ≡ false → ⊥
true_or_false e = ground (arith, e)

new_end : (h a size : ℕ) → h ≡ a + size → h + 4096 ≡ a + (size + 4096)
new_end h a size e = omega (arith, e)

wider_end :
    (h n a size : ℕ) → h + 12 + n + 8 ≡ a + size → a + (size + 4096) - 8 ≡ h + 12 + (n + 4096)
wider_end h n a size e = omega (arith, e)

module _ (create_page : ℕ → Memory → Outcome Memory) (junk : Bool) (heap : KallocHeap) (b : Block)
    (left : List Block) (v : IsHeap heap (rebuild (b ∷ left) []))
    (bound : heap.initial_addr + heap.size + 4096 < 2 ^ 32) where
  -- The blocks are still there when the page is mapped.
  blocks_kept :
      (m : Memory)
      → Layout m heap.initial_addr (rebuild (b ∷ left) []) (heap.initial_addr + heap.size)
      → Before m heap.initial_addr (b ∷ left)
        × (place heap.initial_addr (b ∷ left) ≡ heap.initial_addr + heap.size)
        × (header_at m (heap.initial_addr + heap.size - 8) ≡ place heap.initial_addr left)
  blocks_kept m same =
      let a = heap.initial_addr in
      let parts = Layout-split m a (b ∷ left) [] (a + heap.size) same in
      (
        parts.0,
        parts.1,
        rw (← parts.1) (ap (header_at m) (back_8 (place a left + 12 + b.size)) ∙ parts.0.0.footer),
      )

  around :
      Tracks heap.avl
        (IsAround heap.initial_addr (b ∷ left) (place heap.initial_addr (b ∷ left)) [])
  around =
      Tracks-imp heap.avl _ _ (λ k. holes-split heap.initial_addr (b ∷ left) [] k)
        (λ k. holes-join heap.initial_addr (b ∷ left) [] k) v.tracks

  expand-used :
      b.used ≡ true
      → HasNode heap.avl
      → (m : Memory) → create_page ((heap.initial_addr + heap.size) / 4096) heap.memory ≡ ok m
      → Layout m heap.initial_addr (rebuild (b ∷ left) []) (heap.initial_addr + heap.size)
      → Returns
          (expand create_page junk heap)
          (IsGrown heap (rebuild (record { size = 4076; used = false } ∷ b ∷ left) []))
  unfolding expand
  expand-used used node m created same =
      let a = heap.initial_addr in
      let h = place a (b ∷ left) in
      let k = blocks_kept m same in
      let p = page_hole-Focus m a (b ∷ left) k.0 (omega (arith, k.1, bound)) in
      let heap1 : KallocHeap = record heap {
        size = heap.size + 4096;
        memory = hole_in_page m h (h + 12 + 4076);
      } in
      let t =
        insert_hole-IsHeap heap1 (b ∷ left) 4076 []
          (record {
            focus = rw (← new_end h a heap.size k.1) p.0;
            tracks = around;
            bound = omega (arith, bound);
          })
          node p.1 in
      let e : expand create_page junk heap ≡ ok (record heap1 { avl = t.0 }) =
        rw (created, expand)
          (rw (k.2, k.0.0.used ∙ ap flag used)
            (rw (minus_plus (a + heap.size) (omega (arith, k.1)) ∙ sym k.1, footer_at h)
              (rw (p.0.size) t.1))) in
      rw e (t.2, refl, refl)

  expand-hole :
      b.used ≡ false
      → (m : Memory) → create_page ((heap.initial_addr + heap.size) / 4096) heap.memory ≡ ok m
      → Layout m heap.initial_addr (rebuild (b ∷ left) []) (heap.initial_addr + heap.size)
      → Returns
          (expand create_page junk heap)
          (IsGrown heap (rebuild (record { size = b.size + 4096; used = false } ∷ left) []))
  unfolding expand
  expand-hole used m created same =
      let a = heap.initial_addr in
      let h = place a left in
      let n = b.size + 4096 in
      let k = blocks_kept m same in
      let p = wider_hole-Focus m a b left k.0 (omega (arith, k.1, bound)) in
      let m1 = footer_moved m h (h + 12 + n) in
      let heap1 : KallocHeap = record heap { size = heap.size + 4096; memory = m1 } in
      let r =
        remove_hole-Tracks heap1 _ around junk h b.size
          (inl (hole-Has h b (left_holes a left) used)) in
      let heap2 : KallocHeap = record heap1 { avl = r.0; memory = set_size m1 h n } in
      let t =
        insert_hole-IsHeap heap2 left n []
          (record {
            focus = rw (← new_end (place a (b ∷ left)) a heap.size k.1) p.1;
            tracks =
                drop_left-Tracks a left b [] (place a (b ∷ left)) (place a (b ∷ left)) (r.0)
                  (omega arith) refl r.2;
            bound = omega (arith, bound);
          })
          r.3 (p.2 ∙ ap flag used) in
      let e : expand create_page junk heap ≡ ok (record heap2 { avl = t.0 }) =
        rw (created, expand)
          (rw (k.2, k.0.0.used ∙ ap flag used)
            (rw (wider_end h b.size a heap.size k.1) (rw (p.0) (rw r.1 (rw (p.1.size) t.1))))) in
      rw e (t.2, refl, refl)

  -- The last block is a hole, or a node of the tree is left for one behind it.
  pub expand-IsGrown :
      (b.used ≡ false) ⊎ HasNode heap.avl
      → Maps create_page heap (rebuild (b ∷ left) [])
      → Returns (expand create_page junk heap) (IsGrown heap (rebuild (grown (b ∷ left)) []))
  expand-IsGrown room maps =
      let c =
        Returns-ok (create_page ((heap.initial_addr + heap.size) / 4096) heap.memory) _ maps in
      by_use (b.used) refl room (c.0) c.1 c.2
    where
      by_use :
          (u : Bool)
          → b.used ≡ u
          → (b.used ≡ false) ⊎ HasNode heap.avl
          → (m : Memory) → create_page ((heap.initial_addr + heap.size) / 4096) heap.memory ≡ ok m
          → Layout m heap.initial_addr (rebuild (b ∷ left) []) (heap.initial_addr + heap.size)
          → let bs : List Block =
              if u
              then record { size = 4076; used = false } ∷ b ∷ left
              else record { size = b.size + 4096; used = false } ∷ left in
            Returns (expand create_page junk heap) (IsGrown heap (rebuild bs []))
      by_use true used (inl hole) m created same = absurd (true_or_false (sym used ∙ hole))
      by_use true used (inr node) m created same = expand-used used node m created same
      by_use false used room m created same = expand-hole used m created same
