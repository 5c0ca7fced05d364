-- ===== src/Heap/Keeps.antt =====
-- What kalloc_heap_alloc (alloc/kalloc_heap.c) leaves alone.
use raw_os.Common.{
  ℕ, suc, ◌+◌, ◌≤◌, ◌<◌, ◌≡◌, ◌≢◌, refl, sym, ap, ◌∙◌, ◌⊎◌, inl, inr, Bool, true, false, List, [],
  ◌∷◌, Outcome, Returns, Returns-imp, arith,
}
use raw_os.Avl.{Hole}
use raw_os.Avl.Sorted.{Has}
use raw_os.Heap.{Memory, KallocHeap}
use raw_os.Heap.Layout.{Block, place, rebuild}
use raw_os.Heap.Opened.{right_holes, IsHeap}
use raw_os.Heap.Alloc.{kalloc_heap_alloc}
use raw_os.Heap.Reuse.{kalloc_heap_alloc-IsAllocatedIn}

-- Of the blocks from `a` on, `b` is one, at `h`.
abbrev IsAt : ℕ → List Block → ℕ → Block → Type 0
IsAt a [] h b = ⊥
IsAt a (c ∷ bs) h b = ((h ≡ a) × (b ≡ c)) ⊎ IsAt (a + 12 + c.size + 8) bs h b

IsAt-le : (a : ℕ) (bs : List Block) (h : ℕ) (b : Block) → IsAt a bs h b → a ≤ h
IsAt-le a [] h b p = absurd p
IsAt-le a (c ∷ bs) h b (inl here) = omega (arith, here.0)
IsAt-le a (c ∷ bs) h b (inr later) = omega (arith, IsAt-le (a + 12 + c.size + 8) bs h b later)

rebuild-IsAt :
    (a : ℕ) (left right : List Block) (h : ℕ) (b : Block)
    → IsAt (place a left) right h b
    → IsAt a (rebuild left right) h b
rebuild-IsAt a [] right h b p = p
rebuild-IsAt a (c ∷ left) right h b p = rebuild-IsAt a left (c ∷ right) h b (inr p)

-- Of two different blocks, one ends before the other starts.
apart :
    (a : ℕ) (bs : List Block) (h : ℕ) (b : Block) (k : ℕ) (c : Block)
    → IsAt a bs h b
    → IsAt a bs k c
    → b ≢ c
    → (h + 12 + b.size + 8 ≤ k) ⊎ (k + 12 + c.size + 8 ≤ h)
apart a [] h b k c p q ne = absurd p
apart a (d ∷ bs) h b k c (inl p) (inl q) ne = absurd (ne (p.1 ∙ sym q.1))
apart a (d ∷ bs) h b k c (inl p) (inr q) ne =
    inl (omega (arith, p.0, ap Block.size p.1, IsAt-le (a + 12 + d.size + 8) bs k c q))
apart a (d ∷ bs) h b k c (inr p) (inl q) ne =
    inr (omega (arith, q.0, ap Block.size q.1, IsAt-le (a + 12 + d.size + 8) bs h b p))
apart a (d ∷ bs) h b k c (inr p) (inr q) ne = apart (a + 12 + d.size + 8) bs h b k c p q ne

abbrev block_of : ℕ → Bool → Block
block_of n u = record { size = n; used = u }

used_is_not_hole : (n k : ℕ) → block_of n true ≢ block_of k false
used_is_not_hole n k e = ground (arith, ap Block.used e)

-- Where a hole of a well-formed heap is large enough, an allocation without alignment leaves every
-- byte of a used block alone, its header and its footer included.
pub kalloc_heap_alloc-keeps :
    (create_page : ℕ → Memory → Outcome Memory) (fuel : ℕ) (junk : Bool) (heap : KallocHeap)
    (left : List Block) (n : ℕ) (right : List Block) (size : ℕ) (k : Hole) (x : ℕ)
    → IsHeap heap (rebuild left (record { size = n; used = true } ∷ right))
    → Has k
        (right_holes heap.initial_addr (rebuild left (record { size = n; used = true } ∷ right)))
    → size ≤ k.size
    → place heap.initial_addr left ≤ x
    → x < place heap.initial_addr left + 12 + n + 8
    → Returns
        (kalloc_heap_alloc create_page (suc fuel) junk heap size 0)
        (λ r. (r.1).memory x ≡ heap.memory x)
kalloc_heap_alloc-keeps create_page fuel junk heap left n right size k x v has le from below =
    let a = heap.initial_addr in
    let block : Block = record { size = n; used = true } in
    Returns-imp (kalloc_heap_alloc create_page (suc fuel) junk heap size 0) _ _
      (kalloc_heap_alloc-IsAllocatedIn create_page fuel junk heap (rebuild left (block ∷ right))
        size k v has le)
      (λ r i.
        let l = i.allocated in
        let hole : Block = record { size = l.n; used = false } in
        let at_hole : IsAt a (rebuild left (block ∷ right)) (place a l.left) hole =
          rw l.found
            (rebuild-IsAt a l.left (hole ∷ l.right) (place a l.left) hole (inl (refl, refl))) in
        let at_block =
          rebuild-IsAt a left (block ∷ right) (place a left) block (inl (refl, refl)) in
        i.kept x
          (elim (apart a (rebuild left (block ∷ right)) (place a left) block (place a l.left) hole
            at_block at_hole (used_is_not_hole n l.n)) [
              | inl before ↦ inl (omega (arith, before, below))
              | inr after ↦ inr (omega (arith, after, from))
            ]))
