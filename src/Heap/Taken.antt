-- ===== src/Heap/Taken.antt =====
-- take_hole (in kalloc_heap_alloc, alloc/kalloc_heap.c), at the place where the hole starts.
use raw_os.Common.{
  ℕ, ◌+◌, ◌-◌, ◌%◌, ◌^◌, ◌≤◌, ◌<◌, ◌≡◌, refl, sym, Bool, true, false, List, ◌∷◌, if◌then◌else◌, ltb,
  Outcome, ok, arith,
}
use raw_os.Avl.{Avl}
use raw_os.Heap.{Memory, KallocHeap, set_size, set_used, set_header_magic}
use raw_os.Heap.Memory.{Framed, Framed-refl, Framed-trans, inside32, inside16, read_back}
use raw_os.Heap.Layout.{Block, place, rebuild, Layout-le}
use raw_os.Heap.Focus.{Focus-header, Focus-used, Focus-Layout}
use raw_os.Heap.Tracks.{Tracks-imp}
use raw_os.Heap.Opened.{holes-split, holes-join, IsHeap, IsOpened}
use raw_os.Heap.Holes.{HasNode, insert_hole-IsHeap}
use raw_os.Heap.Alloc.{sub_u32, split_hole, take_hole}
use raw_os.Heap.Carve.{block_written, hole_written, carved_end, carve-Focus}

-- A hole of `n` bytes before `right`, after `size` bytes of it have been given out.
abbrev pub carved : ℕ → ℕ → List Block → List Block
carved n size right =
    if ltb (size + 20) n
    then record { size = size; used = true } ∷ record { size = n - size - 20; used = false } ∷ right
    else record { size = n; used = true } ∷ right

-- Only the tree and the memory between `h` and the end of `n` bytes behind it change, and the heap
-- is well formed again.
abbrev pub Closes : KallocHeap → Outcome KallocHeap → List Block → ℕ → ℕ → Type 0
Closes heap result bs h n =
    (avl : Avl) × (m : Memory) × (result ≡ ok (record heap { avl = avl; memory = m }))
    × IsHeap (record heap { avl = avl; memory = m }) bs
    × Framed heap.memory m h (h + 12 + n + 8)

header_written-Framed :
    (m : Memory) (h n : ℕ)
    → Framed m (set_size (set_used (set_header_magic m h) h 0) h n) h (h + 12 + n + 8)
header_written-Framed m h n =
    let m1 = set_header_magic m h in
    let m2 = set_used m1 h 0 in
    inside32 m m2 h (h + 12 + n + 8) (h + 4) n (omega arith) (omega arith) (
      inside32 m m1 h (h + 12 + n + 8) (h + 8) 0 (omega arith) (omega arith) (
        inside16 m m h (h + 12 + n + 8) h 0xABCD (omega arith) (omega arith)
          (Framed-refl m h (h + 12 + n + 8))))

header_written-IsOpened :
    (heap : KallocHeap) (left : List Block) (n : ℕ) (right : List Block)
    → IsOpened heap left n right
    → let h = place heap.initial_addr left in
      IsOpened
        (record heap { memory = set_size (set_used (set_header_magic heap.memory h) h 0) h n })
        left
        n
        right
header_written-IsOpened heap left n right o = record {
  focus =
      Focus-header heap.memory heap.initial_addr left n right (heap.initial_addr + heap.size)
        o.focus.before o.focus.footer o.focus.after o.bound;
  tracks = o.tracks;
  bound = o.bound;
}

-- The whole hole is given out.
whole_used-IsHeap :
    (heap : KallocHeap) (left : List Block) (n : ℕ) (right : List Block)
    → IsOpened heap left n right
    → IsHeap
        (record heap { memory = set_used heap.memory (place heap.initial_addr left) 1 })
        (rebuild left (record { size = n; used = true } ∷ right))
whole_used-IsHeap heap left n right o =
    let a = heap.initial_addr in
    let block : Block = record { size = n; used = true } in
    record {
      layout =
          Focus-Layout (set_used heap.memory (place a left) 1) a left n right (a + heap.size) true
            (Focus-used heap.memory a left n right (a + heap.size) 1 o.focus)
            (read_back heap.memory (place a left + 8) 1 (omega arith));
      tracks =
          Tracks-imp heap.avl _ _ (λ k. holes-join a left (block ∷ right) k)
            (λ k. holes-split a left (block ∷ right) k) o.tracks;
      bound = o.bound;
    }

rest_size : (n size rest : ℕ) → n ≡ size + 20 + rest → n < 2 ^ 32 → sub_u32 n (size + 12 + 8) ≡ rest
unfolding sub_u32
rest_size n size rest total lt = omega (arith, total, lt)

-- A block and a hole in the place of the hole.
split_hole-Closes :
    (heap : KallocHeap) (left : List Block) (n : ℕ) (right : List Block) (size rest : ℕ)
    → IsOpened heap left n right
    → HasNode heap.avl
    → n ≡ size + 20 + rest
    → Closes heap
        (split_hole heap (place heap.initial_addr left) n size)
        (rebuild left
          (record { size = size; used = true } ∷ record { size = rest; used = false } ∷ right))
        (place heap.initial_addr left)
        n
unfolding split_hole
split_hole-Closes heap left n right size rest o node total =
    let a = heap.initial_addr in
    let h = place a left in
    let k = h + 12 + size + 8 in
    let le = Layout-le heap.memory (h + 12 + n + 8) right (a + heap.size) o.focus.after in
    let block : Block = record { size = size; used = true } in
    let c =
      carve-Focus heap.memory a left n right (a + heap.size) size rest total o.focus o.bound in
    let m = hole_written (block_written heap.memory h size) k rest (h + 12 + n) in
    let r =
      insert_hole-IsHeap (record heap { memory = m }) (block ∷ left) rest right
        (record {
          focus = c.0;
          tracks = rw (sym (carved_end h n size rest total)) o.tracks;
          bound = o.bound;
        })
        node c.1 in
    (
      r.0,
      m,
      rw (o.focus.size, rest_size n size rest total (omega (arith, le, o.bound)), split_hole)
          (rw (c.0.size) r.1),
      r.2,
      c.2,
    )

no_wrap : (size n : ℕ) → size ≤ n → n + 20 < 2 ^ 32 → (size + 12 + 8) % 2 ^ 32 ≡ size + 20
no_wrap size n le lt = omega (arith, le, lt)

split_total : (size n : ℕ) → ltb (size + 20) n ≡ true → n ≡ size + 20 + (n - size - 20)
split_total size n lt = ground (arith, lt)

pub take_hole-Closes :
    (heap : KallocHeap) (left : List Block) (n : ℕ) (right : List Block) (size : ℕ)
    → IsOpened heap left n right
    → HasNode heap.avl
    → size ≤ n
    → Closes heap
        (take_hole heap (place heap.initial_addr left) n size)
        (rebuild left (carved n size right))
        (place heap.initial_addr left)
        n
unfolding take_hole
take_hole-Closes heap left n right size o node fits =
    let a = heap.initial_addr in
    let h = place a left in
    let le = Layout-le heap.memory (h + 12 + n + 8) right (a + heap.size) o.focus.after in
    let w = header_written-IsOpened heap left n right o in
    let m = set_size (set_used (set_header_magic heap.memory h) h 0) h n in
    let heap1 : KallocHeap = record heap { memory = m } in
    let c = by_room (ltb (size + 20) n) refl in
    rw (no_wrap size n fits (omega (arith, le, o.bound)), take_hole)
      (rw (w.focus.size) (
        c.0,
        c.1,
        c.2,
        c.3,
        Framed-trans heap.memory m c.1 h (h + 12 + n + 8) (header_written-Framed heap.memory h n)
            c.4,
      ))
  where
    by_room :
        (room : Bool)
        → ltb (size + 20) n ≡ room
        → let a = heap.initial_addr in
          let h = place a left in
          let m = set_size (set_used (set_header_magic heap.memory h) h 0) h n in
          let heap1 : KallocHeap = record heap { memory = m } in
          Closes heap1
            (if room
              then split_hole heap1 h n size
              else ok (record heap1 { memory = set_used m h 1 }))
            (rebuild left (
              if room
              then record { size = size; used = true }
                ∷ record { size = n - size - 20; used = false }
                ∷ right
              else record { size = n; used = true } ∷ right))
            h
            n
    by_room true lt =
        let a = heap.initial_addr in
        let h = place a left in
        let m = set_size (set_used (set_header_magic heap.memory h) h 0) h n in
        split_hole-Closes (record heap { memory = m }) left n right size (n - size - 20)
          (header_written-IsOpened heap left n right o) node (split_total size n lt)
    by_room false lt =
        let a = heap.initial_addr in
        let h = place a left in
        let m = set_size (set_used (set_header_magic heap.memory h) h 0) h n in
        (
          heap.avl,
          set_used m h 1,
          refl,
          whole_used-IsHeap (record heap { memory = m }) left n right
              (header_written-IsOpened heap left n right o),
          inside32 m m h (h + 12 + n + 8) (h + 8) 1 (omega arith) (omega arith)
              (Framed-refl m h (h + 12 + n + 8)),
        )
