-- ===== src/Heap/Create.antt =====
-- kalloc_heap_create (alloc/kalloc_heap.c): the first hole.
use raw_os.Common.{
  ℕ, zero, suc, ◌+◌, ◌-◌, ◌*◌, ◌/◌, ◌%◌, ◌^◌, ◌≤◌, ◌<◌, ◌≡◌, refl, ap, ◌∙◌, inl, inr, true, false,
  [], ◌∷◌, leb, Outcome, ok, Returns, arith,
}
use raw_os.Avl.{Avl, leaf, nodes_from, kalloc_avl_init}
use raw_os.Heap.{
  Memory, KallocHeap, size_at, used_at, set_size, set_used, set_header, set_header_magic,
  set_footer_magic, insert_hole,
}
use raw_os.Heap.Memory.{read_back, skip32, skip16}
use raw_os.Heap.Focus.{Focus}
use raw_os.Heap.Tracks.{Tracks}
use raw_os.Heap.Opened.{IsAround, IsHeap}
use raw_os.Heap.Holes.{HasNode, insert_hole-IsHeap}
use raw_os.Heap.Alloc.{create_pages, kalloc_heap_create}

abbrev first_hole : Memory → ℕ → ℕ → ℕ → Memory
first_hole m h size f =
    set_footer_magic (set_header (set_used (set_size (set_header_magic m h) h size) h 0) f h) f

first_hole-Focus :
    (m : Memory) (h n : ℕ)
    → h + 12 + n + 8 < 2 ^ 32
    → let m' = first_hole m h n (h + 12 + n) in
      Focus m' h [] n [] (h + 12 + n + 8) × (used_at m' h ≡ 0)
first_hole-Focus m h n bound =
    let f = h + 12 + n in
    let m1 = set_header_magic m h in
    let m2 = set_size m1 h n in
    let m3 = set_used m2 h 0 in
    let m4 = set_header m3 f h in
    (
      record {
        before = tt;
        size =
            skip16 m4 f 0xEF01 (h + 4) (inl (omega arith))
            ∙ (skip32 m3 (f + 4) h (h + 4) (inl (omega arith))
                ∙ (skip32 m2 (h + 8) 0 (h + 4) (inl (omega arith))
                    ∙ read_back m1 (h + 4) n (omega (arith, bound))));
        footer =
            skip16 m4 f 0xEF01 (f + 4) (inr (omega arith))
            ∙ read_back m3 (f + 4) h (omega (arith, bound));
        after = refl;
      },
      skip16 m4 f 0xEF01 (h + 8) (inl (omega arith))
          ∙ (skip32 m3 (f + 4) h (h + 8) (inl (omega arith))
              ∙ read_back m2 (h + 8) 0 (omega arith)),
    )

-- The tree as it is made.
abbrev empty_tree : ℕ → Avl
empty_tree addr = record { free = nodes_from 3276 addr; root = leaf }

kalloc_avl_init-ok : (addr : ℕ) → kalloc_avl_init addr (16 * 4096) ≡ ok (empty_tree addr)
unfolding kalloc_avl_init
kalloc_avl_init-ok addr = refl

empty_tree-HasNode : (addr : ℕ) → HasNode (empty_tree addr)
unfolding nodes_from
empty_tree-HasNode addr = (addr, nodes_from 3275 (addr + 20), refl)

empty_tree-Tracks : (addr a e : ℕ) → Tracks (empty_tree addr) (IsAround a [] e [])
empty_tree-Tracks addr a e = record {
  holes = record { balanced = tt; sorted = tt };
  keeps = λ k h. absurd h;
  kept = λ k h. elim h [ inl x ↦ x | inr x ↦ x ];
}

whole_size : (h pages : ℕ) → 1 ≤ pages → h + 12 + (pages * 4096 - 12 - 8) + 8 ≡ h + pages * 4096
whole_size h pages some_page = omega (arith, some_page)

last_footer : (h pages : ℕ) → 1 ≤ pages → h + pages * 4096 - 8 ≡ h + 12 + (pages * 4096 - 12 - 8)
last_footer h pages some_page = omega (arith, some_page)

enough_pages :
    (pages : ℕ) → 1 ≤ pages → pages * 4096 < 2 ^ 32 → leb (8 + 12) (pages * 4096 % 2 ^ 32) ≡ true
enough_pages pages some_page lt = ground (arith, some_page, lt)

module _ (create_page : ℕ → Memory → Outcome Memory) where
  -- The heap before its hole goes into the tree.
  abbrev new_heap : Memory → ℕ → ℕ → KallocHeap
  new_heap m addr pages =
      let h = addr + 16 * 4096 in
      let n = pages * 4096 - 12 - 8 in
      record {
        avl_initial_addr = addr;
        initial_addr = h;
        size = pages * 4096;
        avl = empty_tree addr;
        memory = first_hole m h n (h + 12 + n);
      }

  create_runs :
      (m : Memory) (addr pages : ℕ)
      → addr % 0x1000 ≡ 0
      → 1 ≤ pages
      → addr + (16 + pages) * 4096 < 2 ^ 32
      → (m' : Memory) → create_pages create_page (16 + pages) (addr / 4096) m ≡ ok m'
      → (avl : Avl)
      → let heap = new_heap m' addr pages in
        size_at heap.memory (addr + 16 * 4096) ≡ pages * 4096 - 12 - 8
        → insert_hole heap (addr + 16 * 4096) (pages * 4096 - 12 - 8)
          ≡ ok (record heap { avl = avl })
        → kalloc_heap_create create_page m addr pages ≡ ok (record heap { avl = avl })
  unfolding kalloc_heap_create
  create_runs m addr pages aligned some_page bound m' created avl size inserted =
      rw (aligned, kalloc_heap_create)
        (rw (enough_pages pages some_page (omega (arith, bound)), created)
          (rw (kalloc_avl_init-ok addr, last_footer (addr + 16 * 4096) pages some_page)
            (rw (size) inserted)))

  -- The pages `page`, `page + 1` and so on, `n` of them, are created one after the other, from the
  -- memory `m` to the memory `mapped`.
  abbrev pub AreCreated : ℕ → ℕ → Memory → Memory → Type 0
  AreCreated zero page m mapped = m ≡ mapped
  AreCreated (suc n) page m mapped =
      (next : Memory) × (create_page page m ≡ ok next) × AreCreated n (page + 1) next mapped

  create_pages-AreCreated :
      (n page : ℕ) (m mapped : Memory)
      → AreCreated n page m mapped
      → create_pages create_page n page m ≡ ok mapped
  unfolding create_pages
  create_pages-AreCreated zero page m mapped e = ap ok e
  create_pages-AreCreated (suc n) page m mapped (next, e, rest) =
      rw (create_pages, e) (create_pages-AreCreated n (page + 1) next mapped rest)

  -- A new heap of at least one page, at the start of a page, is well formed: one hole fills it
  -- behind the 16 pages for the nodes of the tree, if its pages are mapped one after the other.
  pub kalloc_heap_create-IsHeap :
      (m : Memory) (addr pages : ℕ)
      → addr % 0x1000 ≡ 0
      → 1 ≤ pages
      → addr + (16 + pages) * 4096 < 2 ^ 32
      → (m' : Memory) → AreCreated (16 + pages) (addr / 4096) m m'
      → Returns (kalloc_heap_create create_page m addr pages) (λ heap.
        IsHeap heap (record { size = pages * 4096 - 12 - 8; used = false } ∷ [])
        × (heap.initial_addr ≡ addr + 16 * 4096)
        × (heap.size ≡ pages * 4096))
  unfolding kalloc_heap_create
  kalloc_heap_create-IsHeap m addr pages aligned some_page bound m' are_created =
      let created = create_pages-AreCreated (16 + pages) (addr / 4096) m m' are_created in
      let h = addr + 16 * 4096 in
      let n = pages * 4096 - 12 - 8 in
      let f = first_hole-Focus m' h n (omega (arith, some_page, bound)) in
      let heap = new_heap m' addr pages in
      let t =
        insert_hole-IsHeap heap [] n []
          (record {
            focus = rw (← whole_size h pages some_page) f.0;
            tracks = empty_tree-Tracks addr h (h + 12 + n + 8);
            bound = omega (arith, bound);
          })
          (empty_tree-HasNode addr) f.1 in
      let e = create_runs m addr pages aligned some_page bound m' created t.0 f.0.size t.1 in
      rw e (t.2, refl, refl)
