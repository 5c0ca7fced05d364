-- ===== src/Heap/Alloc.antt =====
-- kalloc_heap_create, kalloc_heap_alloc (alloc/kalloc_heap.c), and alloc/kalloc.c.
use raw_os.Common.{
  ℕ, zero, suc, ◌+◌, ◌-◌, ◌*◌, ◌/◌, ◌%◌, ◌^◌, Bool, not, Outcome, ok, assert, ◌>>=◌, ◌>>◌, ltb, leb,
  ◌==◌, if◌then◌else◌,
}
use raw_os.Avl.{kalloc_avl_init}
use raw_os.Avl.Find.{get_aligned_address, kalloc_avl_find_hole}
use raw_os.Heap.{
  Memory, KallocHeap, size_at, used_at, header_at, set_size, set_used, set_header, set_header_magic,
  set_footer_magic, insert_hole, remove_hole, kalloc_heap_free,
}

-- Subtraction on 32 bits.
unfoldable pub sub_u32 : ℕ → ℕ → ℕ
sub_u32 a b = (a + 2 ^ 32 - b % 2 ^ 32) % 2 ^ 32

-- The space before the aligned address goes to the block before the hole. `f` is the hole's footer.
unfoldable pub shift_start : KallocHeap → ℕ → ℕ → ℕ → Outcome KallocHeap
shift_start heap h aligned_h f =
    let m = heap.memory in
    let previous_footer = h - 8 in
    let previous_header = header_at m previous_footer in
    let new_previous_footer = aligned_h - 8 in
    assert (not (h == heap.initial_addr))
    >> (assert (ltb previous_footer new_previous_footer)
        >> ok (record heap {
          memory =
              set_header
                (set_footer_magic
                  (set_header
                    (set_size m previous_header
                      (size_at m previous_header + (new_previous_footer - previous_footer)))
                    new_previous_footer previous_header)
                  new_previous_footer)
                f aligned_h;
        }))

-- The rest of the hole with the header `h` and `hole_size` bytes, behind a block of `size` bytes,
-- becomes a hole.
unfoldable pub split_hole : KallocHeap → ℕ → ℕ → ℕ → Outcome KallocHeap
split_hole heap h hole_size size =
    let f = h + 12 + size in
    let new_h = f + 8 in
    let new_f = h + 12 + size_at heap.memory h in
    let m = set_used (set_size heap.memory h size) h 1 in
    let m = set_header (set_footer_magic m f) f h in
    let m = set_size (set_header_magic m new_h) new_h (sub_u32 hole_size (size + 12 + 8)) in
    let m = set_header (set_used m new_h 0) new_f new_h in
    insert_hole (record heap { memory = m }) new_h (size_at m new_h)

-- The header is written anew, and the hole is split if it is large enough.
unfoldable pub take_hole : KallocHeap → ℕ → ℕ → ℕ → Outcome KallocHeap
take_hole heap h hole_size size =
    let m = set_size (set_used (set_header_magic heap.memory h) h 0) h hole_size in
    let heap = record heap { memory = m } in
    if ltb ((size + 12 + 8) % 2 ^ 32) (size_at m h)
    then split_hole heap h hole_size size
    else ok (record heap { memory = set_used m h 1 })

-- The branch of `kalloc_heap_alloc` where a hole was found.
unfoldable pub alloc_in : Bool → KallocHeap → ℕ → ℕ → ℕ → Outcome (ℕ × KallocHeap)
alloc_in junk heap size alignment user_space =
    let h = user_space - 12 in
    let hole_size = size_at heap.memory h in
    assert (used_at heap.memory h == 0)
    >> (remove_hole junk heap h hole_size >>= λ heap.
        let aligned = get_aligned_address user_space alignment in
        assert (leb user_space aligned)
        >> (if ltb user_space aligned
            then (shift_start heap h (aligned - 12) (h + 12 + hole_size) >>= λ heap.
                take_hole heap (aligned - 12) (sub_u32 hole_size (aligned - user_space)) size
                >>= λ heap. ok (aligned, heap))
            else (take_hole heap (aligned - 12) hole_size size >>= λ heap. ok (aligned, heap))))

-- `paging_create_kernel_page_with_any_frame` panics if the page is present or no frame is free, and
-- a table that it adds is linked into the page directories of the processes, which lie in the heap.
module _ (create_page : ℕ → Memory → Outcome Memory) where
  -- The branch where no hole was found: one more page.
  unfoldable pub expand : Bool → KallocHeap → Outcome KallocHeap
  expand junk heap =
      let old_end = heap.initial_addr + heap.size in
      create_page (old_end / 4096) heap.memory >>= λ m.
      let last_footer = old_end - 8 in
      let last_header = header_at m last_footer in
      let grown : KallocHeap = record heap { size = heap.size + 4096; memory = m } in
      if not (used_at m last_header == 0)
      then (let new_h = last_footer + 8 in
          let new_f = new_h + 4096 - 8 in
          let m = set_size (set_header_magic m new_h) new_h (4096 - 12 - 8) in
          let m = set_header (set_footer_magic (set_used m new_h 0) new_f) new_f new_h in
          insert_hole (record grown { memory = m }) new_h (size_at m new_h))
      else (let new_f = heap.initial_addr + grown.size - 8 in
          let m = set_header (set_footer_magic m new_f) new_f last_header in
          remove_hole junk (record grown { memory = m }) last_header (size_at m last_header)
          >>= λ removed.
              let m = set_size m last_header (size_at m last_header + 4096) in
              insert_hole (record removed { memory = m }) last_header (size_at m last_header))

  -- `panicked` also where more than `fuel` pages would be needed; the code panics when no frame
  -- or no node of the tree is left.
  unfoldable pub kalloc_heap_alloc : ℕ → Bool → KallocHeap → ℕ → ℕ → Outcome (ℕ × KallocHeap)
  kalloc_heap_alloc zero junk heap size alignment = Outcome.panicked
  kalloc_heap_alloc (suc fuel) junk heap size alignment =
      let user_space = kalloc_avl_find_hole heap.avl size alignment in
      let expanded = expand junk heap >>= λ heap. kalloc_heap_alloc fuel junk heap size alignment in
      if not (user_space == 0) then alloc_in junk heap size alignment user_space else expanded

  -- The pages from `page` on.
  unfoldable pub create_pages : ℕ → ℕ → Memory → Outcome Memory
  create_pages zero page m = ok m
  create_pages (suc n) page m = create_page page m >>= create_pages n (page + 1)

  unfoldable pub kalloc_heap_create : Memory → ℕ → ℕ → Outcome KallocHeap
  kalloc_heap_create m initial_addr initial_pages =
      assert (initial_addr % 0x1000 == 0)
      >> (assert (leb (8 + 12) (initial_pages * 4096 % 2 ^ 32))
          >> (create_pages (16 + initial_pages) (initial_addr / 4096) m >>= λ m.
              kalloc_avl_init initial_addr (16 * 4096) >>= λ avl.
              let h = initial_addr + 16 * 4096 in
              let size = initial_pages * 4096 in
              let f = h + size - 8 in
              let m = set_size (set_header_magic m h) h (size - 12 - 8) in
              let m = set_footer_magic (set_header (set_used m h 0) f h) f in
              insert_hole
                (record {
                  avl_initial_addr = initial_addr;
                  initial_addr = h;
                  size = size;
                  avl = avl;
                  memory = m;
                })
                h (size_at m h)))

  unfoldable pub kalloc_alloc : ℕ → Bool → KallocHeap → ℕ → Outcome (ℕ × KallocHeap)
  kalloc_alloc fuel junk heap size = kalloc_heap_alloc fuel junk heap size 0

  unfoldable pub kalloc_alloc_aligned : ℕ → Bool → KallocHeap → ℕ → ℕ → Outcome (ℕ × KallocHeap)
  kalloc_alloc_aligned fuel junk heap size alignment =
      kalloc_heap_alloc fuel junk heap size alignment

  unfoldable pub kalloc_init : ℕ → Bool → Memory → ℕ → Outcome KallocHeap
  kalloc_init fuel junk m initial_pages = kalloc_heap_create m 0x00500000 initial_pages >>= λ heap.
      kalloc_alloc fuel junk heap 1 >>= λ r. ok (r.1)

  -- `n` bytes are copied in the order of `memcpy`, from the `i`th on.
  unfoldable pub copy_up_bytes : ℕ → ℕ → ℕ → ℕ → Memory → Memory
  copy_up_bytes zero i target source m = m
  copy_up_bytes (suc n) i target source m =
      copy_up_bytes n (i + 1) target source (λ x. if x == target + i then m (source + i) else m x)

  unfoldable pub kalloc_realloc : ℕ → Bool → KallocHeap → ℕ → ℕ → ℕ → Outcome (ℕ × KallocHeap)
  kalloc_realloc fuel junk heap ptr old_size new_size =
      if leb new_size old_size
      then ok (ptr, heap)
      else (kalloc_heap_alloc fuel junk heap new_size 0 >>= λ r.
          let copied = record (r.1) { memory = copy_up_bytes old_size 0 (r.0) ptr (r.1).memory } in
          kalloc_heap_free junk copied ptr >>= λ heap. ok (r.0, heap))
