-- ===== src/Heap.antt =====
-- alloc/kalloc_heap.c and alloc/kalloc.c: the kernel heap. Blocks and holes lie one behind the other
-- in memory, each between a header of 12 bytes and a footer of 8; the holes are in the tree too.
-- The memory is a function from addresses to bytes.
pub mod Memory
pub mod Layout
pub mod Tracks
pub mod Focus
pub mod Opened
pub mod Holes
pub mod Merge
pub mod MergeNext
pub mod Free
pub mod Alloc
pub mod Carve
pub mod Taken
pub mod AllocIn
pub mod Reuse
pub mod Page
pub mod Expand
pub mod Grow
pub mod Create
pub mod Init
pub mod Bounds
pub mod Keeps
mod Tests
use raw_os.Common.{
  ℕ, zero, suc, ◌+◌, ◌-◌, ◌*◌, ◌/◌, ◌%◌, ◌^◌, Bool, true, false, not, Outcome, ok, panicked, assert,
  ◌>>=◌, ◌>>◌, ltb, leb, ◌==◌, if◌then◌else◌,
}
use raw_os.Avl.{Hole, Avl, kalloc_avl_init}
use raw_os.Avl.Insert.{kalloc_avl_insert}
use raw_os.Avl.Remove.{kalloc_avl_remove}
use raw_os.Avl.Find.{get_aligned_address, kalloc_avl_find_hole}

abbrev pub Memory : Type 0
Memory = ℕ → ℕ

abbrev pub store : Memory → ℕ → ℕ → Memory
store m at value x = if x == at then value % 2 ^ 8 else m x

-- 32-bit and 16-bit numbers, the low byte first.
unfoldable pub read32 : Memory → ℕ → ℕ
read32 m a = m a + m (a + 1) * 2 ^ 8 + m (a + 2) * 2 ^ 16 + m (a + 3) * 2 ^ 24

unfoldable pub write32 : Memory → ℕ → ℕ → Memory
write32 m a v =
    store (store (store (store m a v) (a + 1) (v / 2 ^ 8)) (a + 2) (v / 2 ^ 16)) (a + 3)
      (v / 2 ^ 24)

unfoldable pub write16 : Memory → ℕ → ℕ → Memory
write16 m a v = store (store m a v) (a + 1) (v / 2 ^ 8)

pub record KallocHeap : Type 0 where
  pub avl_initial_addr : ℕ
  pub initial_addr : ℕ
  pub size : ℕ
  pub avl : Avl
  pub memory : Memory

-- The fields of the header at `h` and of the footer at `f`: `magic`, `size`, `used` and `header`.
abbrev pub size_at : Memory → ℕ → ℕ
size_at m h = read32 m (h + 4)

abbrev pub used_at : Memory → ℕ → ℕ
used_at m h = read32 m (h + 8)

abbrev pub header_at : Memory → ℕ → ℕ
header_at m f = read32 m (f + 4)

abbrev pub set_size : Memory → ℕ → ℕ → Memory
set_size m h v = write32 m (h + 4) v

abbrev pub set_used : Memory → ℕ → ℕ → Memory
set_used m h v = write32 m (h + 8) v

abbrev pub set_header : Memory → ℕ → ℕ → Memory
set_header m f h = write32 m (f + 4) h

abbrev pub set_header_magic : Memory → ℕ → Memory
set_header_magic m h = write16 m h 0xABCD

abbrev pub set_footer_magic : Memory → ℕ → Memory
set_footer_magic m f = write16 m f 0xEF01

-- The tree keeps the size of a hole and the address behind its header.
abbrev pub hole_of : ℕ → ℕ → Hole
hole_of h size = record { size = size; addr = h + 12 }

unfoldable pub insert_hole : KallocHeap → ℕ → ℕ → Outcome KallocHeap
insert_hole heap h size =
    kalloc_avl_insert heap.avl (hole_of h size) >>= λ r. ok (record heap { avl = r.0 })

-- `junk` is the uninitialised flag of the removal.
unfoldable pub remove_hole : Bool → KallocHeap → ℕ → ℕ → Outcome KallocHeap
remove_hole junk heap h size =
    kalloc_avl_remove junk heap.avl (hole_of h size) >>= λ r. ok (record heap { avl = r.0 })

-- The first part of `kalloc_heap_free`: the header `h` of the block, whose footer is at `f`, or the
-- header of the hole before it, into which the block goes.
unfoldable pub merge_previous : Bool → KallocHeap → ℕ → ℕ → Outcome (KallocHeap × ℕ)
merge_previous junk heap h f =
    let m = heap.memory in
    let previous_header = header_at m (h - 8) in
    if h == heap.initial_addr
    then ok (heap, h)
    else if not (used_at m previous_header == 0)
    then ok (heap, h)
    else (remove_hole junk heap previous_header (size_at m previous_header) >>= λ heap. ok (
      record heap {
        memory =
            set_header (set_size m previous_header (size_at m previous_header + size_at m h + 20)) f
              previous_header;
      },
      previous_header,
    ))

-- The second part: the hole behind the footer `f` goes into the block with the header `h`.
unfoldable pub merge_next : Bool → KallocHeap → ℕ → ℕ → Outcome KallocHeap
merge_next junk heap h f =
    let m = heap.memory in
    let next_header = f + 8 in
    let next_footer = next_header + 12 + size_at m next_header in
    if f == heap.initial_addr + heap.size - 8
    then ok heap
    else if not (used_at m next_header == 0)
    then ok heap
    else (remove_hole junk heap next_header (size_at m next_header) >>= λ heap. ok (record heap {
      memory = set_header (set_size m h (size_at m h + (size_at m next_header + 20))) next_footer h;
    }))

unfoldable pub kalloc_heap_free : Bool → KallocHeap → ℕ → Outcome KallocHeap
kalloc_heap_free junk heap ptr =
    let h = ptr - 12 in
    let f = ptr + size_at heap.memory h in
    assert (used_at heap.memory h == 1)
    >> (merge_previous junk heap h f >>= λ merged.
        merge_next junk (merged.0) (merged.1) f >>= λ heap.
        let h = merged.1 in
        insert_hole (record heap { memory = set_used heap.memory h 0 }) h
          (size_at (set_used heap.memory h 0) h))
