-- ===== src/Avl/Find.antt =====
-- The search for a hole (alloc/kalloc_avl.c).
pub mod Laws
use raw_os.Common.{
  ℕ, ◌+◌, ◌-◌, ◌%◌, ◌^◌, bit_and, Bool, not, ◌&&◌, ◌||◌, ltb, leb, ◌==◌, if◌then◌else◌, Ordering,
}
use raw_os.Avl.{Hole, Tree, leaf, node, Avl, compare_hole_size}

-- The next multiple of `alignment`, a power of two, in 32 bits; 0 asks for no alignment.
-- (`get_aligned_address` of alloc/kalloc_heap.c is the same code.)
unfoldable pub get_aligned_address : ℕ → ℕ → ℕ
get_aligned_address addr alignment =
    if not (alignment == 0) && not (bit_and addr (alignment - 1) == 0)
    then (bit_and addr (2 ^ 32 - alignment) + alignment) % 2 ^ 32
    else addr

unfoldable pub hole_has_alignment_space : Hole → ℕ → ℕ → Bool
unfolding get_aligned_address
hole_has_alignment_space hole wanted_size alignment =
    leb
      ((wanted_size + (get_aligned_address hole.addr alignment + 2 ^ 32 - hole.addr) % 2 ^ 32)
        % 2 ^ 32)
      hole.size

abbrev pub is_gt : Ordering → Bool
is_gt o = elim o [ Ordering.gt ↦ Bool.true | _ ↦ Bool.false ]

-- The address 0 is the null pointer.
unfoldable pub avl_find_hole_internal : Tree → ℕ → ℕ → ℕ
avl_find_hole_internal leaf hole_size alignment = 0
avl_find_hole_internal (node p l r h k) hole_size alignment =
    let on_right = avl_find_hole_internal r hole_size alignment in
    let on_left = avl_find_hole_internal l hole_size alignment in
    if is_gt (compare_hole_size hole_size k.size)
      || not (hole_has_alignment_space k hole_size alignment)
    then on_right
    else if on_left == 0
    then k.addr
    else on_left

unfoldable pub kalloc_avl_find_hole : Avl → ℕ → ℕ → ℕ
kalloc_avl_find_hole avl hole_size alignment = avl_find_hole_internal avl.root hole_size alignment
