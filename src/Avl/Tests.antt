-- ===== src/Avl/Tests.antt =====
-- Runs of the tree of holes on small inputs, and the theorems there.
use raw_os.Common.{
  ℕ, ◌≡◌, ◌≢◌, refl, true, false, List, [], ◌∷◌, Returns, arith, Outcome, ok, ◌>>=◌, inl, inr,
}
use raw_os.Avl.{
  Hole, leaf, node, Avl, compare_hole, get_free_node, put_free_node, get_balance_factor,
  rotate_left, rotate_right, double_rotate_left, double_rotate_right, update_node_height,
  rebalance_left, rebalance_right,
}
use raw_os.Avl.Valid.{IsHoles}
use raw_os.Avl.Sorted.{inorder, insert_sorted, remove_sorted}
use raw_os.Avl.Insert.{
  insert_internal, kalloc_avl_insert, grow_left, grow_right, grown_left, grown_right,
}
use raw_os.Avl.Insert.Laws.{kalloc_avl_insert-refines}
use raw_os.Avl.Remove.{
  remove_internal, kalloc_avl_remove, shrink_left, shrunk_left, remove_root, find_predecessor,
  rightmost,
}
use raw_os.Avl.Remove.Laws.{kalloc_avl_remove-refines}
use raw_os.Avl.Find.{kalloc_avl_find_hole}
use raw_os.Avl.Find.Laws.{first_fit, kalloc_avl_find_hole-eq-first_fit}
use raw_os.Avl.Sorted.{All}

abbrev small : Hole
small = record { size = 16; addr = 0x1000 }

abbrev middle : Hole
middle = record { size = 32; addr = 0x2010 }

abbrev large : Hole
large = record { size = 48; addr = 0x3000 }

-- Three insertions in rising order make a rotation to the left.
abbrev three_free : List ℕ
three_free = 0 ∷ 20 ∷ 40 ∷ 60 ∷ []

insert_all : List Hole → Avl → Outcome Avl
unfolding kalloc_avl_insert insert_internal grow_left grow_right grown_left grown_right
    get_free_node get_balance_factor rotate_left rotate_right double_rotate_left double_rotate_right
    update_node_height rebalance_left rebalance_right compare_hole
insert_all [] avl = ok avl
insert_all (x ∷ xs) avl = kalloc_avl_insert avl x >>= λ r. insert_all xs r.0

abbrev three : Avl
three = record {
  free = 60 ∷ [];
  root = node 20 (node 0 leaf leaf 1 small) (node 40 leaf leaf 1 large) 2 middle;
}

builds_three :
    insert_all (small ∷ middle ∷ large ∷ []) (record { free = three_free; root = leaf }) ≡ ok three
unfolding insert_all
builds_three = refl

three-IsHoles : IsHoles three
three-IsHoles = omega arith

abbrev between : Hole
between = record { size = 32; addr = 0x2000 }

between_absent : All (λ y. between ≢ y) (inorder three.root)
between_absent = (λ e. ground arith, (λ e. ground arith, (λ e. ground arith, tt)))

kalloc_avl_insert-refines_example : Returns (kalloc_avl_insert three between) (λ r.
    IsHoles r.0
    × (inorder r.0.root ≡ insert_sorted between (inorder three.root))
    × (r.0.free ≡ [])
    × (r.1 ≡ false))
kalloc_avl_insert-refines_example =
    kalloc_avl_insert-refines three between 60 [] three-IsHoles refl between_absent

kalloc_avl_remove-refines_example : Returns (kalloc_avl_remove true three middle) (λ r.
    IsHoles r.0
    × (inorder r.0.root ≡ remove_sorted middle (inorder three.root))
    × ((n : ℕ) × (r.0.free ≡ n ∷ 60 ∷ []))
    × (r.1 ≡ false))
kalloc_avl_remove-refines_example =
    kalloc_avl_remove-refines true three middle three-IsHoles (inr (inl refl))

removes_the_root :
    kalloc_avl_remove true three middle
    ≡ ok (
      record { free = 0 ∷ 60 ∷ []; root = node 20 leaf (node 40 leaf leaf 1 large) 2 small },
      false,
    )
unfolding kalloc_avl_remove remove_internal remove_root find_predecessor rightmost shrink_left
    shrunk_left compare_hole put_free_node get_balance_factor
removes_the_root = refl

abbrev one : Avl
one = record { free = []; root = node 0 leaf leaf 1 small }

kalloc_avl_find_hole-eq-first_fit_example :
    kalloc_avl_find_hole three 20 0 ≡ first_fit 20 (inorder three.root)
kalloc_avl_find_hole-eq-first_fit_example =
    kalloc_avl_find_hole-eq-first_fit three 20 three-IsHoles (omega arith) (omega arith)
