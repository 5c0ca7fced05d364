-- ===== src/Heap/Tracks.antt =====
-- The tree keeps exactly the holes of a part of the heap.
use raw_os.Common.{
  ℕ, ◌≡◌, ◌≢◌, refl, sym, ◌∙◌, ◌⊎◌, inl, inr, Bool, List, [], ◌∷◌, Returns, Returns-imp, Ordering,
  arith,
}
use raw_os.Avl.{Hole, Avl, compare_hole}
use raw_os.Avl.Sorted.{
  ◌≺◌, All, IsSorted, inorder, insert_sorted, remove_sorted, Has, lt_of_compare_hole,
  gt_of_compare_hole, eq_of_compare_hole,
}
use raw_os.Avl.Valid.{IsHoles}
use raw_os.Avl.Insert.{kalloc_avl_insert}
use raw_os.Avl.Insert.Laws.{kalloc_avl_insert-refines}
use raw_os.Avl.Remove.{kalloc_avl_remove}
use raw_os.Avl.Remove.Laws.{kalloc_avl_remove-refines}

pub All-Has : (P : Hole → Type 0) (xs : List Hole) → ((k : Hole) → Has k xs → P k) → All P xs
All-Has P [] f = tt
All-Has P (x ∷ xs) f = (f x (inl refl), All-Has P xs λ k h. f k (inr h))

pub Has-All : (P : Hole → Type 0) (xs : List Hole) (k : Hole) → All P xs → Has k xs → P k
Has-All P [] k a h = absurd h
Has-All P (x ∷ xs) k a (inl e) = rw e a.0
Has-All P (x ∷ xs) k a (inr h) = Has-All P xs k a.1 h

Has-insert_sorted :
    (a : Hole) (xs : List Hole) (k : Hole) → Has k (insert_sorted a xs) → (k ≡ a) ⊎ Has k xs
Has-insert_sorted a [] k h = h
Has-insert_sorted a (x ∷ xs) k h = ground (arith, Has-insert_sorted a xs k)

insert_sorted-Has :
    (a : Hole) (xs : List Hole) (k : Hole) → (k ≡ a) ⊎ Has k xs → Has k (insert_sorted a xs)
insert_sorted-Has a [] k h = h
insert_sorted-Has a (x ∷ xs) k h = ground (arith, insert_sorted-Has a xs k)

-- A hole that stands below another is not that one.
differs : {a x k : Hole} → a ≺ x → k ≡ x → k ≢ a
differs {a} {x} {k} lt e eq = ground (arith, lt, e, eq)

Has-remove_sorted :
    (a : Hole) (xs : List Hole) (k : Hole)
    → IsSorted xs
    → Has k (remove_sorted a xs)
    → Has k xs × (k ≢ a)
Has-remove_sorted a [] k s h = absurd h
Has-remove_sorted a (x ∷ xs) k s h =
    by_order (compare_hole a x) refl h (Has-remove_sorted a xs k s.1)
  where
    by_order :
        (o : Ordering)
        → compare_hole a x ≡ o
        → Has k (elim o [ Ordering.eq ↦ xs | _ ↦ x ∷ remove_sorted a xs ])
        → (Has k (remove_sorted a xs) → Has k xs × (k ≢ a))
        → Has k (x ∷ xs) × (k ≢ a)
    by_order Ordering.lt e (inl here) ih = (inl here, differs (lt_of_compare_hole a x e) here)
    by_order Ordering.lt e (inr there) ih = (inr (ih there).0, (ih there).1)
    by_order Ordering.gt e (inl here) ih =
        (inl here, λ eq. differs (gt_of_compare_hole a x e) eq here)
    by_order Ordering.gt e (inr there) ih = (inr (ih there).0, (ih there).1)
    by_order Ordering.eq e h ih = (
      inr h,
      λ eq. differs (Has-All (λ y. x ≺ y) xs k s.0 h) refl (eq ∙ eq_of_compare_hole a x e),
    )

remove_sorted-Has :
    (a : Hole) (xs : List Hole) (k : Hole) → Has k xs → k ≢ a → Has k (remove_sorted a xs)
remove_sorted-Has a [] k h ne = h
remove_sorted-Has a (x ∷ xs) k h ne = by_order (compare_hole a x) refl h (remove_sorted-Has a xs k)
  where
    by_order :
        (o : Ordering)
        → compare_hole a x ≡ o
        → Has k (x ∷ xs)
        → (Has k xs → k ≢ a → Has k (remove_sorted a xs))
        → Has k (elim o [ Ordering.eq ↦ xs | _ ↦ x ∷ remove_sorted a xs ])
    by_order Ordering.lt e (inl here) ih = inl here
    by_order Ordering.lt e (inr there) ih = inr (ih there ne)
    by_order Ordering.gt e (inl here) ih = inl here
    by_order Ordering.gt e (inr there) ih = inr (ih there ne)
    by_order Ordering.eq e (inl here) ih = absurd (ne (here ∙ sym (eq_of_compare_hole a x e)))
    by_order Ordering.eq e (inr there) ih = there

-- The invariant of the tree, and the holes it keeps.
pub record Tracks (avl : Avl) (P : Hole → Type 0) : Type 0 where
  pub holes : IsHoles avl
  pub keeps : (k : Hole) → Has k (inorder avl.root) → P k
  pub kept : (k : Hole) → P k → Has k (inorder avl.root)

pub Tracks-imp :
    (avl : Avl) (P Q : Hole → Type 0)
    → ((k : Hole) → P k → Q k)
    → ((k : Hole) → Q k → P k)
    → Tracks avl P
    → Tracks avl Q
Tracks-imp avl P Q f g t = record {
  holes = t.holes;
  keeps = λ k h. f k (t.keeps k h);
  kept = λ k q. t.kept k (g k q);
}

pub insert-Tracks :
    (avl : Avl) (P : Hole → Type 0) (hole : Hole) (n : ℕ) (rest : List ℕ)
    → Tracks avl P
    → avl.free ≡ n ∷ rest
    → ((k : Hole) → P k → hole ≢ k)
    → Returns
        (kalloc_avl_insert avl hole)
        (λ r. Tracks r.0 (λ k. (k ≡ hole) ⊎ P k) × (r.0.free ≡ rest))
insert-Tracks avl P hole n rest t free new =
    Returns-imp (kalloc_avl_insert avl hole) _ _
      (kalloc_avl_insert-refines avl hole n rest t.holes free
        (All-Has _ (inorder avl.root) λ k h. new k (t.keeps k h)))
      (λ r i. (
        record {
          holes = i.0;
          keeps = λ k h. elim (Has-insert_sorted hole (inorder avl.root) k (rw i.1 at h)) [
            | inl e ↦ inl e
            | inr h ↦ inr (t.keeps k h)
          ];
          kept = λ k p. rw i.1 (
              insert_sorted-Has hole (inorder avl.root) k
                (elim p [ inl e ↦ inl e | inr q ↦ inr (t.kept k q) ]));
        },
        i.2,
      ))

pub remove-Tracks :
    (junk : Bool) (avl : Avl) (P : Hole → Type 0) (hole : Hole)
    → Tracks avl P
    → P hole
    → Returns
        (kalloc_avl_remove junk avl hole)
        (λ r. Tracks r.0 (λ k. P k × (k ≢ hole)) × ((n : ℕ) × (r.0.free ≡ n ∷ avl.free)))
remove-Tracks junk avl P hole t p =
    Returns-imp (kalloc_avl_remove junk avl hole) _ _
      (kalloc_avl_remove-refines junk avl hole t.holes (t.kept hole p))
      (λ r i. (
        record {
          holes = i.0;
          keeps = λ k h.
              let r = Has-remove_sorted hole (inorder avl.root) k t.holes.sorted (rw i.1 at h) in
              (t.keeps k r.0, r.1);
          kept = λ k p. rw i.1 (remove_sorted-Has hole (inorder avl.root) k (t.kept k p.0) p.1);
        },
        i.2,
      ))
