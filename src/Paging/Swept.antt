-- ===== src/Paging/Swept.antt =====
-- The loop over the entries of a page table.
use mathlib.Core.Path.{subst}
use raw_os.Common.{
  lt_or_le, ℕ, zero, suc, ◌+◌, ◌*◌, ◌≤◌, ◌<◌, ◌≡◌, refl, sym, ap, ◌∙◌, Bool, true, false, not, ◌&&◌,
  Bool-cases, inl, inr, ok, Returns-ok, ◌==◌, if◌then◌else◌, arith,
}
use raw_os.Bitmap.{Bitmap, bitmap_get, bitmap_clear}
use raw_os.Bitmap.Laws.{IsUpdate, bit_of, bitmap_get-eq-bit_of, bitmap_clear-IsUpdate}
use raw_os.Paging.{zero_entry, write, is_page_part_of_kernel_stack_in_process_address_space}
use raw_os.Paging.Clean.{Sweep, clean_entry, clean_entries}
use raw_os.Paging.Entries.{
  removed, stays, frees, any_stays, Owns, IsSwept, freed_one, merge_bits, merge_tests, one_entry,
  frees-cong, any_stays-cong,
}

module _ (first : ℕ) where
  IsSwept-same :
      (s s' : Sweep) (j k : ℕ) → IsSwept first s 1 j s' → j + 1 ≤ k → s'.pages k ≡ s.pages k
  IsSwept-same s s' j k swept le = swept.pages_eq k ∙ ground arith

  Owns-one : (s : Sweep) (n j : ℕ) → Owns s (suc n) j → Owns s 1 j
  Owns-one s n j owns = record {
    valid = owns.valid;
    inside = λ k le lt p. owns.inside k le (omega arith) p;
    in_use = λ k le lt p. owns.in_use k le (omega arith) p;
    distinct = λ k l le kl lt p q. absurd (omega arith);
  }

  Owns-next :
      (s s' : Sweep) (n j : ℕ) → Owns s (suc n) j → IsSwept first s 1 j s' → Owns s' n (j + 1)
  Owns-next s s' n j owns swept = record {
    valid = swept.valid;
    inside = λ k le lt p.
        let e = IsSwept-same s s' j k swept le in
        subst (λ x. x.frame_address_20_bits < s'.frames.size * 8) (sym e)
          (omega (
            arith,
            owns.inside k (omega arith) (omega arith) (ap (λ x. x.present) (sym e) ∙ p),
            swept.frames_size,
          ));
    in_use = λ k le lt p.
        let e = IsSwept-same s s' j k swept le in
        let present = ap (λ x. x.present) (sym e) ∙ p in
        subst (λ x. bit_of s'.frames x.frame_address_20_bits ≡ true) (sym e)
          (swept.bits _
            ∙ elim (Bool-cases (frees first s.pages 1 j (s.pages k).frame_address_20_bits)) [
              | inl freed ↦
                  let (here, same) = freed_one first s.pages j _ freed in
                  absurd
                    (owns.distinct j k (omega arith) (omega arith) (omega arith) here present same)
              | inr kept ↦ rw kept (owns.in_use k (omega arith) (omega arith) present)
            ]);
    distinct = λ k l le kl lt p q.
        let e = IsSwept-same s s' j k swept le in
        let f = IsSwept-same s s' j l swept (omega arith) in
        λ same.
          owns.distinct k l (omega arith) kl (omega arith) (ap (λ x. x.present) (sym e) ∙ p)
            (ap (λ x. x.present) (sym f) ∙ q)
            (ap (λ x. x.frame_address_20_bits) (sym e)
              ∙ (same ∙ ap (λ x. x.frame_address_20_bits) f));
  }

  IsSwept-next :
      (s s1 s2 : Sweep) (n j : ℕ)
      → IsSwept first s 1 j s1
      → IsSwept first s1 n (j + 1) s2
      → IsSwept first s (suc n) j s2
  IsSwept-next s s1 s2 n j a b = record {
    valid = b.valid;
    frames_size = b.frames_size ∙ a.frames_size;
    bits = λ f.
        b.bits f
        ∙ (ap (λ t. if t then false else bit_of s1.frames f)
              (frees-cong first s.pages s1.pages n (j + 1) f λ k le. IsSwept-same s s1 j k a le)
            ∙ (ap (λ t. if frees first s.pages n (j + 1) f then false else t) (a.bits f)
                ∙ merge_bits (removed first s.pages j && ((s.pages j).frame_address_20_bits == f))
                    (frees first s.pages n (j + 1) f) (bit_of s.frames f)));
    pages_eq = λ k. b.pages_eq k ∙ elim (lt_or_le j k) [
      | inl lt ↦ rw (IsSwept-same s s1 j k a (omega arith)) (ground arith)
      | inr le ↦ ground (arith, a.pages_eq k)
    ];
    destroyed =
        b.destroyed
        ∙ (ap (λ t. s1.should_table_be_destroyed && not t)
              (any_stays-cong first s.pages s1.pages n (j + 1) λ k le. IsSwept-same s s1 j k a le)
            ∙ (ap (λ t. t && not (any_stays first s.pages n (j + 1))) a.destroyed
                ∙ merge_tests s.should_table_be_destroyed (stays first s.pages j)
                    (any_stays first s.pages n (j + 1))));
  }

  abbrev on_stack : ℕ → Bool
  on_stack j = is_page_part_of_kernel_stack_in_process_address_space (first + j)

  absent-IsSwept :
      (j : ℕ) (s : Sweep) → Owns s 1 j → (s.pages j).present ≡ false → IsSwept first s 1 j s
  absent-IsSwept j s owns e = record {
    valid = owns.valid;
    frames_size = refl;
    bits = λ f. rw e refl;
    pages_eq = one_entry s.pages s.pages (removed first s.pages) j (λ k ne. refl) (rw e refl);
    destroyed = ground (arith, e);
  }

  stack-IsSwept :
      (j : ℕ) (s : Sweep)
      → Owns s 1 j
      → (s.pages j).present ≡ true
      → on_stack j ≡ true
      → IsSwept first s 1 j (record s { should_table_be_destroyed = false })
  stack-IsSwept j s owns e st = record {
    valid = owns.valid;
    frames_size = refl;
    bits = λ f. rw (e, st) refl;
    pages_eq = one_entry s.pages s.pages (removed first s.pages) j (λ k ne. refl) (rw (e, st) refl);
    destroyed = ground (arith, e, st);
  }

  removed-IsSwept :
      (j : ℕ) (s : Sweep) (frames : Bitmap)
      → IsUpdate s.frames (s.pages j).frame_address_20_bits false frames
      → (s.pages j).present ≡ true
      → on_stack j ≡ false
      → IsSwept first s 1 j (record s { frames = frames; pages = write s.pages j zero_entry })
  removed-IsSwept j s frames update e st = record {
    valid = update.valid;
    frames_size = update.same_size;
    bits = λ f. update.reads f ∙ rw (e, st) (ground arith);
    pages_eq =
        one_entry s.pages (write s.pages j zero_entry) (removed first s.pages) j
          (λ k ne. ground arith) (rw (e, st) (ground arith));
    destroyed = ground (arith, e, st);
  }

  clean_entry-IsSwept :
      (j : ℕ) (s : Sweep)
      → Owns s 1 j
      → (s' : Sweep) × (clean_entry first j s ≡ ok s') × IsSwept first s 1 j s'
  unfolding clean_entry
  clean_entry-IsSwept j s owns = elim (Bool-cases (s.pages j).present) [
    | inr e ↦ (s, rw (clean_entry, e), absent-IsSwept j s owns e)
    | inl e ↦
        let inside = owns.inside j (omega arith) (omega arith) e in
        let used = owns.in_use j (omega arith) (omega arith) e in
        let got : bitmap_get s.frames (s.pages j).frame_address_20_bits ≡ ok 1 =
          bitmap_get-eq-bit_of s.frames _ owns.valid inside
          ∙ ap (λ b. ok (if b then 1 else 0)) used in
        elim (Bool-cases (on_stack j)) [
          | inl st ↦ (_, rw (clean_entry, e, got, st) refl, stack-IsSwept j s owns e st)
          | inr st ↦
              let (frames, ec, update) =
                Returns-ok (bitmap_clear s.frames (s.pages j).frame_address_20_bits)
                  (IsUpdate s.frames (s.pages j).frame_address_20_bits false)
                  (bitmap_clear-IsUpdate s.frames _ owns.valid inside) in
              (_, rw (clean_entry, e, got, st, ec) refl, removed-IsSwept j s frames update e st)
        ]
  ]

  -- If the present pages among `n` entries have frames of their own, all in use, the sweep over
  -- these entries returns: the pages that are not of the kernel's stack are removed and their
  -- frames free, no other entry or frame changes, and the table is to be destroyed exactly if it
  -- was to be before and no page stays.
  pub clean_entries-IsSwept :
      (n j : ℕ) (s : Sweep)
      → Owns s n j
      → (s' : Sweep) × (clean_entries first n j s ≡ ok s') × IsSwept first s n j s'
  unfolding clean_entries
  clean_entries-IsSwept zero j s owns = (
    s,
    refl,
    record {
      valid = owns.valid;
      frames_size = refl;
      bits = λ f. refl;
      pages_eq = λ k. ground arith;
      destroyed = ground arith;
    },
  )
  clean_entries-IsSwept (suc n) j s owns =
      let (s1, e1, a) = clean_entry-IsSwept j s (Owns-one s n j owns) in
      let (s2, e2, b) = clean_entries-IsSwept n (j + 1) s1 (Owns-next s s1 n j owns a) in
      (s2, rw (clean_entries, e1) e2, IsSwept-next s s1 s2 n j a b)
