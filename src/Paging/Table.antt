-- ===== src/Paging/Table.antt =====
-- One round of the loop over the tables of a process's directory.
use mathlib.Core.Path.{subst}
use raw_os.Common.{
  ℕ, ◌*◌, ◌<◌, ◌≡◌, ◌≢◌, refl, sym, ap, ◌∙◌, ◌⊎◌, true, false, not, ◌&&◌, Bool-cases, inl, inr, ok,
  ◌==◌, if◌then◌else◌, arith,
}
use raw_os.Bitmap.Laws.{IsValid, bit_of}
use raw_os.Paging.{
  zero_entry, Paging, Platform, write, table_of,
  is_page_part_of_kernel_stack_in_process_address_space,
}
use raw_os.Paging.Clean.{Sweep, clean_table}
use raw_os.Paging.Swept.{clean_entries-IsSwept}
use raw_os.Paging.Entries.{removed, Owns, IsSwept}
use raw_os.Paging.Removal.{on_stack, shows, frame_of, goes, OwnsPages, TableCleaned}
use raw_os.Paging.Marks.{
  frees_hit, frees_miss, none_stays, no_table_goes, drop_test, add_test, none_left, present_after,
  in_range, all_gone, is_zero, is_same, self_test, and_assoc, cleared_other, cleared_self,
}

module _ {M : Type 0} (s : Paging M) (d i : ℕ) where
  abbrev first_sweep : Sweep
  first_sweep = record {
    frames = s.available_frames;
    pages = s.page_tables (table_of s d i);
    should_table_be_destroyed = true;
  }

  first-Owns : OwnsPages s d 1 i → (table_of s d i == 0) ≡ false → Owns first_sweep 1024 0
  first-Owns owns some_table = record {
    valid = owns.valid;
    inside = λ k le lt p. owns.inside i k (omega arith) (omega arith) lt (rw (some_table, p) refl);
    in_use = λ k le lt p. owns.in_use i k (omega arith) (omega arith) lt (rw (some_table, p) refl);
    distinct = λ k l le kl lt p q e. omega (
      arith,
      kl,
      (owns.distinct i k i l (omega arith) (omega arith) (omega arith) (omega arith) (omega arith)
          lt (rw (some_table, p) refl) (rw (some_table, q) refl) e).1,
    );
  }

  empty-TableCleaned : OwnsPages s d 1 i → (table_of s d i == 0) ≡ true → TableCleaned s d i s
  empty-TableCleaned owns no_table = record {
    valid = owns.valid;
    frames_size = refl;
    gone = λ x lt. rw no_table refl;
    freed = λ x lt e. absurd (no_table_goes _ _ _ no_table e);
    kept = λ f none_has. refl;
    tables = λ k ne. refl;
    here = inr refl;
    pages = λ t x apart. refl;
  }

  module _ (owns : OwnsPages s d 1 i) (some_table : (table_of s d i == 0) ≡ false) (sweep : Sweep)
      (swept : IsSwept (i * 1024) first_sweep 1024 0 sweep) (s' : Paging M)
      (frames_eq : s'.available_frames ≡ sweep.frames)
      (pages_eq : s'.page_tables ≡ write s.page_tables (table_of s d i) sweep.pages)
      (tables : (k : ℕ) → k ≢ i → table_of s' d k ≡ table_of s d k)
      (here : (table_of s' d i ≡ 0) ⊎ (table_of s' d i ≡ table_of s d i))
      (destroyed : table_of s' d i ≡ 0 → sweep.should_table_be_destroyed ≡ true) where
    bits : (f : ℕ) → bit_of s'.available_frames f ≡ bit_of sweep.frames f
    bits f = ap (λ b. bit_of b f) frames_eq

    removed_if_it_goes :
        (x : ℕ) → goes s d i x ≡ true → removed (i * 1024) (s.page_tables (table_of s d i)) x ≡ true
    unfolding is_page_part_of_kernel_stack_in_process_address_space
    removed_if_it_goes x e = drop_test _ _ _ some_table e

    goes_if_removed :
        (x : ℕ) → removed (i * 1024) (s.page_tables (table_of s d i)) x ≡ true → goes s d i x ≡ true
    unfolding is_page_part_of_kernel_stack_in_process_address_space
    goes_if_removed x e = add_test _ _ _ some_table e

    other_table :
        (t x : ℕ)
        → (table_of s d i ≢ 0 → table_of s d i ≢ t)
        → write s.page_tables (table_of s d i) sweep.pages t x ≡ s.page_tables t x
    other_table t x apart = elim (Bool-cases (t == table_of s d i)) [
      | inl e ↦ absurd (apart (is_zero _ some_table) (is_same t _ e))
      | inr e ↦ rw e refl
    ]

    entry_after :
        (x : ℕ)
        → x < 1024
        → s'.page_tables (table_of s d i) x ≡ (
            if removed (i * 1024) (s.page_tables (table_of s d i)) x
            then zero_entry
            else s.page_tables (table_of s d i) x)
    entry_after x lt =
        ap (λ p. p (table_of s d i) x) pages_eq
        ∙ (rw (self_test (table_of s d i)) refl
            ∙ (swept.pages_eq x
                ∙ ap (λ b. if b then zero_entry else s.page_tables (table_of s d i) x)
                    (in_range x (removed (i * 1024) (s.page_tables (table_of s d i)) x) lt)))

    gone : (x : ℕ) → x < 1024 → shows s' d i x ≡ (shows s d i x && on_stack i x)
    unfolding is_page_part_of_kernel_stack_in_process_address_space
    gone x lt = elim here [
      | inl z ↦ rw z (
          none_left (table_of s d i == 0) (s.page_tables (table_of s d i) x).present (on_stack i x)
            (none_stays (i * 1024) (s.page_tables (table_of s d i)) 1024 0 x
              (all_gone _ _ (destroyed z) swept.destroyed) (omega arith) (omega arith)))
      | inr e ↦
          ap (λ t. not (t == 0) && (s'.page_tables t x).present) e
          ∙ (ap (λ p. not (table_of s d i == 0) && p.present) (entry_after x lt)
              ∙ (ap (λ b. not (table_of s d i == 0) && b)
                    (present_after (s.page_tables (table_of s d i) x) (on_stack i x))
                  ∙ and_assoc (not (table_of s d i == 0)) (s.page_tables (table_of s d i) x).present
                      (on_stack i x)))
    ]

    swept-TableCleaned : TableCleaned s d i s'
    swept-TableCleaned = record {
      valid = subst IsValid (sym frames_eq) swept.valid;
      frames_size = ap (λ b. b.size) frames_eq ∙ swept.frames_size;
      gone = gone;
      freed = λ x lt e.
          bits (frame_of s d i x)
          ∙ (swept.bits (frame_of s d i x)
              ∙ rw
                  (frees_hit (i * 1024) (s.page_tables (table_of s d i)) 1024 0 x (omega arith)
                    (omega arith) (removed_if_it_goes x e))
                  refl);
      kept = λ f none_has.
          bits f
          ∙ (swept.bits f
              ∙ rw
                  (frees_miss (i * 1024) (s.page_tables (table_of s d i)) 1024 0 f
                    (λ x le lt r. none_has x (omega arith) (goes_if_removed x r)))
                  refl);
      tables = tables;
      here = here;
      pages = λ t x apart. ap (λ p. p t x) pages_eq ∙ other_table t x apart;
    }

module _ {M : Type 0} (platform : Platform M) where
  abbrev swept_state : Paging M → ℕ → ℕ → Sweep → Paging M
  swept_state s d i sweep = record s {
    available_frames = sweep.frames;
    page_tables = write s.page_tables (table_of s d i) sweep.pages;
  }

  abbrev destroyed_state : Paging M → ℕ → ℕ → Sweep → Paging M
  destroyed_state s d i sweep = record (swept_state s d i sweep) {
    machine = platform.kalloc_free s.machine (table_of s d i);
    directories = write s.directories d (record {
      tables = write (s.directories d).tables i 0;
      tables_x86_representation = write (s.directories d).tables_x86_representation i 0;
    });
  }

  pub clean_table-TableCleaned :
      (s : Paging M) (d i : ℕ)
      → OwnsPages s d 1 i
      → (s' : Paging M) × (clean_table platform d i s ≡ ok s') × TableCleaned s d i s'
  unfolding clean_table
  clean_table-TableCleaned s d i owns = elim (Bool-cases (table_of s d i == 0)) [
    | inl no_table ↦ (s, rw (clean_table, no_table), empty-TableCleaned s d i owns no_table)
    | inr some_table ↦
        let (sweep, e, swept) =
          clean_entries-IsSwept (i * 1024) 1024 0 (first_sweep s d i)
            (first-Owns s d i owns some_table) in
        elim (Bool-cases sweep.should_table_be_destroyed) [
          | inl destroyed ↦ (
            destroyed_state s d i sweep,
            rw (clean_table, some_table, e, destroyed) refl,
            swept-TableCleaned s d i owns some_table sweep swept (destroyed_state s d i sweep) refl
                refl
                (λ k ne.
                  cleared_other s.directories d i k
                    (write (s.directories d).tables_x86_representation i 0) ne)
                (inl (
                  cleared_self s.directories d i
                    (write (s.directories d).tables_x86_representation i 0)))
                (λ z. destroyed),
          )
          | inr stays_there ↦ (
            swept_state s d i sweep,
            rw (clean_table, some_table, e, stays_there) refl,
            swept-TableCleaned s d i owns some_table sweep swept (swept_state s d i sweep) refl refl
                (λ k ne. refl) (inr refl) (λ z. absurd (is_zero _ some_table z)),
          )
        ]
  ]
