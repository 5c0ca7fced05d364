-- ===== src/Paging/Tables.antt =====
-- The loop over the tables of a process's directory.
use mathlib.Core.Path.{subst}
use raw_os.Common.{
  ℕ, suc, ◌+◌, ◌≤◌, ◌<◌, ◌≡◌, ◌≢◌, refl, sym, ap, ◌∙◌, true, false, ◌&&◌, Bool-cases, inl, inr,
  eq_or_lt, ◌==◌, arith,
}
use raw_os.Bitmap.Laws.{bit_of}
use raw_os.Paging.{Paging, table_of}
use raw_os.Paging.Removal.{
  on_stack, shows, frame_of, goes, OwnsPages, TableCleaned, IsCleaned, keeps, keeps-shows,
  keeps-goes, shows_if_it_goes,
}

module _ {M : Type 0} (s s1 : Paging M) (d n i : ℕ) (owns : OwnsPages s d (suc n) i)
    (a : TableCleaned s d i s1) where
  table_same : (k : ℕ) → i + 1 ≤ k → k < i + suc n → table_of s1 d k ≡ table_of s d k
  table_same k le lt = (keeps s s1 d i n k 0 owns a le lt).0

  frame_same : (k x : ℕ) → i + 1 ≤ k → k < i + suc n → frame_of s1 d k x ≡ frame_of s d k x
  frame_same k x le lt = ap (λ p. p.frame_address_20_bits) (keeps s s1 d i n k x owns a le lt).1

  shown_before :
      (k x : ℕ) → i + 1 ≤ k → k < i + suc n → shows s1 d k x ≡ true → shows s d k x ≡ true
  shown_before k x le lt e = sym (keeps-shows s s1 d k x (keeps s s1 d i n k x owns a le lt)) ∙ e

  -- The pages of the tables behind the swept one keep their frames.
  pub OwnsPages-next : OwnsPages s1 d n (i + 1)
  OwnsPages-next = record {
    valid = a.valid;
    separate = λ k l le kl lt some_table e.
        owns.separate k l (omega arith) kl (omega arith)
          (λ z. some_table (table_same k le (omega arith) ∙ z))
          (sym (table_same k le (omega arith)) ∙ (e ∙ table_same l (omega arith) (omega arith)));
    inside = λ k x le lt lx e. omega (
      arith,
      frame_same k x le (omega arith),
      a.frames_size,
      owns.inside k x (omega arith) (omega arith) lx (shown_before k x le (omega arith) e),
    );
    in_use = λ k x le lt lx e.
        let before = shown_before k x le (omega arith) e in
        ap (bit_of s1.available_frames) (frame_same k x le (omega arith))
        ∙ (a.kept (frame_of s d k x) (λ y ly g f. absurd (
              omega (
                arith,
                le,
                (owns.distinct i y k x (omega arith) (omega arith) ly (omega arith) (omega arith) lx
                    (shows_if_it_goes s d i y g) before f).0,
              )))
            ∙ owns.in_use k x (omega arith) (omega arith) lx before);
    distinct = λ k x l y le lt lx le' lt' ly e e' f.
        owns.distinct k x l y (omega arith) (omega arith) lx (omega arith) (omega arith) ly
          (shown_before k x le (omega arith) e) (shown_before l y le' (omega arith) e')
          (sym (frame_same k x le (omega arith)) ∙ (f ∙ frame_same l y le' (omega arith)));
  }

  module _ (s2 : Paging M) (b : IsCleaned s1 d n (i + 1) s2) where
    -- The rest of the loop does not touch the swept table.
    same_entry :
        (x : ℕ)
        → table_of s1 d i ≡ table_of s d i
        → table_of s1 d i ≢ 0
        → s2.page_tables (table_of s1 d i) x ≡ s1.page_tables (table_of s1 d i) x
    same_entry x e some_table = b.pages (table_of s1 d i) x λ k le lt nz q.
        owns.separate i k (omega arith) (omega arith) (omega arith) (λ z. some_table (e ∙ z))
          (sym e ∙ (sym q ∙ table_same k le (omega arith)))

    shows_same : (x : ℕ) → shows s2 d i x ≡ shows s1 d i x
    shows_same x = elim (Bool-cases (table_of s1 d i == 0)) [
      | inl z ↦ rw (b.tables i (omega arith), z) refl
      | inr nz ↦ elim a.here [
        | inl z ↦ absurd (ground (arith, nz, z))
        | inr e ↦ rw (b.tables i (omega arith), same_entry x e (ground (arith, nz))) refl
      ]
    ]

    here_freed :
        (x : ℕ)
        → x < 1024
        → goes s d i x ≡ true
        → bit_of s2.available_frames (frame_of s d i x) ≡ false
    here_freed x lx e =
        b.kept (frame_of s d i x) (λ k y le lt ly g f. absurd (
          omega (
            arith,
            le,
            (owns.distinct k y i x (omega arith) (omega arith) ly (omega arith) (omega arith) lx
                (shown_before k y le (omega arith) (shows_if_it_goes s1 d k y g))
                (shows_if_it_goes s d i x e) (sym (frame_same k y le (omega arith)) ∙ f)).0,
          )))
        ∙ a.freed x lx e

    pub IsCleaned-next : IsCleaned s d (suc n) i s2
    IsCleaned-next = record {
      valid = b.valid;
      frames_size = b.frames_size ∙ a.frames_size;
      gone = λ k x le lt lx. elim (eq_or_lt i k le) [
        | inl same ↦
            subst (λ m. shows s2 d m x ≡ (shows s d m x && on_stack m x)) same
              (shows_same x ∙ a.gone x lx)
        | inr l ↦
            b.gone k x (omega arith) (omega arith) lx
            ∙ ap (λ t. t && on_stack k x)
                (keeps-shows s s1 d k x (keeps s s1 d i n k x owns a (omega arith) lt))
      ];
      freed = λ k x le lt lx e. elim (eq_or_lt i k le) [
        | inl same ↦
            subst (λ m. goes s d m x ≡ true → bit_of s2.available_frames (frame_of s d m x) ≡ false)
              same (here_freed x lx) e
        | inr l ↦
            ap (bit_of s2.available_frames) (sym (frame_same k x (omega arith) lt))
            ∙ b.freed k x (omega arith) (omega arith) lx
                (keeps-goes s s1 d k x (keeps s s1 d i n k x owns a (omega arith) lt) ∙ e)
      ];
      kept = λ f none_has.
          b.kept f (λ k x le lt lx g q.
            none_has k x (omega arith) (omega arith) lx
              (sym (keeps-goes s s1 d k x (keeps s s1 d i n k x owns a le (omega arith))) ∙ g)
              (sym (frame_same k x le (omega arith)) ∙ q))
          ∙ a.kept f (λ x lx g. none_has i x (omega arith) (omega arith) lx g);
      tables = λ k lt. b.tables k (omega arith) ∙ a.tables k (omega arith);
      pages = λ t x apart.
          b.pages t x (λ k le lt nz e.
            apart k (omega arith) (omega arith) (λ z. nz (table_same k le (omega arith) ∙ z))
              (sym (table_same k le (omega arith)) ∙ e))
          ∙ a.pages t x (apart i (omega arith) (omega arith));
    }
