-- ===== src/Syscall/Names.antt =====
-- The comparison of two names, and that the names of the calls differ.
use mathlib.Core.Path.{subst}
use raw_os.Common.{
  ℕ, zero, suc, ◌≡◌, refl, sym, ap, ◌∙◌, Bool, true, false, List, [], ◌∷◌, Option, none, some,
  if◌then◌else◌, ◌==◌,
}
use raw_os.CString.Laws.{IsText, same_text, same_text-eq, same_text_refl, strcmp-same_text}
use raw_os.HashMap.Probe.{IsLawful}
use raw_os.Syscall.{Text, syscall_stub_name_compare, syscall_stub_name, Call}

IsText-eq : (s : List ℕ) (p q : IsText s) → p ≡ q
IsText-eq [] p q = refl
IsText-eq (zero ∷ s) p q = absurd p
IsText-eq (suc c ∷ s) p q = IsText-eq s p q

Text-eq : (a b : Text) → a.bytes ≡ b.bytes → a ≡ b
Text-eq a b e =
    subst (λ t. (q : IsText t) → a ≡ record { bytes = t; is_text = q }) e
      (λ q. ap (λ p. record { bytes = a.bytes; is_text = p }) (IsText-eq a.bytes a.is_text q))
      b.is_text

zero_or_one : (b : Bool) → ((if b then 0 else 1) == 0) ≡ b
zero_or_one true = refl
zero_or_one false = refl

-- The comparison is that of the texts.
pub compare-same_text : (a b : Text) → syscall_stub_name_compare a b ≡ same_text a.bytes b.bytes
unfolding syscall_stub_name_compare
compare-same_text a b =
    rw (strcmp-same_text a.bytes b.bytes [] [] a.is_text b.is_text, syscall_stub_name_compare)
      (zero_or_one (same_text a.bytes b.bytes))

pub syscall_stub_name-IsLawful : IsLawful syscall_stub_name
unfolding syscall_stub_name
syscall_stub_name-IsLawful = record {
  compare_eq =
      λ a b e. Text-eq a b (same_text-eq a.bytes b.bytes (sym (compare-same_text a b) ∙ e));
  compare_refl = λ a. compare-same_text a a ∙ same_text_refl a.bytes;
}

-- The first call of the table with that name.
abbrev pub named : Text → List (List ℕ × Call) → Option Call
named q [] = none
named q ((name, c) ∷ table) = if same_text q.bytes name then some c else named q table

-- The names, as ASCII codes, and the calls that they stand for: print, exit, pos_cursor,
-- clear_screen, execve, fork, open, read, write and close.
abbrev pub stub_table : List (List ℕ × Call)
stub_table =
    (112 ∷ 114 ∷ 105 ∷ 110 ∷ 116 ∷ [], Call.syscall_print_stub)
    ∷ (101 ∷ 120 ∷ 105 ∷ 116 ∷ [], Call.syscall_exit_stub)
    ∷ (112 ∷ 111 ∷ 115 ∷ 95 ∷ 99 ∷ 117 ∷ 114 ∷ 115 ∷ 111 ∷ 114 ∷ [], Call.syscall_pos_cursor_stub)
    ∷ (
      99 ∷ 108 ∷ 101 ∷ 97 ∷ 114 ∷ 95 ∷ 115 ∷ 99 ∷ 114 ∷ 101 ∷ 101 ∷ 110 ∷ [],
      Call.syscall_clear_screen_stub,
    )
    ∷ (101 ∷ 120 ∷ 101 ∷ 99 ∷ 118 ∷ 101 ∷ [], Call.syscall_execve_stub)
    ∷ (102 ∷ 111 ∷ 114 ∷ 107 ∷ [], Call.syscall_fork_stub)
    ∷ (111 ∷ 112 ∷ 101 ∷ 110 ∷ [], Call.syscall_open_stub)
    ∷ (114 ∷ 101 ∷ 97 ∷ 100 ∷ [], Call.syscall_read_stub)
    ∷ (119 ∷ 114 ∷ 105 ∷ 116 ∷ 101 ∷ [], Call.syscall_write_stub)
    ∷ (99 ∷ 108 ∷ 111 ∷ 115 ∷ 101 ∷ [], Call.syscall_close_stub)
    ∷ []
