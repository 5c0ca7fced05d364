-- ===== src/Process/Tables.antt =====
-- process_link_kernel_table_to_all_address_spaces (process.c): the loop over the processes.
use raw_os.Common.{
  Bool, false, not, ◌&&◌, ◌||◌, List, [], ◌∷◌, length, ◌≡◌, sym, ◌∙◌, ◌≤◌, arith, Outcome, ok,
  assert, ◌>>◌, ℕ, zero, suc, Option, none, some, ◌==◌, if◌then◌else◌,
}
use raw_os.Process.{Process}
use raw_os.Process.Ring.{Fresh, Chain, Ring}
use raw_os.Process.Queue.{eqb_refl, neb}

-- The addresses and the representations of the page tables of all page directories.
pub record Tables : Type 0 where
  pub tables : ℕ → ℕ → ℕ
  pub tables_x86_representation : ℕ → ℕ → ℕ

abbrev pub set_entry : (ℕ → ℕ → ℕ) → ℕ → ℕ → ℕ → ℕ → ℕ → ℕ
set_entry tables directory index value d i =
    if d == directory then (if i == index then value else tables d i) else tables d i

-- The body of the do-while loop for the process `current`, at most `fuel` times.
unfoldable pub link_from : ℕ → (ℕ → Process) → ℕ → ℕ → ℕ → ℕ → ℕ → Tables → Option Tables
link_from zero heap active current address index representation t = none
link_from (suc fuel) heap active current address index representation t =
    let directory = (heap current).page_directory in
    let t' : Tables = record {
      tables = set_entry t.tables directory index address;
      tables_x86_representation =
          set_entry t.tables_x86_representation directory index representation;
    } in
    let rest = link_from fuel heap active (heap current).next address index representation t' in
    if (heap current).next == active then some t' else rest

-- The loop takes at most `fuel` rounds; it stops in `panic` if there is no process.
unfoldable pub process_link_kernel_table_to_all_address_spaces :
    ℕ → (ℕ → Process) → ℕ → ℕ → ℕ → ℕ → Tables → Outcome (Option Tables)
process_link_kernel_table_to_all_address_spaces fuel heap active address index representation t =
    assert (not (active == 0))
    >> ok (link_from fuel heap active active address index representation t)

-- Some process of the list has the page directory.
abbrev pub has_directory : (ℕ → Process) → List ℕ → ℕ → Bool
has_directory heap [] d = false
has_directory heap (p ∷ ps) d = (d == (heap p).page_directory) || has_directory heap ps d

module _ (heap : ℕ → Process) (a address index representation : ℕ) where
  abbrev Linked : Tables → List ℕ → Tables → Type 0
  Linked t ps t' =
      (d i : ℕ)
      → (t'.tables d i
          ≡ (if has_directory heap ps d && (i == index) then address else t.tables d i))
        × (t'.tables_x86_representation d i ≡ (
            if has_directory heap ps d && (i == index)
            then representation
            else t.tables_x86_representation d i))

  abbrev linked_one : Tables → ℕ → Tables
  linked_one t c = record {
    tables = set_entry t.tables (heap c).page_directory index address;
    tables_x86_representation =
        set_entry t.tables_x86_representation (heap c).page_directory index representation;
  }

  entry-or :
      (table : ℕ → ℕ → ℕ) (dir value d i : ℕ) (among : Bool)
      → (if among && (i == index) then value else set_entry table dir index value d i)
        ≡ (if ((d == dir) || among) && (i == index) then value else table d i)
  entry-or table dir value d i among = ground arith

  link_from-Linked :
      (c : ℕ) (qs : List ℕ) (fuel : ℕ) (t : Tables)
      → Chain heap c qs a
      → Fresh a qs
      → length qs ≤ fuel
      → (t' : Tables) × (link_from (suc fuel) heap a c address index representation t ≡ some t')
        × Linked t (c ∷ qs) t'
  unfolding link_from
  link_from-Linked c [] fuel t (n, p) f le = (
    linked_one t c,
    rw (link_from, n, eqb_refl a),
    λ d i. (
      entry-or t.tables (heap c).page_directory address d i false,
      entry-or t.tables_x86_representation (heap c).page_directory representation d i false,
    ),
  )
  link_from-Linked c (q ∷ qs) zero t ch f le = absurd (omega (arith, le))
  link_from-Linked c (q ∷ qs) (suc fuel) t ((n, p), ch) (ne, f) le =
      let (t', e, linked) = link_from-Linked q qs fuel (linked_one t c) ch f (omega (arith, le)) in
      (
        t',
        rw (link_from, n, neb q a (λ x. ne (sym x))) e,
        λ d i. (
          (linked d i).0
              ∙ entry-or t.tables (heap c).page_directory address d i
                  (has_directory heap (q ∷ qs) d),
          (linked d i).1
              ∙ entry-or t.tables_x86_representation (heap c).page_directory representation d i
                  (has_directory heap (q ∷ qs) d),
        ),
      )

-- For processes that are linked into a ring, the loop ends after one round for each, and then the page directories of all the
-- processes, and no others, have the address and the representation at the index; their other
-- entries are as they were.
pub process_link_kernel_table-all :
    (heap : ℕ → Process) (a : ℕ) (ps : List ℕ) (fuel address index representation : ℕ) (t : Tables)
    (d i : ℕ)
    → Ring heap (a ∷ ps)
    → length (a ∷ ps) ≤ fuel
    → (t' : Tables) × (process_link_kernel_table_to_all_address_spaces fuel heap a address index
          representation t
        ≡ ok (some t'))
      × (t'.tables d i
          ≡ (if has_directory heap (a ∷ ps) d && (i == index) then address else t.tables d i))
      × (t'.tables_x86_representation d i ≡ (
          if has_directory heap (a ∷ ps) d && (i == index)
          then representation
          else t.tables_x86_representation d i))
unfolding process_link_kernel_table_to_all_address_spaces
process_link_kernel_table-all heap a ps zero address index representation t d i r le =
    absurd (omega (arith, le))
process_link_kernel_table-all heap a ps (suc fuel) address index representation t d i
      (ch, (f, ds), (za, zs)) le =
    let (t', e, linked) =
      link_from-Linked heap a address index representation a ps fuel t ch f (omega (arith, le)) in
    (
      t',
      rw (process_link_kernel_table_to_all_address_spaces, neb a 0 (λ x. za (sym x)), e),
      (linked d i).0,
      (linked d i).1,
    )
