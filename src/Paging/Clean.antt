-- ===== src/Paging/Clean.antt =====
-- paging_clean_all_non_kernel_pages_from_page_directory (paging.c).
use raw_os.Common.{
  ℕ, zero, suc, ◌+◌, ◌*◌, Bool, true, false, not, Outcome, ok, assert, ◌>>=◌, ◌>>◌, ◌==◌,
  if◌then◌else◌,
}
use raw_os.Bitmap.{Bitmap, bitmap_get, bitmap_clear}
use raw_os.Paging.{
  PageEntry, zero_entry, Paging, Platform, write, table_of,
  is_page_part_of_kernel_stack_in_process_address_space,
}

-- The frames, the entries of a table, and `should_table_be_destroyed`.
pub record Sweep : Type 0 where
  pub frames : Bitmap
  pub pages : ℕ → PageEntry
  pub should_table_be_destroyed : Bool

-- The body of the inner loop for the entry `j`; the table's first page is `first`.
unfoldable pub clean_entry : ℕ → ℕ → Sweep → Outcome Sweep
clean_entry first j s =
    let frame = (s.pages j).frame_address_20_bits in
    if (s.pages j).present
    then (bitmap_get s.frames frame >>= λ bit.
        assert (not (bit == 0))
        >> (if is_page_part_of_kernel_stack_in_process_address_space (first + j)
            then ok (record s { should_table_be_destroyed = false })
            else (bitmap_clear s.frames frame >>= λ frames.
                ok (record s { frames = frames; pages = write s.pages j zero_entry }))))
    else ok s

-- The inner loop from the entry `j`, with `left` rounds to go.
unfoldable pub clean_entries : ℕ → ℕ → ℕ → Sweep → Outcome Sweep
clean_entries first zero j s = ok s
clean_entries first (suc left) j s = clean_entry first j s >>= clean_entries first left (j + 1)

module _ {M : Type 0} (platform : Platform M) where
  -- The body of the outer loop for the table `i` of the directory.
  unfoldable pub clean_table : ℕ → ℕ → Paging M → Outcome (Paging M)
  clean_table directory i s =
      let table = table_of s directory i in
      if table == 0
      then ok s
      else (clean_entries (i * 1024) 1024 0 (record {
        frames = s.available_frames;
        pages = s.page_tables table;
        should_table_be_destroyed = true;
      })
          >>= λ sweep.
              let swept : Paging M = record s {
                available_frames = sweep.frames;
                page_tables = write s.page_tables table sweep.pages;
              } in
              let old = s.directories directory in
              ok (
                if sweep.should_table_be_destroyed
                then record swept {
                  machine = platform.kalloc_free s.machine table;
                  directories = write s.directories directory (record {
                    tables = write old.tables i 0;
                    tables_x86_representation = write old.tables_x86_representation i 0;
                  });
                }
                else swept))

  -- The outer loop from the table `i`, with `left` rounds to go.
  unfoldable pub clean_tables : ℕ → ℕ → ℕ → Paging M → Outcome (Paging M)
  clean_tables directory zero i s = ok s
  clean_tables directory (suc left) i s =
      clean_table directory i s >>= clean_tables directory left (i + 1)

  unfoldable pub paging_clean_all_non_kernel_pages_from_page_directory :
      ℕ → Paging M → Outcome (Paging M)
  paging_clean_all_non_kernel_pages_from_page_directory directory s =
      clean_tables directory 768 256 s
