-- ===== src/Paging/Clone.antt =====
-- paging_clone_page_directory_for_new_process (paging.c).
use raw_os.Common.{
  ℕ, zero, suc, ◌+◌, ◌*◌, ◌^◌, bit_or, true, Outcome, ok, ◌>>=◌, ◌==◌, if◌then◌else◌,
}
use raw_os.Frames.{take_frame}
use raw_os.Paging.{
  zero_entry, PageDirectory, Paging, Platform, write, table_of, set_entry,
  get_physical_address_of_virtual_address,
}

-- The second loop links the tables of the first gigabyte, from the index `i` on.
unfoldable pub link_tables : ℕ → ℕ → PageDirectory → PageDirectory → PageDirectory
link_tables zero i source cloned = cloned
link_tables (suc left) i source cloned = link_tables left (i + 1) source (
    if source.tables i == 0 then cloned else record {
      tables = write cloned.tables i (source.tables i);
      tables_x86_representation =
          write cloned.tables_x86_representation i (source.tables_x86_representation i);
    })

module _ {M : Type 0} (platform : Platform M) where
  -- The body of the inner loop: a present page gets a new frame with the same bytes.
  unfoldable pub copy_page : ℕ → ℕ → ℕ → Paging M → Outcome (Paging M)
  copy_page source target j s =
      let entry = s.page_tables source j in
      if entry.present
      then (take_frame s.available_frames >>= λ taken. ok (record s {
        machine =
            platform.paging_copy_frame s.machine (taken.0 * 0x1000)
              (entry.frame_address_20_bits * 2 ^ 12);
        available_frames = taken.1;
        page_tables =
            set_entry s.page_tables target j
              (record entry { frame_address_20_bits = taken.0; user_mode = true });
      }))
      else ok s

  -- The inner loop from the entry `j`, with `left` rounds to go.
  unfoldable pub copy_pages : ℕ → ℕ → ℕ → ℕ → Paging M → Outcome (Paging M)
  copy_pages source target zero j s = ok s
  copy_pages source target (suc left) j s =
      copy_page source target j s >>= copy_pages source target left (j + 1)

  -- The body of the first loop over the tables.
  unfoldable pub copy_table : ℕ → ℕ → ℕ → Paging M → Outcome (Paging M)
  copy_table directory cloned i s =
      if table_of s directory i == 0
      then ok s
      else (platform.kalloc_alloc_aligned s 4096 0x1000 >>= λ allocated.
          let target = allocated.0 in
          let cleared : Paging M = record (allocated.1) {
            page_tables = write (allocated.1).page_tables target (λ j. zero_entry);
          } in
          copy_pages (table_of cleared directory i) target 1024 0 cleared >>= λ copied.
          get_physical_address_of_virtual_address copied copied.kernel_page_directory target
          >>= λ address.
              let old = copied.directories cloned in
              ok (record copied {
                directories = write copied.directories cloned (record {
                  tables = write old.tables i target;
                  tables_x86_representation =
                      write old.tables_x86_representation i (bit_or address 0x7);
                });
              }))

  unfoldable pub copy_tables : ℕ → ℕ → ℕ → ℕ → Paging M → Outcome (Paging M)
  copy_tables directory cloned zero i s = ok s
  copy_tables directory cloned (suc left) i s =
      copy_table directory cloned i s >>= copy_tables directory cloned left (i + 1)

  -- The address of the new directory, and the state.
  unfoldable pub paging_clone_page_directory_for_new_process : ℕ → Paging M → Outcome (ℕ × Paging M)
  paging_clone_page_directory_for_new_process directory s =
      platform.kalloc_alloc_aligned s 8192 0x1000 >>= λ allocated.
      let cloned = allocated.0 in
      let cleared : Paging M = record (allocated.1) {
        directories =
            write (allocated.1).directories cloned
              (record { tables = λ i. 0; tables_x86_representation = λ i. 0 });
      } in
      copy_tables directory cloned 768 256 cleared >>= λ copied. ok (
        cloned,
        record copied {
          directories =
              write copied.directories cloned
                (link_tables 256 0 (copied.directories directory) (copied.directories cloned));
        },
      )
