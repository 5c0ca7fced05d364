-- ===== src/Paging/Create.antt =====
-- Mapping a page of a process to a new frame, and translating its addresses.
use raw_os.Common.{
  ℕ, ◌+◌, ◌*◌, ◌/◌, ◌%◌, ◌^◌, ◌<◌, ◌≡◌, ◌≢◌, refl, ap, Bool, true, false, ◌&&◌, ok, panicked,
  Returns, Returns->>=, Returns-imp, ◌==◌, arith,
}
use raw_os.Bitmap.{Bitmap}
use raw_os.Bitmap.Laws.{IsValid, bit_of}
use raw_os.Frames.{take_frame}
use raw_os.Frames.Laws.{IsTaken, take_frame-IsTaken}
use raw_os.Paging.{
  PageEntry, Paging, Platform, set_entry, table_of, get_physical_address_of_virtual_address,
  page_exist, map_any_frame, paging_create_process_page_with_any_frame,
}

neb : (a b : ℕ) → a ≢ b → (a == b) ≡ false
neb a b e = ground arith

page_of : (p off : ℕ) → off < 4096 → (p * 4096 + off) / 4096 ≡ p
page_of p off lt = omega arith

offset_of : (p off : ℕ) → off < 4096 → (p * 4096 + off) % 4096 ≡ off
offset_of p off lt = omega arith

set_entry-at :
    (page_tables : ℕ → ℕ → PageEntry) (t k : ℕ) (e : PageEntry)
    → set_entry page_tables t k e t k ≡ e
set_entry-at page_tables t k e = rw (both t k)
  where
    both : (t k : ℕ) → (t == t && k == k) ≡ true
    both t k = ground arith

module _ {M : Type 0} where
  -- What a new page at an entry of a table promises: it has the least free frame, which is now in
  -- use; no other entry and no directory has changed.
  pub record IsMapped (s : Paging M) (address j : ℕ) (user : Bool) (r : ℕ × Paging M) : Type 0 where
    pub taken : IsTaken s.available_frames (r.0, (r.1).available_frames)
    pub is_present : ((r.1).page_tables address j).present ≡ true
    pub is_writable : ((r.1).page_tables address j).writable ≡ true
    pub has_mode : ((r.1).page_tables address j).user_mode ≡ user
    pub has_frame : ((r.1).page_tables address j).frame_address_20_bits ≡ r.0
    pub others :
        (t k : ℕ) → (t == address && k == j) ≡ false → (r.1).page_tables t k ≡ s.page_tables t k
    pub same_directories : (r.1).directories ≡ s.directories

  abbrev new_entry : Paging M → ℕ → ℕ → Bool → ℕ → PageEntry
  new_entry s address j user frame = record (s.page_tables address j) {
    present = true;
    user_mode = user;
    writable = true;
    frame_address_20_bits = frame;
  }

  mapped :
      (s : Paging M) (machine : M) (address j : ℕ) (user : Bool) (taken : ℕ × Bitmap)
      → IsTaken s.available_frames taken
      → IsMapped s address j user (
        taken.0,
        record s {
          machine = machine;
          available_frames = taken.1;
          page_tables = set_entry s.page_tables address j (new_entry s address j user (taken.0));
        },
      )
  mapped s machine address j user taken is_taken =
      let at = set_entry-at s.page_tables address j (new_entry s address j user (taken.0)) in
      record {
        taken = is_taken;
        is_present = ap (λ e. e.present) at;
        is_writable = ap (λ e. e.writable) at;
        has_mode = ap (λ e. e.user_mode) at;
        has_frame = ap (λ e. e.frame_address_20_bits) at;
        others = λ t k e. rw e;
        same_directories = refl;
      }

module _ {M : Type 0} (platform : Platform M) where
  map_any_frame-IsMapped :
      (s : Paging M) (address page_num free : ℕ) (user : Bool)
      → (s.page_tables address (page_num % 1024)).present ≡ false
      → IsValid s.available_frames
      → free < s.available_frames.size * 8
      → bit_of s.available_frames free ≡ false
      → platform.read_byte
          (platform.write_byte s.machine (page_num * 0x1000) 0xAB)
          (page_num * 0x1000)
        ≡ 0xAB
      → Returns
          (map_any_frame platform s address page_num user)
          (IsMapped s address (page_num % 1024) user)
  unfolding map_any_frame
  map_any_frame-IsMapped s address page_num free user absent valid lt bit byte =
      rw (map_any_frame, absent)
        (Returns->>= (take_frame s.available_frames) (IsTaken s.available_frames) _ _
          (take_frame-IsTaken s.available_frames free valid lt bit)
          λ taken is_taken. rw byte (
            mapped s (platform.write_byte s.machine (page_num * 0x1000) 0xAB) address
              (page_num % 1024) user taken is_taken))

  IsMapped-translated :
      (s : Paging M) (directory page_num offset : ℕ) (user : Bool) (r : ℕ × Paging M)
      → table_of s directory (page_num / 1024) ≢ 0
      → offset < 4096
      → IsMapped s (table_of s directory (page_num / 1024)) (page_num % 1024) user r
      → (page_exist (r.1) directory page_num ≡ true)
        × (get_physical_address_of_virtual_address (r.1) directory (page_num * 4096 + offset)
            ≡ ok ((r.0 * 4096 + offset) % 2 ^ 32))
  unfolding page_exist get_physical_address_of_virtual_address
  IsMapped-translated s directory page_num offset user r exists lt m =
      let same : table_of (r.1) directory (page_num / 1024)
          ≡ table_of s directory (page_num / 1024) =
        ap (λ d. (d directory).tables (page_num / 1024)) m.same_directories in
      (
        rw (page_exist, same, neb _ 0 exists) m.is_present,
        rw (
          get_physical_address_of_virtual_address,
          page_of page_num offset lt,
          offset_of page_num offset lt,
          same,
          neb _ 0 exists,
          m.has_frame,
        ),
      )

  -- If the directory has a table for the page, the page is not present, a frame is free and the
  -- first byte of the page can be written and read, creating the page returns the least free
  -- frame, which is then in use, and makes the page present, writable and of the mode asked for;
  -- no other entry of a table changes, and the addresses of the page lead to the frame.
  pub paging_create_process_page-IsMapped :
      (s : Paging M) (directory page_num free offset : ℕ) (user : Bool)
      → table_of s directory (page_num / 1024) ≢ 0
      → (s.page_tables (table_of s directory (page_num / 1024)) (page_num % 1024)).present ≡ false
      → IsValid s.available_frames
      → free < s.available_frames.size * 8
      → bit_of s.available_frames free ≡ false
      → platform.read_byte
          (platform.write_byte s.machine (page_num * 0x1000) 0xAB)
          (page_num * 0x1000)
        ≡ 0xAB
      → offset < 4096
      → Returns (paging_create_process_page_with_any_frame platform s directory page_num user) λ r.
        IsMapped s (table_of s directory (page_num / 1024)) (page_num % 1024) user r
        × (page_exist (r.1) directory page_num ≡ true)
        × (get_physical_address_of_virtual_address (r.1) directory (page_num * 4096 + offset)
            ≡ ok ((r.0 * 4096 + offset) % 2 ^ 32))
  unfolding paging_create_process_page_with_any_frame
  paging_create_process_page-IsMapped s directory page_num free offset user exists absent valid lt
        bit byte inside =
      rw (paging_create_process_page_with_any_frame, neb _ 0 exists)
        (Returns-imp
          (map_any_frame platform s (table_of s directory (page_num / 1024)) page_num user)
          (IsMapped s (table_of s directory (page_num / 1024)) (page_num % 1024) user) _
          (map_any_frame-IsMapped s (table_of s directory (page_num / 1024)) page_num free user
            absent valid lt bit byte)
          λ r m.
            let translated =
              IsMapped-translated s directory page_num offset user r exists inside m in
            (m, translated.0, translated.1))

  -- Creating a page that is present already stops in the assertion.
  pub paging_create_process_page-present :
      (s : Paging M) (directory page_num : ℕ) (user : Bool)
      → table_of s directory (page_num / 1024) ≢ 0
      → (s.page_tables (table_of s directory (page_num / 1024)) (page_num % 1024)).present ≡ true
      → paging_create_process_page_with_any_frame platform s directory page_num user ≡ panicked
  unfolding paging_create_process_page_with_any_frame map_any_frame
  paging_create_process_page-present s directory page_num user exists present =
      rw (paging_create_process_page_with_any_frame, neb _ 0 exists, map_any_frame, present)
