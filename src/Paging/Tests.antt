-- ===== src/Paging/Tests.antt =====
-- Examples for paging.c: a directory with one table, at 0x5000, for the first 4 MB above 1 GB.
use raw_os.Common.{
  ℕ, zero, suc, ◌+◌, ◌*◌, ◌%◌, ◌^◌, ◌<◌, ◌≡◌, refl, true, [], ◌∷◌, some, get_elem?, ok, Returns,
  ◌==◌, if◌then◌else◌, arith,
}
use raw_os.Bitmap.{Bitmap}
use raw_os.Bitmap.Laws.{IsValid}
use raw_os.Paging.{
  PageEntry, zero_entry, Paging, Platform, write, get_physical_address_of_virtual_address,
  page_exist, paging_create_process_page_with_any_frame,
}
use raw_os.Paging.Create.{IsMapped, paging_create_process_page-IsMapped}

-- Frames 0 to 9 are in use, and so is frame 12.
abbrev frames : Bitmap
frames = record { bytes = 0xff ∷ 0b00010011 ∷ []; size = 2 }

frames-IsValid : IsValid frames
frames-IsValid = record { has_size = refl; no_wrap = omega arith; are_bytes = bytes }
  where
    bytes : (i v : ℕ) → get_elem? frames.bytes i ≡ some v → v < 256
    bytes zero v e = ground arith
    bytes (suc zero) v e = ground arith
    bytes (suc (suc i)) v e = ground arith

abbrev page : ℕ → PageEntry
page frame = record zero_entry { present = true; writable = true; frame_address_20_bits = frame }

abbrev pages : ℕ → PageEntry
pages k = if k == 0 then page 3 else if k == 1 then page 8 else zero_entry

-- The machine is the bytes of its memory.
abbrev plain : Platform (ℕ → ℕ)
plain = record {
  kalloc_alloc_aligned = λ s size alignment. ok (0x9000, s);
  kalloc_free = λ m address. m;
  paging_copy_frame = λ m target source. m;
  read_byte = λ m address. m address;
  write_byte = λ m address value. write m address value;
}

abbrev small : Paging (ℕ → ℕ)
small = record {
  machine = λ address. 0;
  available_frames = frames;
  kernel_page_directory = 0x1000;
  directories = λ d. record {
    tables = λ i. if i == 256 then 0x5000 else 0;
    tables_x86_representation = λ i. 0;
  };
  page_tables = λ t k. pages k;
}

paging_create_process_page-IsMapped_example :
    Returns (paging_create_process_page_with_any_frame plain small 0x2000 262149 true) λ r.
      IsMapped small 0x5000 5 true r
      × (page_exist (r.1) 0x2000 262149 ≡ true)
      × (get_physical_address_of_virtual_address (r.1) 0x2000 (262149 * 4096 + 7)
          ≡ ok ((r.0 * 4096 + 7) % 2 ^ 32))
paging_create_process_page-IsMapped_example =
    paging_create_process_page-IsMapped plain small 0x2000 262149 13 7 true (λ e. ground (arith, e))
      refl frames-IsValid (omega arith) refl refl (omega arith)
