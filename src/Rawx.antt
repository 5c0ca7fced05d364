-- ===== src/Rawx.antt =====
-- rawx.c: loading the sections of a program. The creation of a page is a parameter, which panics
-- where the code does; the memory is the bytes at the virtual addresses of the process, the file a
-- function from its offsets.
pub mod Sections
mod Tests
use raw_os.Common.{
  ℕ, zero, suc, ◌+◌, ◌-◌, ◌*◌, ◌/◌, ◌%◌, ◌^◌, min, Bool, Outcome, ok, assert, ◌>>=◌, ◌>>◌, ltb, leb,
  ◌&&◌, ◌==◌, if◌then◌else◌,
}

pub record RawxSection : Type 0 where
  pub size_bytes : ℕ
  pub virtual_address : ℕ
  pub file_ptr_to_data : ℕ

-- The pages that exist, in a state `S`, and the bytes.
pub record Space (S : Type 0) : Type 0 where
  pub pages : S
  pub memory : ℕ → ℕ

-- `memcpy` from a buffer to virtual addresses.
unfoldable pub copy_bytes : (ℕ → ℕ) → ℕ → (ℕ → ℕ) → ℕ → ℕ → ℕ
copy_bytes memory target source size address =
    if leb target address && ltb address (target + size)
    then source (address - target)
    else memory address

-- 0xC0000000 less 2048 pages for the stack and 2048 pages for the imports.
abbrev pub section_address_maximum : ℕ
section_address_maximum = 0xC0000000 - 2048 * 0x1000 - 2048 * 0x1000

module _ {S : Type 0} (create_page : S → ℕ → Outcome S) where
  -- The loop over the pages of a section, from the offset `i` on, with `left` rounds to go.
  unfoldable pub copy_section : ℕ → (ℕ → ℕ) → ℕ → ℕ → ℕ → Space S → Outcome (Space S)
  copy_section section_address section_data size_bytes zero i s = ok s
  copy_section section_address section_data size_bytes (suc left) i s =
      let target_address = section_address + i in
      let data_chunk_size = min 0x1000 (size_bytes - i) in
      create_page s.pages (target_address / 0x1000) >>= λ pages.
      copy_section section_address section_data size_bytes left (i + 0x1000) (record {
        pages = pages;
        memory = copy_bytes s.memory target_address section_data data_chunk_size;
      })

  -- A section of code or data: the checks of its address, and the loop, which takes a round for
  -- each page that the section begins.
  unfoldable pub load_section : (ℕ → ℕ) → ℕ → RawxSection → Space S → Outcome (Space S)
  load_section file load_address sec s =
      let section_address = (load_address + sec.virtual_address) % 2 ^ 32 in
      assert (section_address % 0x1000 == 0)
      >> (assert (ltb ((section_address + sec.size_bytes) % 2 ^ 32) section_address_maximum)
          >> copy_section section_address (λ k. file (sec.file_ptr_to_data + k)) sec.size_bytes
              ((sec.size_bytes + 0xFFF) / 0x1000) 0 s)
