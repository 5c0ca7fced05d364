-- ===== src/Rawx/Tests.antt =====
-- An example for rawx.c: a section of 5000 bytes at 0x40001000.
use raw_os.Common.{
  ℕ, ◌+◌, ◌-◌, ◌%◌, ◌≡◌, refl, ◌&&◌, Outcome, ok, panicked, ◌==◌, ltb, leb, if◌then◌else◌, arith,
}
use raw_os.Rawx.{RawxSection, Space, load_section}
use raw_os.Rawx.Sections.{load_section-first_page}

abbrev section_at : RawxSection
section_at = record { size_bytes = 5000; virtual_address = 0x1000; file_ptr_to_data = 300 }

-- The state is the number of the first page that is not present; only this page can be created.
abbrev next_only : ℕ → ℕ → Outcome ℕ
next_only pages page_num = if page_num == pages then ok (pages + 1) else panicked

abbrev none_yet : Space ℕ
none_yet = record { pages = 0x40001; memory = λ address. 0 }

load_section-first_page_example :
    (s' : Space ℕ) × (load_section next_only (λ k. k % 256) 0x40000000 section_at none_yet ≡ ok s')
    × (s'.pages ≡ 0x40003)
    × (s'.memory 0x40002000 ≡ (
        if leb 0x40001000 0x40002000 && ltb 0x40002000 0x40002388
        then (300 + (0x40002000 - 0x40001000) % 4096) % 256
        else 0))
load_section-first_page_example =
    load_section-first_page next_only (λ k. k % 256) 0x40000000 0x40002000 section_at none_yet
      0x40003 refl (omega arith) refl
