-- ===== src/Gdt.antt =====
-- gdt.c: the segment descriptors and the task state segment.
pub mod Segments
mod Tests
use raw_os.Common.{ℕ, ◌+◌, ◌-◌, ◌*◌, ◌/◌, ◌%◌, ◌^◌, List, [], ◌∷◌}

pub record GdtEntry : Type 0 where
  pub segment_limit1 : ℕ
  pub base1 : ℕ
  pub base2 : ℕ
  pub accessed : ℕ
  pub readable : ℕ
  pub conforming : ℕ
  pub code : ℕ
  pub descriptor_type : ℕ
  pub descriptor_privilege_level : ℕ
  pub segment_present : ℕ
  pub segment_limit2 : ℕ
  pub avl : ℕ
  pub code_segment_64bit : ℕ
  pub default_operation_size : ℕ
  pub granularity : ℕ
  pub base3 : ℕ

unfoldable pub null_entry : GdtEntry
null_entry = record {
  segment_limit1 = 0;
  base1 = 0;
  base2 = 0;
  accessed = 0;
  readable = 0;
  conforming = 0;
  code = 0;
  descriptor_type = 0;
  descriptor_privilege_level = 0;
  segment_present = 0;
  segment_limit2 = 0;
  avl = 0;
  code_segment_64bit = 0;
  default_operation_size = 0;
  granularity = 0;
  base3 = 0;
}

-- The kernel's code and data.
unfoldable pub kernel_code_entry : GdtEntry
kernel_code_entry = record {
  segment_limit1 = 0xFFFF;
  base1 = 0;
  base2 = 0;
  accessed = 0;
  readable = 1;
  conforming = 0;
  code = 1;
  descriptor_type = 1;
  descriptor_privilege_level = 0b00;
  segment_present = 1;
  segment_limit2 = 0b1111;
  avl = 0;
  code_segment_64bit = 0;
  default_operation_size = 1;
  granularity = 1;
  base3 = 0;
}

unfoldable pub kernel_data_entry : GdtEntry
kernel_data_entry = record {
  segment_limit1 = 0xFFFF;
  base1 = 0;
  base2 = 0;
  accessed = 0;
  readable = 1;
  conforming = 0;
  code = 0;
  descriptor_type = 1;
  descriptor_privilege_level = 0b00;
  segment_present = 1;
  segment_limit2 = 0b1111;
  avl = 0;
  code_segment_64bit = 0;
  default_operation_size = 1;
  granularity = 1;
  base3 = 0;
}

-- The processes' code and data.
unfoldable pub user_code_entry : GdtEntry
user_code_entry = record {
  segment_limit1 = 0xFFFF;
  base1 = 0;
  base2 = 0;
  accessed = 0;
  readable = 1;
  conforming = 0;
  code = 1;
  descriptor_type = 1;
  descriptor_privilege_level = 0b11;
  segment_present = 1;
  segment_limit2 = 0b1111;
  avl = 0;
  code_segment_64bit = 0;
  default_operation_size = 1;
  granularity = 1;
  base3 = 0;
}

unfoldable pub user_data_entry : GdtEntry
user_data_entry = record {
  segment_limit1 = 0xFFFF;
  base1 = 0;
  base2 = 0;
  accessed = 0;
  readable = 1;
  conforming = 0;
  code = 0;
  descriptor_type = 1;
  descriptor_privilege_level = 0b11;
  segment_present = 1;
  segment_limit2 = 0b1111;
  avl = 0;
  code_segment_64bit = 0;
  default_operation_size = 1;
  granularity = 1;
  base3 = 0;
}

abbrev pub tss_len : ℕ
tss_len = 104

-- `tss_base` is the address of the task state segment.
unfoldable pub tss_gdt_entry : ℕ → GdtEntry
tss_gdt_entry tss_base =
    let tss_limit = (tss_base + tss_len) % 2 ^ 32 in
    record {
      segment_limit1 = tss_limit % 2 ^ 16;
      base1 = tss_base % 2 ^ 16;
      base2 = tss_base / 2 ^ 16 % 2 ^ 8;
      accessed = 1;
      readable = 0;
      conforming = 0;
      code = 1;
      descriptor_type = 0;
      descriptor_privilege_level = 0b11;
      segment_present = 1;
      segment_limit2 = tss_limit / 2 ^ 16 % 2 ^ 4;
      avl = 0;
      code_segment_64bit = 0;
      default_operation_size = 1;
      granularity = 1;
      base3 = tss_base / 2 ^ 24 % 2 ^ 8;
    }

-- The fields of the task state segment that are not 0.
pub record TssEntry : Type 0 where
  pub esp0 : ℕ
  pub ss0 : ℕ
  pub cs : ℕ
  pub ss : ℕ
  pub ds : ℕ
  pub es : ℕ
  pub fs : ℕ
  pub gs : ℕ

pub record Gdt : Type 0 where
  pub entries : List GdtEntry
  pub tss_entry : TssEntry
  pub limit : ℕ
  pub base : ℕ

-- `gdt_entries` is the address of the table.
unfoldable pub gdt_init : ℕ → ℕ → Gdt
gdt_init tss_base gdt_entries = record {
  entries =
      null_entry
      ∷ kernel_code_entry
      ∷ kernel_data_entry
      ∷ user_code_entry
      ∷ user_data_entry
      ∷ tss_gdt_entry tss_base
      ∷ [];
  tss_entry = record {
    esp0 = 0xF0000000;
    ss0 = 0x10;
    cs = 0x0b;
    ss = 0x13;
    ds = 0x13;
    es = 0x13;
    fs = 0x13;
    gs = 0x13;
  };
  limit = 8 * 6 - 1;
  base = gdt_entries;
}
