-- ===== src/Gdt/Tests.antt =====
-- Examples for gdt.c: the task state segment is at 0x123450.
use raw_os.Common.{◌≡◌, ◌≢◌, arith}
use raw_os.Gdt.{tss_gdt_entry}
use raw_os.Gdt.Segments.{raw_limit, tss_gdt_entry-limit}

tss_gdt_entry-limit_example :
    (raw_limit (tss_gdt_entry 0x123450) ≡ 0x234b8) × (raw_limit (tss_gdt_entry 0x123450) ≢ 103)
tss_gdt_entry-limit_example = tss_gdt_entry-limit 0x123450 (omega arith) (omega arith)
