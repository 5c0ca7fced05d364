-- ===== src/Gdt/Segments.antt =====
-- The limit that the processor reads from the descriptor of the task state segment.
use raw_os.Common.{ℕ, ◌+◌, ◌-◌, ◌*◌, ◌/◌, ◌%◌, ◌^◌, ◌<◌, ◌≡◌, ◌≢◌, arith}
use raw_os.Gdt.{GdtEntry, tss_len, tss_gdt_entry}

-- The limit as it stands in a descriptor, in two parts.
abbrev pub raw_limit : GdtEntry → ℕ
raw_limit e = e.segment_limit1 + e.segment_limit2 * 2 ^ 16

-- The limit in the descriptor of the task state segment is the low 20 bits of the address of the
-- segment's end, and not the segment's length less one, where that address has a bit set among the
-- bits 12 to 19.
pub tss_gdt_entry-limit :
    (tss_base : ℕ)
    → tss_base + tss_len < 2 ^ 32
    → 0 < (tss_base + tss_len) / 2 ^ 12 % 2 ^ 8
    → (raw_limit (tss_gdt_entry tss_base) ≡ (tss_base + tss_len) % 2 ^ 20)
      × (raw_limit (tss_gdt_entry tss_base) ≢ tss_len - 1)
unfolding tss_gdt_entry
tss_gdt_entry-limit tss_base lt pages = (omega arith, λ e. omega arith)
