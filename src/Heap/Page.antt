-- ===== src/Heap/Page.antt =====
-- The bytes that expand (in kalloc_heap_alloc, alloc/kalloc_heap.c) writes.
use raw_os.Common.{ℕ, ◌+◌, ◌-◌, ◌^◌, ◌<◌, ◌≡◌, ◌∙◌, inl, inr, List, [], ◌∷◌, arith}
use raw_os.Heap.{
  Memory, size_at, used_at, set_size, set_used, set_header, set_header_magic, set_footer_magic,
}
use raw_os.Heap.Memory.{Framed, read_back, skip32, skip16, Framed-refl, inside32, inside16}
use raw_os.Heap.Layout.{Block, flag, place, Before, Before-Framed}
use raw_os.Heap.Focus.{Focus}

abbrev pub hole_in_page : Memory → ℕ → ℕ → Memory
hole_in_page m h f =
    set_header
      (set_footer_magic (set_used (set_size (set_header_magic m h) h (4096 - 12 - 8)) h 0) f) f h

-- A hole of one page behind the blocks.
pub page_hole-Focus :
    (m : Memory) (a : ℕ) (left : List Block)
    → Before m a left
    → place a left + 4096 < 2 ^ 32
    → let h = place a left in
      let m' = hole_in_page m h (h + 12 + 4076) in
      Focus m' a left 4076 [] (h + 4096) × (used_at m' h ≡ 0)
page_hole-Focus m a left before bound =
    let h = place a left in
    let f = h + 12 + 4076 in
    let m1 = set_header_magic m h in
    let m2 = set_size m1 h 4076 in
    let m3 = set_used m2 h 0 in
    let m4 = set_footer_magic m3 f in
    let m5 = set_header m4 f h in
    let inner : Framed m m5 h (h + 4096) =
      inside32 m m4 h (h + 4096) (f + 4) h (omega arith) (omega arith) (
        inside16 m m3 h (h + 4096) f 0xEF01 (omega arith) (omega arith) (
          inside32 m m2 h (h + 4096) (h + 8) 0 (omega arith) (omega arith) (
            inside32 m m1 h (h + 4096) (h + 4) 4076 (omega arith) (omega arith) (
              inside16 m m h (h + 4096) h 0xABCD (omega arith) (omega arith)
                (Framed-refl m h (h + 4096)))))) in
    (
      record {
        before = Before-Framed m m5 h (h + 4096) inner a left (omega arith) before;
        size =
            skip32 m4 (f + 4) h (h + 4) (inl (omega arith))
            ∙ (skip16 m3 f 0xEF01 (h + 4) (inl (omega arith))
                ∙ (skip32 m2 (h + 8) 0 (h + 4) (inl (omega arith))
                    ∙ read_back m1 (h + 4) 4076 (omega arith)));
        footer = read_back m4 (f + 4) h (omega (arith, bound));
        after = omega arith;
      },
      skip32 m4 (f + 4) h (h + 8) (inl (omega arith))
          ∙ (skip16 m3 f 0xEF01 (h + 8) (inl (omega arith)) ∙ read_back m2 (h + 8) 0 (omega arith)),
    )

-- The last hole, of `n` bytes, takes in the page behind it.
abbrev pub footer_moved : Memory → ℕ → ℕ → Memory
footer_moved m h f = set_header (set_footer_magic m f) f h

pub wider_hole-Focus :
    (m : Memory) (a : ℕ) (b : Block) (left : List Block)
    → Before m a (b ∷ left)
    → place a (b ∷ left) + 4096 < 2 ^ 32
    → let h = place a left in
      let m1 = footer_moved m h (h + 12 + (b.size + 4096)) in
      let m' = set_size m1 h (b.size + 4096) in
      (size_at m1 h ≡ b.size)
      × Focus m' a left (b.size + 4096) [] (place a (b ∷ left) + 4096)
      × (used_at m' h ≡ flag b.used)
wider_hole-Focus m a b left before bound =
    let h = place a left in
    let n = b.size + 4096 in
    let f = h + 12 + n in
    let m1 = set_footer_magic m f in
    let m2 = set_header m1 f h in
    let m3 = set_size m2 h n in
    let inner : Framed m m3 h (f + 8) =
      inside32 m m2 h (f + 8) (h + 4) n (omega arith) (omega arith) (
        inside32 m m1 h (f + 8) (f + 4) h (omega arith) (omega arith) (
          inside16 m m h (f + 8) f 0xEF01 (omega arith) (omega arith) (Framed-refl m h (f + 8)))) in
    (
      skip32 m1 (f + 4) h (h + 4) (inl (omega arith))
          ∙ (skip16 m f 0xEF01 (h + 4) (inl (omega arith)) ∙ before.0.size),
      record {
        before = Before-Framed m m3 h (f + 8) inner a left (omega arith) before.1;
        size = read_back m2 (h + 4) n (omega (arith, bound));
        footer =
            skip32 m2 (h + 4) n (f + 4) (inr (omega arith))
            ∙ read_back m1 (f + 4) h (omega (arith, bound));
        after = omega arith;
      },
      skip32 m2 (h + 4) n (h + 8) (inr (omega arith))
          ∙ (skip32 m1 (f + 4) h (h + 8) (inl (omega arith))
              ∙ (skip16 m f 0xEF01 (h + 8) (inl (omega arith)) ∙ before.0.used)),
    )
