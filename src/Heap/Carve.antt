-- ===== src/Heap/Carve.antt =====
-- The bytes that split_hole (in kalloc_heap_alloc, alloc/kalloc_heap.c) writes: a block and a hole
-- in the place of one hole.
use raw_os.Common.{ℕ, ◌+◌, ◌^◌, ◌≤◌, ◌<◌, ◌≡◌, sym, ◌∙◌, inl, true, false, List, ◌∷◌, arith}
use raw_os.Heap.{
  Memory, used_at, set_size, set_used, set_header, set_header_magic, set_footer_magic,
}
use raw_os.Heap.Memory.{
  Framed, Framed-trans, read_back, skip32, skip16, Framed-refl, inside32, inside16,
}
use raw_os.Heap.Layout.{
  Block, IsBlock, place, Layout-le, IsBlock-Framed, Layout-Framed, Before-Framed,
}
use raw_os.Heap.Focus.{Focus}

-- The header and the footer of the block.
abbrev pub block_written : Memory → ℕ → ℕ → Memory
block_written m h size =
    let f = h + 12 + size in set_header (set_footer_magic (set_used (set_size m h size) h 1) f) f h

-- The header of the hole, and the header's address in the footer that is there.
abbrev pub hole_written : Memory → ℕ → ℕ → ℕ → Memory
hole_written m h size f = set_header (set_used (set_size (set_header_magic m h) h size) h 0) f h

block_written-IsBlock :
    (m : Memory) (h size : ℕ)
    → h + 12 + size + 8 < 2 ^ 32
    → IsBlock (block_written m h size) h (record { size = size; used = true })
block_written-IsBlock m h size lt =
    let f = h + 12 + size in
    let m1 = set_size m h size in
    let m2 = set_used m1 h 1 in
    let m3 = set_footer_magic m2 f in
    record {
      size =
          skip32 m3 (f + 4) h (h + 4) (inl (omega arith))
          ∙ (skip16 m2 f 0xEF01 (h + 4) (inl (omega arith))
              ∙ (skip32 m1 (h + 8) 1 (h + 4) (inl (omega arith))
                  ∙ read_back m (h + 4) size (omega (arith, lt))));
      used =
          skip32 m3 (f + 4) h (h + 8) (inl (omega arith))
          ∙ (skip16 m2 f 0xEF01 (h + 8) (inl (omega arith)) ∙ read_back m1 (h + 8) 1 (omega arith));
      footer = read_back m3 (f + 4) h (omega (arith, lt));
    }

block_written-Framed :
    (m : Memory) (h size hi : ℕ) → h + 12 + size + 8 ≤ hi → Framed m (block_written m h size) h hi
block_written-Framed m h size hi le =
    let f = h + 12 + size in
    let m1 = set_size m h size in
    let m2 = set_used m1 h 1 in
    let m3 = set_footer_magic m2 f in
    inside32 m m3 h hi (f + 4) h (omega arith) (omega (arith, le)) (
      inside16 m m2 h hi f 0xEF01 (omega arith) (omega (arith, le)) (
        inside32 m m1 h hi (h + 8) 1 (omega arith) (omega (arith, le))
          (inside32 m m h hi (h + 4) size (omega arith) (omega (arith, le)) (Framed-refl m h hi))))

hole_written-IsBlock :
    (m : Memory) (h size : ℕ)
    → h + 12 + size + 8 < 2 ^ 32
    → IsBlock (hole_written m h size (h + 12 + size)) h (record { size = size; used = false })
hole_written-IsBlock m h size lt =
    let f = h + 12 + size in
    let m1 = set_header_magic m h in
    let m2 = set_size m1 h size in
    let m3 = set_used m2 h 0 in
    record {
      size =
          skip32 m3 (f + 4) h (h + 4) (inl (omega arith))
          ∙ (skip32 m2 (h + 8) 0 (h + 4) (inl (omega arith))
              ∙ read_back m1 (h + 4) size (omega (arith, lt)));
      used = skip32 m3 (f + 4) h (h + 8) (inl (omega arith)) ∙ read_back m2 (h + 8) 0 (omega arith);
      footer = read_back m3 (f + 4) h (omega (arith, lt));
    }

hole_written-Framed :
    (m : Memory) (h size lo hi : ℕ)
    → lo ≤ h
    → h + 12 + size + 8 ≤ hi
    → Framed m (hole_written m h size (h + 12 + size)) lo hi
hole_written-Framed m h size lo hi ge le =
    let f = h + 12 + size in
    let m1 = set_header_magic m h in
    let m2 = set_size m1 h size in
    let m3 = set_used m2 h 0 in
    inside32 m m3 lo hi (f + 4) h (omega (arith, ge)) (omega (arith, le)) (
      inside32 m m2 lo hi (h + 8) 0 (omega (arith, ge)) (omega (arith, le)) (
        inside32 m m1 lo hi (h + 4) size (omega (arith, ge)) (omega (arith, le))
          (inside16 m m lo hi h 0xABCD ge (omega (arith, le)) (Framed-refl m lo hi))))

pub carved_end :
    (h n size rest : ℕ) → n ≡ size + 20 + rest → h + 12 + n ≡ h + 12 + size + 8 + 12 + rest
carved_end h n size rest total = omega (arith, total)

module _ (m : Memory) (a : ℕ) (left : List Block) (n : ℕ) (right : List Block) (e : ℕ) where
  -- The block of `size` bytes and the hole of `rest` bytes fill the hole of `n` bytes.
  pub carve-Focus :
      (size rest : ℕ)
      → n ≡ size + 20 + rest
      → Focus m a left n right e
      → e < 2 ^ 32
      → let h = place a left in
        let k = h + 12 + size + 8 in
        let m' = hole_written (block_written m h size) k rest (h + 12 + n) in
        Focus m' a (record { size = size; used = true } ∷ left) rest right e
        × (used_at m' k ≡ 0)
        × Framed m m' h (h + 12 + n + 8)
  carve-Focus size rest total f bound =
      let h = place a left in
      let k = h + 12 + size + 8 in
      let le = Layout-le m (h + 12 + n + 8) right e f.after in
      let mb = block_written m h size in
      let m' = hole_written mb k rest (k + 12 + rest) in
      let inner : Framed mb m' k (k + 12 + rest + 8) =
        hole_written-Framed mb k rest k (k + 12 + rest + 8) (omega arith) (omega arith) in
      let i = hole_written-IsBlock mb k rest (omega (arith, le, bound, total)) in
      let outer : Framed m m' h (k + 12 + rest + 8) =
        Framed-trans m mb m' h (k + 12 + rest + 8)
          (block_written-Framed m h size (k + 12 + rest + 8) (omega arith))
          (hole_written-Framed mb k rest h (k + 12 + rest + 8) (omega arith) (omega arith)) in
      rw (carved_end h n size rest total) (
        record {
          before = (
            IsBlock-Framed mb m' k (k + 12 + rest + 8) inner h (record { size = size; used = true })
                (inl (omega arith))
                (block_written-IsBlock m h size (omega (arith, le, bound, total))),
            Before-Framed m m' h (k + 12 + rest + 8) outer a left (omega arith) f.before,
          );
          size = i.size;
          footer = i.footer;
          after =
              Layout-Framed m m' h (k + 12 + rest + 8) outer (k + 12 + rest + 8) right e
                (omega arith) (rw (sym (carved_end h n size rest total)) f.after);
        },
        i.used,
        outer,
      )
