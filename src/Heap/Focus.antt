-- ===== src/Heap/Focus.antt =====
-- One block among the others: what its header and its footer say while a call changes it.
use raw_os.Common.{ℕ, ◌+◌, ◌^◌, ◌<◌, ◌≡◌, ◌∙◌, inl, inr, Bool, List, ◌∷◌, arith}
use raw_os.Heap.{
  Memory, size_at, used_at, header_at, set_size, set_used, set_header, set_header_magic,
}
use raw_os.Heap.Memory.{Framed, inside32, inside16, Framed-refl, read_back, skip32, skip16}
use raw_os.Heap.Layout.{
  Block, flag, Layout, place, Before, rebuild, Layout-le, Layout-join, Layout-Framed, Before-Framed,
}

-- The block has `n` bytes; whether it is used is left open.
pub record Focus (m : Memory) (a : ℕ) (left : List Block) (n : ℕ) (right : List Block) (e : ℕ)
    : Type 0 where
  pub before : Before m a left
  pub size : size_at m (place a left) ≡ n
  pub footer : header_at m (place a left + 12 + n) ≡ place a left
  pub after : Layout m (place a left + 12 + n + 8) right e

module _ (m : Memory) (a : ℕ) (left : List Block) (n : ℕ) (right : List Block) (e : ℕ) where
  -- Writes between the header and the footer keep the other blocks.
  module _ (m' : Memory) (f : Framed m m' (place a left) (place a left + 12 + n + 8)) where
    pub Focus-around :
        Before m a left
        → Layout m (place a left + 12 + n + 8) right e
        → size_at m' (place a left) ≡ n
        → header_at m' (place a left + 12 + n) ≡ place a left
        → Focus m' a left n right e
    Focus-around before after size footer = record {
      before = Before-Framed m m' _ _ f a left (omega arith) before;
      size = size;
      footer = footer;
      after = Layout-Framed m m' _ _ f _ right e (omega arith) after;
    }

  -- The size is written into the header, and the header's address into the footer.
  pub Focus-written :
      Before m a left
      → Layout m (place a left + 12 + n + 8) right e
      → e < 2 ^ 32
      → Focus
          (set_header (set_size m (place a left) n) (place a left + 12 + n) (place a left))
          a
          left
          n
          right
          e
  Focus-written before after bound =
      let h = place a left in
      let le = Layout-le m (h + 12 + n + 8) right e after in
      let m1 = set_size m h n in
      Focus-around (set_header m1 (h + 12 + n) h)
        (inside32 m m1 h (h + 12 + n + 8) (h + 12 + n + 4) h (omega arith) (omega arith) (
          inside32 m m h (h + 12 + n + 8) (h + 4) n (omega arith) (omega arith)
            (Framed-refl m h (h + 12 + n + 8))))
        before after
        (skip32 m1 (h + 12 + n + 4) h (h + 4) (inl (omega arith))
          ∙ read_back m (h + 4) n (omega (arith, le, bound)))
        (read_back m1 (h + 12 + n + 4) h (omega (arith, le, bound)))

  pub Focus-used :
      (v : ℕ) → Focus m a left n right e → Focus (set_used m (place a left) v) a left n right e
  Focus-used v f =
      let h = place a left in
      Focus-around (set_used m h v)
        (inside32 m m h (h + 12 + n + 8) (h + 8) v (omega arith) (omega arith)
          (Framed-refl m h (h + 12 + n + 8)))
        f.before f.after (skip32 m (h + 8) v (h + 4) (inl (omega arith)) ∙ f.size)
        (skip32 m (h + 8) v (h + 12 + n + 4) (inr (omega arith)) ∙ f.footer)

  -- The header is written anew.
  pub Focus-header :
      Before m a left
      → header_at m (place a left + 12 + n) ≡ place a left
      → Layout m (place a left + 12 + n + 8) right e
      → e < 2 ^ 32
      → Focus
          (set_size
            (set_used (set_header_magic m (place a left)) (place a left) 0)
            (place a left)
            n)
          a
          left
          n
          right
          e
  Focus-header before footer after bound =
      let h = place a left in
      let le = Layout-le m (h + 12 + n + 8) right e after in
      let m1 = set_header_magic m h in
      let m2 = set_used m1 h 0 in
      Focus-around (set_size m2 h n)
        (inside32 m m2 h (h + 12 + n + 8) (h + 4) n (omega arith) (omega arith) (
          inside32 m m1 h (h + 12 + n + 8) (h + 8) 0 (omega arith) (omega arith) (
            inside16 m m h (h + 12 + n + 8) h 0xABCD (omega arith) (omega arith)
              (Framed-refl m h (h + 12 + n + 8)))))
        before after (read_back m2 (h + 4) n (omega (arith, le, bound)))
        (skip32 m2 (h + 4) n (h + 12 + n + 4) (inr (omega arith))
          ∙ (skip32 m1 (h + 8) 0 (h + 12 + n + 4) (inr (omega arith))
              ∙ (skip16 m h 0xABCD (h + 12 + n + 4) (inr (omega arith)) ∙ footer)))

  -- The blocks in the order of the memory.
  pub Focus-Layout :
      (u : Bool)
      → Focus m a left n right e
      → used_at m (place a left) ≡ flag u
      → Layout m a (rebuild left (record { size = n; used = u } ∷ right)) e
  Focus-Layout u f used =
      Layout-join m a left (record { size = n; used = u } ∷ right) e f.before
        (record { size = f.size; used = used; footer = f.footer }, f.after)
