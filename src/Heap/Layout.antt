-- ===== src/Heap/Layout.antt =====
-- The blocks of the heap, one behind the other in memory, seen from a place between two of them:
-- the blocks before the place from right to left, and those behind it.
use raw_os.Common.{ℕ, ◌+◌, ◌≤◌, ◌≡◌, ◌∙◌, ◌⊎◌, inl, inr, Bool, true, false, List, [], ◌∷◌, arith}
use raw_os.Heap.{Memory, size_at, used_at, header_at}
use raw_os.Heap.Memory.{Framed, read32-Framed}

pub record Block : Type 0 where
  pub size : ℕ
  pub used : Bool

abbrev pub flag : Bool → ℕ
flag false = 0
flag true = 1

-- A block's header at `h` and its footer.
pub record IsBlock (m : Memory) (h : ℕ) (b : Block) : Type 0 where
  pub size : size_at m h ≡ b.size
  pub used : used_at m h ≡ flag b.used
  pub footer : header_at m (h + 12 + b.size) ≡ h

-- The blocks fill the memory from `a` on and below `e`.
abbrev pub Layout : Memory → ℕ → List Block → ℕ → Type 0
Layout m a [] e = a ≡ e
Layout m a (b ∷ bs) e = IsBlock m a b × Layout m (a + 12 + b.size + 8) bs e

-- Where the blocks end that lie behind `a`, the last of them first.
abbrev pub place : ℕ → List Block → ℕ
place a [] = a
place a (b ∷ bs) = place a bs + 12 + b.size + 8

-- The blocks, the last of them first, lie between `a` and `place a bs`.
abbrev pub Before : Memory → ℕ → List Block → Type 0
Before m a [] = Unit
Before m a (b ∷ bs) = IsBlock m (place a bs) b × Before m a bs

-- The blocks in the order of the memory.
abbrev pub rebuild : List Block → List Block → List Block
rebuild [] right = right
rebuild (b ∷ left) right = rebuild left (b ∷ right)

pub Layout-le : (m : Memory) (a : ℕ) (bs : List Block) (e : ℕ) → Layout m a bs e → a ≤ e
Layout-le m a [] e l = omega (arith, l)
Layout-le m a (b ∷ bs) e l = omega (arith, Layout-le m (a + 12 + b.size + 8) bs e l.1)

pub place-le : (a : ℕ) (bs : List Block) → a ≤ place a bs
place-le a [] = omega arith
place-le a (b ∷ bs) = omega (arith, place-le a bs)

-- Splitting the blocks at a place, and joining them.
pub Layout-split :
    (m : Memory) (a : ℕ) (left right : List Block) (e : ℕ)
    → Layout m a (rebuild left right) e
    → Before m a left × Layout m (place a left) right e
Layout-split m a [] right e l = (tt, l)
Layout-split m a (b ∷ left) right e l =
    let r = Layout-split m a left (b ∷ right) e l in ((r.1.0, r.0), r.1.1)

pub Layout-join :
    (m : Memory) (a : ℕ) (left right : List Block) (e : ℕ)
    → Before m a left
    → Layout m (place a left) right e
    → Layout m a (rebuild left right) e
Layout-join m a [] right e before l = l
Layout-join m a (b ∷ left) right e before l =
    Layout-join m a left (b ∷ right) e before.1 (before.0, l)

-- Writes elsewhere keep the blocks.
module _ (m m' : Memory) (lo hi : ℕ) (f : Framed m m' lo hi) where
  pub IsBlock-Framed :
      (h : ℕ) (b : Block) → (h + 12 + b.size + 8 ≤ lo) ⊎ (hi ≤ h) → IsBlock m h b → IsBlock m' h b
  IsBlock-Framed h b (inl le) i = record {
    size = read32-Framed m m' lo hi (h + 4) f (inl (omega (arith, le))) ∙ i.size;
    used = read32-Framed m m' lo hi (h + 8) f (inl (omega (arith, le))) ∙ i.used;
    footer = read32-Framed m m' lo hi (h + 12 + b.size + 4) f (inl (omega (arith, le))) ∙ i.footer;
  }
  IsBlock-Framed h b (inr ge) i = record {
    size = read32-Framed m m' lo hi (h + 4) f (inr (omega (arith, ge))) ∙ i.size;
    used = read32-Framed m m' lo hi (h + 8) f (inr (omega (arith, ge))) ∙ i.used;
    footer = read32-Framed m m' lo hi (h + 12 + b.size + 4) f (inr (omega (arith, ge))) ∙ i.footer;
  }

  pub Layout-Framed :
      (a : ℕ) (bs : List Block) (e : ℕ) → hi ≤ a → Layout m a bs e → Layout m' a bs e
  Layout-Framed a [] e ge l = l
  Layout-Framed a (b ∷ bs) e ge l = (
    IsBlock-Framed a b (inr ge) l.0,
    Layout-Framed (a + 12 + b.size + 8) bs e (omega (arith, ge)) l.1,
  )

  pub Before-Framed : (a : ℕ) (bs : List Block) → place a bs ≤ lo → Before m a bs → Before m' a bs
  Before-Framed a [] le l = tt
  Before-Framed a (b ∷ bs) le l = (
    IsBlock-Framed (place a bs) b (inl (omega (arith, le))) l.0,
    Before-Framed a bs (omega (arith, le)) l.1,
  )
