-- ===== src/Heap/Memory.antt =====
-- Reading a number back from the bytes, and what a write leaves alone.
use raw_os.Common.{ℕ, ◌+◌, ◌*◌, ◌/◌, ◌%◌, ◌^◌, ◌≤◌, ◌<◌, ◌≡◌, refl, ◌∙◌, ◌⊎◌, inl, inr, arith}
use raw_os.Heap.{Memory, read32, write32, write16, set_size, set_header}

-- The two memories agree outside of the addresses from `lo` on and below `hi`.
abbrev pub Framed : Memory → Memory → ℕ → ℕ → Type 0
Framed m m' lo hi = (x : ℕ) → (x < lo) ⊎ (hi ≤ x) → m' x ≡ m x

bytes_of :
    (v : ℕ)
    → v < 2 ^ 32
    → v % 2 ^ 8
        + v / 2 ^ 8 % 2 ^ 8 * 2 ^ 8
        + v / 2 ^ 16 % 2 ^ 8 * 2 ^ 16
        + v / 2 ^ 24 % 2 ^ 8 * 2 ^ 24
      ≡ v
bytes_of v lt = omega (arith, lt)

pub write32-Framed : (m : Memory) (a v : ℕ) → Framed m (write32 m a v) a (a + 4)
unfolding write32
write32-Framed m a v x (inl lt) = ground (arith, lt)
write32-Framed m a v x (inr le) = ground (arith, le)

pub write16-Framed : (m : Memory) (a v : ℕ) → Framed m (write16 m a v) a (a + 4)
unfolding write16
write16-Framed m a v x (inl lt) = ground (arith, lt)
write16-Framed m a v x (inr le) = ground (arith, le)

module _ (m : Memory) (a v : ℕ) where
  byte_0 : write32 m a v a ≡ v % 2 ^ 8
  unfolding write32
  byte_0 = ground arith

  byte_1 : write32 m a v (a + 1) ≡ v / 2 ^ 8 % 2 ^ 8
  unfolding write32
  byte_1 = ground arith

  byte_2 : write32 m a v (a + 2) ≡ v / 2 ^ 16 % 2 ^ 8
  unfolding write32
  byte_2 = ground arith

  byte_3 : write32 m a v (a + 3) ≡ v / 2 ^ 24 % 2 ^ 8
  unfolding write32
  byte_3 = ground arith

  pub read_back : v < 2 ^ 32 → read32 (write32 m a v) a ≡ v
  unfolding read32
  read_back lt = omega (arith, byte_0, byte_1, byte_2, byte_3, bytes_of v lt)

-- A read of four bytes that are the same.
pub read32-same :
    (m m' : Memory) (a : ℕ) → ((x : ℕ) → a ≤ x → x < a + 4 → m' x ≡ m x) → read32 m' a ≡ read32 m a
unfolding read32
read32-same m m' a same = omega (
  arith,
  same a (omega arith) (omega arith),
  same (a + 1) (omega arith) (omega arith),
  same (a + 2) (omega arith) (omega arith),
  same (a + 3) (omega arith) (omega arith),
)

pub read32-Framed :
    (m m' : Memory) (lo hi a : ℕ)
    → Framed m m' lo hi
    → (a + 4 ≤ lo) ⊎ (hi ≤ a)
    → read32 m' a ≡ read32 m a
read32-Framed m m' lo hi a f (inl le) = read32-same m m' a λ x ge lt. f x (inl (omega arith))
read32-Framed m m' lo hi a f (inr le) = read32-same m m' a λ x ge lt. f x (inr (omega arith))

pub Framed-trans :
    (m m' m'' : Memory) (lo hi : ℕ) → Framed m m' lo hi → Framed m' m'' lo hi → Framed m m'' lo hi
Framed-trans m m' m'' lo hi f g x out = g x out ∙ f x out

pub Framed-wider :
    (m m' : Memory) (lo hi lo' hi' : ℕ)
    → lo' ≤ lo
    → hi ≤ hi'
    → Framed m m' lo hi
    → Framed m m' lo' hi'
Framed-wider m m' lo hi lo' hi' le ge f x (inl lt) = f x (inl (omega arith))
Framed-wider m m' lo hi lo' hi' le ge f x (inr gt) = f x (inr (omega arith))

-- A read before or behind the four bytes that are written.
pub skip32 :
    (m : Memory) (a v b : ℕ) → (b + 4 ≤ a) ⊎ (a + 4 ≤ b) → read32 (write32 m a v) b ≡ read32 m b
skip32 m a v b = read32-Framed m (write32 m a v) a (a + 4) b (write32-Framed m a v)

pub skip16 :
    (m : Memory) (a v b : ℕ) → (b + 4 ≤ a) ⊎ (a + 4 ≤ b) → read32 (write16 m a v) b ≡ read32 m b
skip16 m a v b = read32-Framed m (write16 m a v) a (a + 4) b (write16-Framed m a v)

pub Framed-refl : (m : Memory) (lo hi : ℕ) → Framed m m lo hi
Framed-refl m lo hi x out = refl

-- One more write between the two ends.
pub inside32 :
    (m m' : Memory) (lo hi a v : ℕ)
    → lo ≤ a
    → a + 4 ≤ hi
    → Framed m m' lo hi
    → Framed m (write32 m' a v) lo hi
inside32 m m' lo hi a v ge le f =
    Framed-trans m m' (write32 m' a v) lo hi f
      (Framed-wider m' (write32 m' a v) a (a + 4) lo hi ge le (write32-Framed m' a v))

pub inside16 :
    (m m' : Memory) (lo hi a v : ℕ)
    → lo ≤ a
    → a + 4 ≤ hi
    → Framed m m' lo hi
    → Framed m (write16 m' a v) lo hi
inside16 m m' lo hi a v ge le f =
    Framed-trans m m' (write16 m' a v) lo hi f
      (Framed-wider m' (write16 m' a v) a (a + 4) lo hi ge le (write16-Framed m' a v))

-- A new size in the header at `h`, and the header's address in the footer at `f`.
pub resized-Framed :
    (m : Memory) (h n f : ℕ) → h ≤ f → Framed m (set_header (set_size m h n) f h) h (f + 8)
resized-Framed m h n f le =
    inside32 m (set_size m h n) h (f + 8) (f + 4) h (omega (arith, le)) (omega arith)
      (inside32 m m h (f + 8) (h + 4) n (omega arith) (omega (arith, le)) (Framed-refl m h (f + 8)))
