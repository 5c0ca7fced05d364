-- ===== src/Frames/Laws.antt =====
-- Frames are handed out once, the least free one first.
use raw_os.Common.{
  ℕ, ◌*◌, ◌<◌, ◌≡◌, refl, true, false, Outcome, ok, panicked, fault, ◌>>=◌, Returns, Returns->>=,
  arith,
}
use raw_os.Bitmap.{Bitmap, bitmap_set, bitmap_get_first_clear}
use raw_os.Bitmap.Laws.{IsValid, IsUpdate, bit_of, bitmap_set-IsUpdate}
use raw_os.Bitmap.FirstClear.{Found, bitmap_get_first_clear-Found}
use raw_os.Frames.{take_frame}

-- The frame was free, no lower one was, and now it is in use and no other has changed.
pub record IsTaken (b : Bitmap) (r : ℕ × Bitmap) : Type 0 where
  pub inside : r.0 < b.size * 8
  pub was_free : bit_of b r.0 ≡ false
  pub least : (k : ℕ) → k < r.0 → bit_of b k ≡ true
  pub update : IsUpdate b r.0 true r.1

take_frame_cases :
    (b : Bitmap) (k : ℕ) (o : Outcome ℕ)
    → IsValid b
    → k < b.size * 8
    → bit_of b k ≡ false
    → Found b 0 o
    → Returns (o >>= λ frame. bitmap_set b frame >>= λ b'. ok (frame, b')) (IsTaken b)
take_frame_cases b k fault h lt free found = absurd found
take_frame_cases b k panicked h lt free found = ground (arith, found k)
take_frame_cases b k (ok frame) h lt free found =
    Returns->>= (bitmap_set b frame) (IsUpdate b frame true) _ (IsTaken b)
      (bitmap_set-IsUpdate b frame h found.1)
      (λ b' u. record {
        inside = found.1;
        was_free = found.2;
        least = λ j p. found.3 j (omega arith) p;
        update = u;
      })

-- Where some frame is free, the least free frame is taken, and no other frame changes.
pub take_frame-IsTaken :
    (b : Bitmap) (k : ℕ)
    → IsValid b
    → k < b.size * 8
    → bit_of b k ≡ false
    → Returns (take_frame b) (IsTaken b)
unfolding take_frame
take_frame-IsTaken b k h lt free =
    take_frame_cases b k (bitmap_get_first_clear b) h lt free (bitmap_get_first_clear-Found b h)

full_panics :
    {B : Type 0} (b : Bitmap) (o : Outcome ℕ) (f : ℕ → Outcome B)
    → ((k : ℕ) → k < b.size * 8 → bit_of b k ≡ true)
    → Found b 0 o
    → (o >>= f) ≡ panicked
full_panics b fault f full found = absurd found
full_panics b panicked f full found = refl
full_panics b (ok i) f full found = absurd (ground (arith, full i))

-- Where every frame is in use, the kernel panics.
pub take_frame-full :
    (b : Bitmap)
    → IsValid b
    → ((k : ℕ) → k < b.size * 8 → bit_of b k ≡ true)
    → take_frame b ≡ panicked
unfolding take_frame
take_frame-full b h full =
    full_panics b (bitmap_get_first_clear b) _ full (bitmap_get_first_clear-Found b h)
