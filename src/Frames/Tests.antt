-- ===== src/Frames/Tests.antt =====
-- Runs of the bitmap and of the frames on small inputs, and the theorems there.
use raw_os.Common.{ℕ, suc, zero, ◌<◌, ◌≡◌, refl, true, [], ◌∷◌, some, get_elem?, ok, Returns, arith}
use raw_os.Bitmap.{
  Bitmap, bitmap_set, bitmap_get_first_clear, byte_at, first_clear_from, first_clear_bit,
}
use raw_os.Bitmap.Laws.{IsValid, bit_of}
use raw_os.Frames.{take_frame}
use raw_os.Frames.Laws.{IsTaken, take_frame-IsTaken}

-- Frames 0 to 9 are in use, and so is frame 12.
abbrev sixteen_frames : Bitmap
sixteen_frames = record { bytes = 0xff ∷ 0b00010011 ∷ []; size = 2 }

sixteen_frames-IsValid : IsValid sixteen_frames
sixteen_frames-IsValid = record { has_size = refl; no_wrap = omega arith; are_bytes = bytes }
  where
    bytes : (i v : ℕ) → get_elem? sixteen_frames.bytes i ≡ some v → v < 256
    bytes zero v e = ground arith
    bytes (suc zero) v e = ground arith
    bytes (suc (suc i)) v e = ground arith

takes_ten : take_frame sixteen_frames ≡ ok (10, record { bytes = 0xff ∷ 0b00010111 ∷ []; size = 2 })
unfolding take_frame bitmap_get_first_clear first_clear_from first_clear_bit bitmap_set byte_at
takes_ten = refl

take_frame-IsTaken_example : Returns (take_frame sixteen_frames) (IsTaken sixteen_frames)
take_frame-IsTaken_example =
    take_frame-IsTaken sixteen_frames 13 sixteen_frames-IsValid (omega arith) refl

abbrev eight_frames : Bitmap
eight_frames = record { bytes = 0xff ∷ []; size = 1 }

eight_frames-IsValid : IsValid eight_frames
eight_frames-IsValid = record { has_size = refl; no_wrap = omega arith; are_bytes = bytes }
  where
    bytes : (i v : ℕ) → get_elem? eight_frames.bytes i ≡ some v → v < 256
    bytes zero v e = ground arith
    bytes (suc i) v e = ground arith

all_used : (k : ℕ) → k < 8 → bit_of eight_frames k ≡ true
all_used zero h = refl
all_used (suc zero) h = refl
all_used (suc (suc zero)) h = refl
all_used (suc (suc (suc zero))) h = refl
all_used (suc (suc (suc (suc zero)))) h = refl
all_used (suc (suc (suc (suc (suc zero))))) h = refl
all_used (suc (suc (suc (suc (suc (suc zero)))))) h = refl
all_used (suc (suc (suc (suc (suc (suc (suc zero))))))) h = refl
all_used (suc (suc (suc (suc (suc (suc (suc (suc k)))))))) h = absurd (omega arith)
