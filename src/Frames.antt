-- ===== src/Frames.antt =====
-- The frames of physical memory (paging.c): the bitmap `paging.available_frames` has the bit of a
-- frame set while the frame is in use.
pub mod Laws
mod Tests
use raw_os.Common.{ℕ, Outcome, ok, ◌>>=◌}
use raw_os.Bitmap.{Bitmap, bitmap_get_first_clear, bitmap_set}

-- How each mapping of paging.c gets its frame: the least clear bit, which is then set.
unfoldable pub take_frame : Bitmap → Outcome (ℕ × Bitmap)
take_frame b = do frame ← bitmap_get_first_clear b; b' ← bitmap_set b frame; ok (frame, b')
