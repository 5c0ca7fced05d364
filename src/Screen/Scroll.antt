-- ===== src/Screen/Scroll.antt =====
-- What moving the screen up by a line does to each byte of the video memory.
use raw_os.Common.{
  ℕ, zero, suc, ◌+◌, ◌*◌, ◌%◌, ◌<◌, ◌≤◌, ◌≡◌, refl, ◌∙◌, ◌&&◌, ok, ltb, leb, lt→ltb, ◌==◌,
  if◌then◌else◌, arith,
}
use raw_os.Screen.{VideoMemory, video_len, written, poke, copy_up, clear_cells, shift_one_line_up}

pub poke-written :
    (m : VideoMemory) (at value : ℕ) → at < video_len → poke m at value ≡ ok (written m at value)
unfolding poke
poke-written m at value lt = rw (lt→ltb at video_len lt)

copied : ℕ → ℕ → VideoMemory → VideoMemory
copied i n m j = if leb i j && ltb j (i + n) then m (j + 160) else m j

copied_step :
    (i n : ℕ) (m : VideoMemory) (j : ℕ)
    → copied (i + 1) n (written m i (m (i + 160))) j ≡ copied i (suc n) m j
unfolding copied
copied_step i n m j = ground arith

copy_up-copied :
    (i n : ℕ) (m : VideoMemory)
    → i + n ≤ video_len
    → (after : VideoMemory) × (copy_up i n m ≡ ok after) × ((j : ℕ) → after j ≡ copied i n m j)
unfolding copy_up copied
copy_up-copied i zero m h = (m, refl, λ j. ground arith)
copy_up-copied i (suc n) m h =
    let (after, e, w) = copy_up-copied (i + 1) n (written m i (m (i + 160))) (omega arith) in
    (after, rw (poke-written m i (m (i + 160)) (omega arith)) e, λ j. w j ∙ copied_step i n m j)

-- A cell without a character.
abbrev pub blank : ℕ → ℕ
blank j = if j % 2 == 0 then 0 else 0xF

cleared : ℕ → ℕ → VideoMemory → VideoMemory
cleared i n m j = if leb (2 * i) j && ltb j (2 * (i + n)) then blank j else m j

cleared_step :
    (i n : ℕ) (m : VideoMemory) (j : ℕ)
    → cleared (i + 1) n (written (written m (2 * i) 0) (2 * i + 1) 0xF) j ≡ cleared i (suc n) m j
unfolding cleared
cleared_step i n m j = ground arith

clear_cells-cleared :
    (i n : ℕ) (m : VideoMemory)
    → 2 * (i + n) ≤ video_len
    → (after : VideoMemory) × (clear_cells i n m ≡ ok after) × ((j : ℕ) → after j ≡ cleared i n m j)
unfolding clear_cells cleared
clear_cells-cleared i zero m h = (m, refl, λ j. ground arith)
clear_cells-cleared i (suc n) m h =
    let first = written m (2 * i) 0 in
    let second = written first (2 * i + 1) 0xF in
    let (after, e, w) = clear_cells-cleared (i + 1) n second (omega arith) in
    (
      after,
      rw (poke-written m (2 * i) 0 (omega arith), poke-written first (2 * i + 1) 0xF (omega arith))
          e,
      λ j. w j ∙ cleared_step i n m j,
    )

-- The screen moved up by a line, with a blank last line.
abbrev pub scrolled : VideoMemory → VideoMemory
scrolled m j = if ltb j 3840 then m (j + 160) else if ltb j video_len then blank j else m j

-- `shift_one_line_up` writes only inside of the screen, although the two areas of its copy overlap
-- it moves every line up by one, and it blanks the last line.
pub shift_one_line_up-scrolled :
    (m : VideoMemory)
    → (after : VideoMemory) × (shift_one_line_up m ≡ ok after) × ((j : ℕ) → after j ≡ scrolled m j)
unfolding shift_one_line_up copied cleared
shift_one_line_up-scrolled m =
    let (moved, e, w) = copy_up-copied 0 3840 m (omega arith) in
    let (after, e', w') = clear_cells-cleared 1920 80 moved (omega arith) in
    (after, rw e e', λ j. w' j ∙ ground (arith, w j))
