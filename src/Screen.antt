-- ===== src/Screen.antt =====
-- screen.c: printing to the text screen of 25 rows and 80 columns.
pub mod Scroll
pub mod Print
pub mod Hex
mod Tests
use raw_os.CString.{strlen}
use raw_os.Common.{take}
use raw_os.Common.{
  ℕ, zero, suc, ◌+◌, ◌-◌, ◌*◌, ◌/◌, ◌%◌, ◌^◌, Bool, true, false, List, [], ◌∷◌, ◌++◌, Outcome, ok,
  fault, ◌>>=◌, ◌>>◌, assert, ltb, leb, ◌==◌, if◌then◌else◌,
}

-- The bytes of the video memory, by their offsets from 0xB8000. A write behind the last cell of the
-- screen is undefined.
abbrev pub VideoMemory : Type 0
VideoMemory = ℕ → ℕ

abbrev pub video_len : ℕ
video_len = 25 * 80 * 2

abbrev pub written : VideoMemory → ℕ → ℕ → VideoMemory
written video_memory at value i = if i == at then value else video_memory i

unfoldable pub poke : VideoMemory → ℕ → ℕ → Outcome VideoMemory
poke video_memory at value = if ltb at video_len then ok (written video_memory at value) else fault

pub record Screen : Type 0 where
  pub cursor_pos : ℕ
  pub video_memory : VideoMemory

unfoldable pub print_at : VideoMemory → ℕ → ℕ → ℕ → Outcome VideoMemory
print_at video_memory c y x = poke video_memory ((y * 80 + x) * 2) c >>= λ video_memory.
    poke video_memory ((y * 80 + x) * 2 + 1) 0x0F

unfoldable pub screen_pos_cursor : Screen → ℕ → ℕ → Outcome Screen
screen_pos_cursor screen x y =
    assert (ltb x 80) >> (assert (ltb y 25) >> ok (record screen { cursor_pos = 80 * y + x }))

-- The loop of the call of `memcpy`: `n` bytes from the `i`th on, each read 160 bytes further on.
unfoldable pub copy_up : ℕ → ℕ → VideoMemory → Outcome VideoMemory
copy_up i zero video_memory = ok video_memory
copy_up i (suc n) video_memory =
    poke video_memory i (video_memory (i + 80 * 2)) >>= copy_up (i + 1) n

-- `n` cells are cleared, from the cell `i` on.
unfoldable pub clear_cells : ℕ → ℕ → VideoMemory → Outcome VideoMemory
clear_cells i zero video_memory = ok video_memory
clear_cells i (suc n) video_memory = poke video_memory (2 * i) 0 >>= λ video_memory.
    poke video_memory (2 * i + 1) 0xF >>= clear_cells (i + 1) n

unfoldable pub shift_one_line_up : VideoMemory → Outcome VideoMemory
shift_one_line_up video_memory =
    copy_up 0 ((25 - 1) * 80 * 2) video_memory >>= clear_cells ((25 - 1) * 80) 80

-- The end of the loop's body.
unfoldable pub scroll : Screen → Outcome Screen
scroll screen =
    if leb (80 * 25) screen.cursor_pos
    then (shift_one_line_up screen.video_memory >>= λ video_memory.
        ok (record { cursor_pos = screen.cursor_pos - 80; video_memory = video_memory }))
    else ok screen

-- The body of the loop of `screen_print_with_len`; 10 is the newline.
unfoldable pub print_char : Screen → ℕ → Outcome Screen
print_char screen c =
    if c == 10
    then scroll (record screen { cursor_pos = screen.cursor_pos + (80 - screen.cursor_pos % 80) })
    else (print_at screen.video_memory c (screen.cursor_pos / 80) (screen.cursor_pos % 80)
        >>= λ video_memory.
            scroll (record { cursor_pos = screen.cursor_pos + 1; video_memory = video_memory }))

unfoldable pub print_loop : Screen → List ℕ → Outcome Screen
print_loop screen [] = ok screen
print_loop screen (c ∷ str) = print_char screen c >>= λ screen. print_loop screen str

-- The ports and the bytes written to them.
unfoldable pub update_text_cursor : Screen → List (ℕ × ℕ)
update_text_cursor screen =
    (0x3D4, 0x0E)
    ∷ (0x3D5, screen.cursor_pos / 2 ^ 8 % 2 ^ 8)
    ∷ (0x3D4, 0x0F)
    ∷ (0x3D5, screen.cursor_pos % 2 ^ 8)
    ∷ []

unfoldable pub screen_print_with_len : Screen → List ℕ → Outcome (Screen × List (ℕ × ℕ))
screen_print_with_len screen str =
    print_loop screen str >>= λ screen. ok (screen, update_text_cursor screen)

unfoldable pub screen_clear : Screen → Outcome (Screen × List (ℕ × ℕ))
screen_clear screen = clear_cells 0 (80 * 25) screen.video_memory >>= λ video_memory.
    let cleared : Screen = record { cursor_pos = 0; video_memory = video_memory } in
    ok (cleared, update_text_cursor cleared)

-- The routines that print numbers, with all that they write to the ports.
unfoldable pub screen_print_nibble : Screen → ℕ → Outcome (Screen × List (ℕ × ℕ))
screen_print_nibble screen nibble =
    screen_print_with_len screen ((if ltb 9 nibble then nibble + 48 + 7 else nibble + 48) ∷ [])

unfoldable pub screen_print_byte : Screen → ℕ → Outcome (Screen × List (ℕ × ℕ))
screen_print_byte screen byte = screen_print_nibble screen (byte / 2 ^ 4) >>= λ high.
    screen_print_nibble high.0 (byte % 2 ^ 4) >>= λ low. ok (low.0, high.1 ++ low.1)

unfoldable pub screen_print_u32 : Screen → ℕ → Outcome (Screen × List (ℕ × ℕ))
screen_print_u32 screen v = screen_print_byte screen (v / 2 ^ 24 % 2 ^ 8) >>= λ a.
    screen_print_byte a.0 (v / 2 ^ 16 % 2 ^ 8) >>= λ b.
    screen_print_byte b.0 (v / 2 ^ 8 % 2 ^ 8) >>= λ c.
    screen_print_byte c.0 (v % 2 ^ 8) >>= λ d. ok (d.0, a.1 ++ b.1 ++ c.1 ++ d.1)

unfoldable pub screen_init : Screen → Screen × List (ℕ × ℕ)
screen_init screen = (
  record screen { cursor_pos = 0 },
  (0x3D4, 0x0A) ∷ (0x3D5, 0b00001111) ∷ (0x3D4, 0x0B) ∷ (0x3D5, 0b00011111) ∷ [],
)

unfoldable pub screen_print_char : Screen → ℕ → Outcome (Screen × List (ℕ × ℕ))
screen_print_char screen c = screen_print_with_len screen (c ∷ [])

unfoldable pub screen_print : Screen → List ℕ → Outcome (Screen × List (ℕ × ℕ))
screen_print screen str = strlen str >>= λ len. screen_print_with_len screen (take len str)

unfoldable pub screen_print_ptr : Screen → ℕ → Outcome (Screen × List (ℕ × ℕ))
screen_print_ptr screen ptr = screen_print_u32 screen (ptr % 2 ^ 32)
