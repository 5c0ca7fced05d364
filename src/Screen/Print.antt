-- ===== src/Screen/Print.antt =====
-- What printing does to the cursor and to each byte of the video memory.
use raw_os.Common.{
  ℕ, ◌+◌, ◌-◌, ◌*◌, ◌/◌, ◌%◌, ◌^◌, ◌<◌, ◌≤◌, ◌≡◌, refl, ◌∙◌, ap, false, List, [], ◌∷◌, ok, leb,
  ◌==◌, if◌then◌else◌, arith, Bool-cases, inl, inr,
}
use raw_os.Screen.{
  VideoMemory, written, Screen, print_at, scroll, print_char, print_loop, update_text_cursor,
  screen_print_with_len,
}
use raw_os.Screen.Scroll.{poke-written, scrolled, shift_one_line_up-scrolled}

-- The cursor is in a cell of the screen.
abbrev pub IsOnScreen : Screen → Type 0
IsOnScreen s = s.cursor_pos < 2000

-- The screen with a character in the cursor's cell, white on black; a newline writes nothing.
abbrev pub typed : Screen → ℕ → VideoMemory
typed s c j =
    if c == 10
    then s.video_memory j
    else written (written s.video_memory (s.cursor_pos * 2) c) (s.cursor_pos * 2 + 1) 0x0F j

-- Where the cursor goes, before scrolling: the next cell, or the start of the next line.
abbrev pub advanced : Screen → ℕ → ℕ
advanced s c = if c == 10 then (s.cursor_pos / 80 + 1) * 80 else s.cursor_pos + 1

-- The new screen, which has scrolled by a line if the cursor has left the last line.
abbrev pub IsPrinted : Screen → ℕ → Screen → Type 0
IsPrinted s c after =
    IsOnScreen after
    × (after.cursor_pos ≡ (if leb 2000 (advanced s c) then advanced s c - 80 else advanced s c))
    × ((j : ℕ)
        → after.video_memory j
          ≡ (if leb 2000 (advanced s c) then scrolled (typed s c) j else typed s c j))

scrolled_ext :
    (m m' : VideoMemory) → ((j : ℕ) → m j ≡ m' j) → (j : ℕ) → scrolled m j ≡ scrolled m' j
scrolled_ext m m' e j = ground (arith, e j, e (j + 160))

below : (n : ℕ) → leb 2000 n ≡ false → n < 2000
below n e = ground arith

scroll-IsPrinted :
    (s : Screen) (c : ℕ) (moved : Screen)
    → moved.cursor_pos ≡ advanced s c
    → moved.cursor_pos ≤ 2000
    → ((j : ℕ) → moved.video_memory j ≡ typed s c j)
    → (after : Screen) × (scroll moved ≡ ok after) × IsPrinted s c after
unfolding scroll
scroll-IsPrinted s c moved ep le em = elim (Bool-cases (leb 2000 moved.cursor_pos)) [
  | inl e ↦
      let (m, es, w) = shift_one_line_up-scrolled moved.video_memory in
      let ea = rw ep at e in
      (
        record { cursor_pos = moved.cursor_pos - 80; video_memory = m },
        rw (e, es),
        (
          omega arith,
          rw ea (ap (λ n. n - 80) ep),
          λ j. w j ∙ (scrolled_ext moved.video_memory (typed s c) em j ∙ rw ea),
        ),
      )
  | inr e ↦
      let ea = rw ep at e in (moved, rw e, (below moved.cursor_pos e, rw ea ep, λ j. em j ∙ rw ea))
]

cell_eq : (n : ℕ) → (n / 80 * 80 + n % 80) * 2 ≡ n * 2
cell_eq n = omega arith

-- `print_char`, the body of the loop, keeps the cursor on the screen and writes only inside of it: a
-- newline moves to the start of the next line, any other character is written at the cursor, which
-- moves to the next cell, and if it leaves the last line the screen scrolls by one line.
pub print_char-IsPrinted :
    (s : Screen) (c : ℕ)
    → IsOnScreen s
    → (after : Screen) × (print_char s c ≡ ok after) × IsPrinted s c after
unfolding print_char print_at
print_char-IsPrinted s c on = elim (Bool-cases (c == 10)) [
  | inl e ↦
      let moved : Screen = record s { cursor_pos = s.cursor_pos + (80 - s.cursor_pos % 80) } in
      let (after, es, w) =
        scroll-IsPrinted s c moved (rw e (omega arith)) (omega arith) (λ j. rw e) in
      (after, rw e es, w)
  | inr e ↦
      let at = s.cursor_pos * 2 in
      let m1 = written s.video_memory at c in
      let m2 = written m1 (at + 1) 0x0F in
      let moved : Screen = record { cursor_pos = s.cursor_pos + 1; video_memory = m2 } in
      let (after, es, w) = scroll-IsPrinted s c moved (rw e) (omega arith) (λ j. rw e) in
      let cell = cell_eq s.cursor_pos in
      (
        after,
        rw
            (
              e,
              cell,
              poke-written s.video_memory at c (omega arith),
              poke-written m1 (at + 1) 0x0F (omega arith),
            )
            es,
        w,
      )
]

-- One character after the other, from one screen to another.
abbrev pub AllArePrinted : Screen → List ℕ → Screen → Type 0
AllArePrinted s [] after = after ≡ s
AllArePrinted s (c ∷ str) after =
    (next : Screen) × IsPrinted s c next × AllArePrinted next str after

-- `screen_print_with_len` returns for every text: it prints its characters one after the other,
-- keeps the cursor on the screen, writes only inside of the screen, and then writes the high byte
-- of the cursor's position to register 14 of the device and the low byte to register 15.
pub screen_print_with_len-AllArePrinted :
    (s : Screen) (str : List ℕ)
    → IsOnScreen s
    → (after : Screen) × (screen_print_with_len s str
        ≡ ok (
          after,
          (0x3D4, 14)
              ∷ (0x3D5, after.cursor_pos / 2 ^ 8 % 2 ^ 8)
              ∷ (0x3D4, 15)
              ∷ (0x3D5, after.cursor_pos % 2 ^ 8)
              ∷ [],
        ))
      × IsOnScreen after
      × AllArePrinted s str after
unfolding screen_print_with_len print_loop update_text_cursor
screen_print_with_len-AllArePrinted s [] on = (s, refl, on, refl)
screen_print_with_len-AllArePrinted s (c ∷ str) on =
    let (next, e, w) = print_char-IsPrinted s c on in
    let (after, e', on', all) = screen_print_with_len-AllArePrinted next str w.0 in
    (after, rw e e', on', (next, w, all))
