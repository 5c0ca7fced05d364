-- ===== src/Screen/Tests.antt =====
-- Examples for screen.c: a screen of zero bytes with the cursor in the last cell.
use raw_os.Screen.Hex.{hex_value, AllAreHexDigits, screen_print_u32-hex_value}
use raw_os.Common.{ℕ, ◌/◌, ◌%◌, ◌^◌, ◌≡◌, List, [], ◌∷◌, ok, arith, length}
use raw_os.Screen.{Screen, screen_print_with_len}
use raw_os.Screen.Print.{IsOnScreen, AllArePrinted, screen_print_with_len-AllArePrinted}
use raw_os.Screen.{screen_print_u32}

abbrev at_end : Screen
at_end = record { cursor_pos = 1999; video_memory = λ i. 0 }

screen_print_with_len-AllArePrinted_example :
    (after : Screen) × (screen_print_with_len at_end (65 ∷ 10 ∷ 66 ∷ [])
      ≡ ok (
        after,
        (0x3D4, 14)
            ∷ (0x3D5, after.cursor_pos / 2 ^ 8 % 2 ^ 8)
            ∷ (0x3D4, 15)
            ∷ (0x3D5, after.cursor_pos % 2 ^ 8)
            ∷ [],
      ))
    × IsOnScreen after
    × AllArePrinted at_end (65 ∷ 10 ∷ 66 ∷ []) after
screen_print_with_len-AllArePrinted_example =
    screen_print_with_len-AllArePrinted at_end (65 ∷ 10 ∷ 66 ∷ []) (omega arith)

screen_print_u32-hex_value_example :
    (str : List ℕ) × (after : Screen) × (ports : List (ℕ × ℕ)) × (screen_print_u32 at_end 0xBEEF07
      ≡ ok (after, ports))
    × IsOnScreen after
    × AllArePrinted at_end str after
    × (length str ≡ 8)
    × AllAreHexDigits str
    × (hex_value 0 str ≡ 0xBEEF07)
screen_print_u32-hex_value_example =
    screen_print_u32-hex_value at_end 0xBEEF07 (omega arith) (omega arith)
