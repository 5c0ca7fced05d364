-- ===== src/Screen/Hex.antt =====
-- What the routines that print numbers print.
use mathlib.Core.Path.{subst}
use raw_os.Common.{
  ℕ, ◌+◌, ◌-◌, ◌*◌, ◌/◌, ◌%◌, ◌^◌, ◌<◌, ◌≡◌, refl, ◌∙◌, ap, List, [], ◌∷◌, ◌++◌, Outcome, ok, ltb,
  leb, if◌then◌else◌, arith, length, ◌≤◌, ◌⊎◌, inl, inr, lt_or_le,
}
use raw_os.Screen.{Screen, screen_print_nibble, screen_print_byte, screen_print_u32}
use raw_os.Screen.Print.{IsOnScreen, AllArePrinted, screen_print_with_len-AllArePrinted}

-- The number that a text of hexadecimal digits denotes, after the digits of `acc`: 48 is the digit
-- zero and 65 the letter A.
abbrev pub hex_value : ℕ → List ℕ → ℕ
hex_value acc [] = acc
hex_value acc (c ∷ ds) = hex_value (acc * 16 + (if leb c 57 then c - 48 else c - 55)) ds

-- Each character is a digit from 0 to 9 or a letter from A to F.
abbrev pub AllAreHexDigits : List ℕ → Type 0
AllAreHexDigits [] = Unit
AllAreHexDigits (c ∷ ds) = ((48 ≤ c) × (c ≤ 57) ⊎ (65 ≤ c) × (c ≤ 70)) × AllAreHexDigits ds

abbrev hex_char : ℕ → ℕ
hex_char n = if ltb 9 n then n + 48 + 7 else n + 48

-- A routine prints a text, and leaves the cursor on the screen.
abbrev Prints : Outcome (Screen × List (ℕ × ℕ)) → Screen → List ℕ → Type 0
Prints m s str =
    (after : Screen) × (ports : List (ℕ × ℕ)) × (m ≡ ok (after, ports))
    × IsOnScreen after
    × AllArePrinted s str after

AllArePrinted-append :
    (s mid after : Screen) (xs ys : List ℕ)
    → AllArePrinted s xs mid
    → AllArePrinted mid ys after
    → AllArePrinted s (xs ++ ys) after
AllArePrinted-append s mid after [] ys h k = subst (λ t. AllArePrinted t ys after) h k
AllArePrinted-append s mid after (x ∷ xs) ys h k =
    (h.0, h.1, AllArePrinted-append h.0 mid after xs ys h.2 k)

print_nibble :
    (s : Screen) (n : ℕ) → IsOnScreen s → Prints (screen_print_nibble s n) s (hex_char n ∷ [])
unfolding screen_print_nibble
print_nibble s n on =
    let (after, e, on', all) = screen_print_with_len-AllArePrinted s (hex_char n ∷ []) on in
    (after, _, e, on', all)

print_byte :
    (s : Screen) (n : ℕ)
    → IsOnScreen s
    → Prints (screen_print_byte s n) s (hex_char (n / 16) ∷ hex_char (n % 16) ∷ [])
unfolding screen_print_byte
print_byte s n on =
    let (high, p, e, on1, all) = print_nibble s (n / 16) on in
    let (low, q, e', on2, all') = print_nibble high (n % 16) on1 in
    (
      low,
      p ++ q,
      rw (e, e'),
      on2,
      AllArePrinted-append s high low (hex_char (n / 16) ∷ []) (hex_char (n % 16) ∷ []) all all',
    )

hex_char-eq :
    (n : ℕ) → n < 16 → (if leb (hex_char n) 57 then hex_char n - 48 else hex_char n - 55) ≡ n
hex_char-eq n lt = ground arith

abbrev byte_chars : ℕ → List ℕ
byte_chars n = hex_char (n / 16) ∷ hex_char (n % 16) ∷ []

hex_value-byte :
    (acc n : ℕ) (ds : List ℕ)
    → n < 256
    → hex_value acc (byte_chars n ++ ds) ≡ hex_value (acc * 256 + n) ds
hex_value-byte acc n ds lt =
    rw (hex_char-eq (n / 16) (omega arith), hex_char-eq (n % 16) (omega arith))
      (ap (λ a. hex_value a ds) (omega arith))

-- The four bytes of a word, from the highest on.
four : ℕ → ℕ → ℕ → ℕ → List ℕ
four a b c d = byte_chars a ++ (byte_chars b ++ (byte_chars c ++ (byte_chars d ++ [])))

hex_char-digit :
    (n : ℕ) → n < 16 → (48 ≤ hex_char n) × (hex_char n ≤ 57) ⊎ (65 ≤ hex_char n) × (hex_char n ≤ 70)
hex_char-digit n lt = elim (lt_or_le n 10) [
  | inl few ↦ inl (ground (arith, few), ground (arith, few))
  | inr many ↦ inr (ground (arith, many, lt), ground (arith, many, lt))
]

byte_chars-digits :
    (n : ℕ) (ds : List ℕ) → n < 256 → AllAreHexDigits ds → AllAreHexDigits (byte_chars n ++ ds)
byte_chars-digits n ds lt all =
    (hex_char-digit (n / 16) (omega (arith, lt)), (hex_char-digit (n % 16) (omega arith), all))

four-digits : (a b c d : ℕ) → a < 256 → b < 256 → c < 256 → d < 256 → AllAreHexDigits (four a b c d)
unfolding four
four-digits a b c d ha hb hc hd =
    byte_chars-digits a (byte_chars b ++ (byte_chars c ++ (byte_chars d ++ []))) ha (
      byte_chars-digits b (byte_chars c ++ (byte_chars d ++ [])) hb
        (byte_chars-digits c (byte_chars d ++ []) hc (byte_chars-digits d [] hd tt)))

four-value :
    (a b c d : ℕ)
    → a < 256
    → b < 256
    → c < 256
    → d < 256
    → hex_value 0 (four a b c d) ≡ ((a * 256 + b) * 256 + c) * 256 + d
unfolding four
four-value a b c d ha hb hc hd =
    hex_value-byte 0 a (byte_chars b ++ (byte_chars c ++ (byte_chars d ++ []))) ha
    ∙ (hex_value-byte (0 * 256 + a) b (byte_chars c ++ (byte_chars d ++ [])) hb
        ∙ (hex_value-byte ((0 * 256 + a) * 256 + b) c (byte_chars d ++ []) hc
            ∙ (hex_value-byte (((0 * 256 + a) * 256 + b) * 256 + c) d [] hd ∙ omega arith)))

-- `screen_print_u32` of a 32-bit number prints a text of eight hexadecimal digits, 0 to 9 and A to
-- F, that denotes the number, and keeps the cursor on the screen.
pub screen_print_u32-hex_value :
    (s : Screen) (v : ℕ)
    → IsOnScreen s
    → v < 2 ^ 32
    → (str : List ℕ) × (after : Screen) × (ports : List (ℕ × ℕ)) × (screen_print_u32 s v
        ≡ ok (after, ports))
      × IsOnScreen after
      × AllArePrinted s str after
      × (length str ≡ 8)
      × AllAreHexDigits str
      × (hex_value 0 str ≡ v)
unfolding screen_print_u32 four
screen_print_u32-hex_value s v on lt =
    let (a, p, ea, ona, alla) = print_byte s (v / 2 ^ 24 % 2 ^ 8) on in
    let (b, q, eb, onb, allb) = print_byte a (v / 2 ^ 16 % 2 ^ 8) ona in
    let (c, r, ec, onc, allc) = print_byte b (v / 2 ^ 8 % 2 ^ 8) onb in
    let (d, t, ed, ond, alld) = print_byte c (v % 2 ^ 8) onc in
    (
      four (v / 2 ^ 24 % 2 ^ 8) (v / 2 ^ 16 % 2 ^ 8) (v / 2 ^ 8 % 2 ^ 8) (v % 2 ^ 8),
      d,
      p ++ q ++ r ++ t,
      rw (ea, eb, ec, ed),
      ond,
      AllArePrinted-append s a d (byte_chars (v / 2 ^ 24 % 2 ^ 8))
          (byte_chars (v / 2 ^ 16 % 2 ^ 8)
            ++ (byte_chars (v / 2 ^ 8 % 2 ^ 8) ++ byte_chars (v % 2 ^ 8)))
          alla
          (AllArePrinted-append a b d (byte_chars (v / 2 ^ 16 % 2 ^ 8))
            (byte_chars (v / 2 ^ 8 % 2 ^ 8) ++ byte_chars (v % 2 ^ 8)) allb
            (AllArePrinted-append b c d (byte_chars (v / 2 ^ 8 % 2 ^ 8)) (byte_chars (v % 2 ^ 8))
              allc alld)),
      refl,
      four-digits (v / 2 ^ 24 % 2 ^ 8) (v / 2 ^ 16 % 2 ^ 8) (v / 2 ^ 8 % 2 ^ 8) (v % 2 ^ 8)
          (omega arith) (omega arith) (omega arith) (omega arith),
      four-value (v / 2 ^ 24 % 2 ^ 8) (v / 2 ^ 16 % 2 ^ 8) (v / 2 ^ 8 % 2 ^ 8) (v % 2 ^ 8)
            (omega arith) (omega arith) (omega arith) (omega arith)
          ∙ omega arith,
    )
