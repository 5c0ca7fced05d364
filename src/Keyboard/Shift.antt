-- ===== src/Keyboard/Shift.antt =====
-- The state of the shift key after any sequence of scan codes.
use raw_os.Common.{
  ℕ, ◌<◌, ◌≡◌, refl, ◌∙◌, ap, Bool, true, false, ◌||◌, List, [], ◌∷◌, Outcome, ok, ◌>>=◌, ◌==◌,
  if◌then◌else◌, Bool-cases, inl, inr, passes, passes-at, same, same_sound,
}
use raw_os.Keyboard.{
  KeyInformation, key_character, key_control, key_press, key_release, key_code_shift, Keyboard,
  has_flag, handle_key, keyboard_interrupt_handler, key_presses, key_releases, other_keys,
  with_flags, assign_keys, key_table, get_key_character,
}
use raw_os.Keyboard.Deliver.{AllHaveRoom, deliver-received}

-- The keys 0x2A, 0x36 and 0x1D are the two shift keys and the left control key.
abbrev pub shift_after : Bool → ℕ → Bool
shift_after shift code =
    if code == 0x2a || code == 0x36 || code == 0x1d
    then true
    else if code == 0xaa || code == 0xb6 || code == 0x9d
    then false
    else shift

-- What `handle_key` makes of the flag.
shift_of : KeyInformation → Bool → Bool
shift_of key shift =
    if has_flag key key_character
    then shift
    else if has_flag key key_control
    then (if has_flag key key_press
        then (if key.key_code == key_code_shift then true else shift)
        else if has_flag key key_release
        then (if key.key_code == key_code_shift then false else shift)
        else shift)
    else shift

shift_fact : Bool → ℕ → Bool
unfolding shift_of same key_table
shift_fact shift code = same (shift_of (key_table code) shift) (shift_after shift code)

shift_table : (shift : Bool) → passes (shift_fact shift) 256 ≡ true
unfolding shift_fact passes key_presses key_releases other_keys with_flags assign_keys
shift_table true = refl
shift_table false = refl

shift_of-key_table :
    (code : ℕ) (shift : Bool)
    → code < 256
    → shift_of (key_table code) shift ≡ shift_after shift code
unfolding shift_fact
shift_of-key_table code shift lt =
    same_sound _ _ (passes-at (shift_fact shift) 256 code lt (shift_table shift))

-- What a key leaves: the flag as given, the table, and room in the registered buffers.
record Handled (state : Keyboard) (shift : Bool) (after : Keyboard) : Type 0 where
  shift_eq : after.shift_enabled ≡ shift
  table_eq : after.key_lookup_table ≡ state.key_lookup_table
  room : AllHaveRoom after.keyboard_event_buffers after.kerbs

handle_control :
    (state : Keyboard) (key : KeyInformation)
    → AllHaveRoom state.keyboard_event_buffers state.kerbs
    → has_flag key key_character ≡ false
    → has_flag key key_control ≡ true
    → (after : Keyboard) × (handle_key state key ≡ ok after)
      × Handled state (shift_of key state.shift_enabled) after
unfolding handle_key shift_of
handle_control state key room ec et = elim (Bool-cases (has_flag key key_press)) [
  | inl ep ↦ elim (Bool-cases (key.key_code == key_code_shift)) [
    | inl ek ↦ (
      record state { shift_enabled = true },
      rw (ec, et, ep, ek),
      record { shift_eq = rw (ec, et, ep, ek); table_eq = refl; room = room },
    )
    | inr ek ↦ (
      state,
      rw (ec, et, ep, ek),
      record { shift_eq = rw (ec, et, ep, ek); table_eq = refl; room = room },
    )
  ]
  | inr ep ↦ elim (Bool-cases (has_flag key key_release)) [
    | inl er ↦ elim (Bool-cases (key.key_code == key_code_shift)) [
      | inl ek ↦ (
        record state { shift_enabled = false },
        rw (ec, et, ep, er, ek),
        record { shift_eq = rw (ec, et, ep, er, ek); table_eq = refl; room = room },
      )
      | inr ek ↦ (
        state,
        rw (ec, et, ep, er, ek),
        record { shift_eq = rw (ec, et, ep, er, ek); table_eq = refl; room = room },
      )
    ]
    | inr er ↦ (
      state,
      rw (ec, et, ep, er),
      record { shift_eq = rw (ec, et, ep, er); table_eq = refl; room = room },
    )
  ]
]

handle_key-Handled :
    (state : Keyboard) (key : KeyInformation)
    → AllHaveRoom state.keyboard_event_buffers state.kerbs
    → (after : Keyboard) × (handle_key state key ≡ ok after)
      × Handled state (shift_of key state.shift_enabled) after
unfolding handle_key shift_of
handle_key-Handled state key room = elim (Bool-cases (has_flag key key_character)) [
  | inl ec ↦ elim (Bool-cases (has_flag key key_press)) [
    | inl ep ↦
        let out = get_key_character state.shift_enabled key.key_code in
        let (kerbs, e, w) = deliver-received out state.keyboard_event_buffers state.kerbs room in
        (
          record state { kerbs = kerbs; keyboard_event_buffers = [] },
          rw (ec, ep, e),
          record { shift_eq = rw ec; table_eq = refl; room = tt },
        )
    | inr ep ↦ (state, rw (ec, ep), record { shift_eq = rw ec; table_eq = refl; room = room })
  ]
  | inr ec ↦ elim (Bool-cases (has_flag key key_control)) [
    | inl et ↦ handle_control state key room ec et
    | inr et ↦ (state, rw (ec, et), record { shift_eq = rw (ec, et); table_eq = refl; room = room })
  ]
]

-- The interrupts of a sequence of keys, with nothing else in between.
abbrev pub handle_all : Keyboard → List ℕ → Outcome Keyboard
handle_all state [] = ok state
handle_all state (code ∷ codes) =
    keyboard_interrupt_handler 1 code state >>= λ r. handle_all r.1 codes

abbrev pub AllAreBytes : List ℕ → Type 0
AllAreBytes [] = Unit {0}
AllAreBytes (code ∷ codes) = (code < 256) × AllAreBytes codes

-- The flag that the last of the shift and control keys in the sequence leaves.
abbrev pub shift_after_all : Bool → List ℕ → Bool
shift_after_all shift [] = shift
shift_after_all shift (code ∷ codes) = shift_after_all (shift_after shift code) codes

-- With the table of `keyboard_init` and registered buffers with room, the handler returns for every
-- sequence of scan codes, and then the shift flag is the one that the last press or release of a
-- shift key or of the left control key in the sequence gives, or the first one if there is none.
pub keyboard_interrupt_handler-shift_after :
    (state : Keyboard) (codes : List ℕ)
    → state.key_lookup_table ≡ key_table
    → AllHaveRoom state.keyboard_event_buffers state.kerbs
    → AllAreBytes codes
    → (after : Keyboard) × (handle_all state codes ≡ ok after)
      × (after.shift_enabled ≡ shift_after_all state.shift_enabled codes)
unfolding keyboard_interrupt_handler
keyboard_interrupt_handler-shift_after state [] table room bytes = (state, refl, refl)
keyboard_interrupt_handler-shift_after state (code ∷ codes) table room bytes =
    let key = state.key_lookup_table code in
    let (next, e, h) = handle_key-Handled state key room in
    let (after, e', s) =
      keyboard_interrupt_handler-shift_after next codes (h.table_eq ∙ table) h.room bytes.1 in
    (
      after,
      rw e e',
      s
          ∙ ap (λ b. shift_after_all b codes)
              (h.shift_eq
                ∙ ap (λ t. shift_of (t code) state.shift_enabled) table
                ∙ shift_of-key_table code state.shift_enabled bytes.0),
    )
