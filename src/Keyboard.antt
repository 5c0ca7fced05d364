-- ===== src/Keyboard.antt =====
-- keyboard.c: the table of the scan codes, the state of the shift key, and the buffers that wait for
-- a character.
pub mod Shift
pub mod Deliver
mod Tests
use raw_os.Common.{
  ℕ, zero, suc, ◌+◌, ◌%◌, ◌^◌, bit_and, Bool, true, false, not, ◌&&◌, List, [], ◌∷◌, ◌++◌, Outcome,
  ok, fault, ◌>>=◌, ltb, leb, ◌==◌, if◌then◌else◌, length,
}
use raw_os.CString.{memcpy}

pub record KeyInformation : Type 0 where
  pub key_code : ℕ
  pub key_flags : ℕ

abbrev pub key_character : ℕ
key_character = 0x1

abbrev pub key_control : ℕ
key_control = 0x2

abbrev pub key_unknown : ℕ
key_unknown = 0x4

abbrev pub key_press : ℕ
key_press = 0x8

abbrev pub key_release : ℕ
key_release = 0x10

-- Both are defined as 1 in keyboard.h.
abbrev pub key_code_shift : ℕ
key_code_shift = 1

abbrev pub key_code_ctrl : ℕ
key_code_ctrl = 1

pub record EventReceiverBuffer : Type 0 where
  pub buffer : List ℕ
  pub buffer_capacity : ℕ
  pub buffer_filled : ℕ
  pub event_received : ℕ

-- `kerbs` is the memory that holds the buffers, by their addresses; `keyboard_event_buffers` are the
-- addresses registered, the first `keyboard_event_buffers_num` of the array.
pub record Keyboard : Type 0 where
  pub key_lookup_table : ℕ → KeyInformation
  pub keyboard_event_buffers : List ℕ
  pub shift_enabled : Bool
  pub kerbs : ℕ → EventReceiverBuffer

-- The array has 64 entries, and the code does not compare with this bound.
abbrev pub keyboard_event_buffers_max : ℕ
keyboard_event_buffers_max = 64

unfoldable pub write_kerb :
    (ℕ → EventReceiverBuffer) → ℕ → EventReceiverBuffer → ℕ → EventReceiverBuffer
write_kerb kerbs at kerb p = if p == at then kerb else kerbs p

unfoldable pub keyboard_register_event_buffer : Keyboard → ℕ → Outcome Keyboard
keyboard_register_event_buffer state kerb =
    if ltb (length state.keyboard_event_buffers) keyboard_event_buffers_max
    then ok (record state {
      keyboard_event_buffers = state.keyboard_event_buffers ++ kerb ∷ [];
      kerbs =
          write_kerb state.kerbs kerb
            (record (state.kerbs kerb) { event_received = 0; buffer_filled = 0 });
    })
    else fault

-- 65 to 90 are the letters, 45 is the dash and 95 the underscore.
unfoldable pub get_key_character : Bool → ℕ → ℕ
get_key_character shift_enabled key_code =
    if leb 65 key_code && leb key_code 90
    then (if not shift_enabled then (key_code + 32) % 2 ^ 8 else key_code)
    else if key_code == 45
    then (if shift_enabled then 95 else key_code)
    else key_code

-- The loop over the registered buffers.
unfoldable pub deliver : ℕ → List ℕ → (ℕ → EventReceiverBuffer) → Outcome (ℕ → EventReceiverBuffer)
deliver out [] kerbs = ok kerbs
deliver out (p ∷ ps) kerbs = memcpy (kerbs p).buffer (out ∷ []) 1 >>= λ buffer. deliver out ps (
    write_kerb kerbs p
      (record (kerbs p) { buffer = buffer; event_received = 1; buffer_filled = 1 }))

abbrev pub has_flag : KeyInformation → ℕ → Bool
has_flag key flag = not (bit_and key.key_flags flag == 0)

-- What follows the read of the scan code.
unfoldable pub handle_key : Keyboard → KeyInformation → Outcome Keyboard
handle_key state key =
    if has_flag key key_character
    then (if has_flag key key_press
        then (deliver (get_key_character state.shift_enabled key.key_code)
              state.keyboard_event_buffers state.kerbs
            >>= λ kerbs. ok (record state { kerbs = kerbs; keyboard_event_buffers = [] }))
        else ok state)
    else if has_flag key key_control
    then (if has_flag key key_press
        then (if key.key_code == key_code_shift
            then ok (record state { shift_enabled = true })
            else ok state)
        else if has_flag key key_release
        then (if key.key_code == key_code_shift
            then ok (record state { shift_enabled = false })
            else ok state)
        else ok state)
    else ok state

-- `status` and `scan_code` are the bytes read from the ports. The flag says whether the error
-- message on the buffer's status is printed.
unfoldable pub keyboard_interrupt_handler : ℕ → ℕ → Keyboard → Outcome (Bool × Keyboard)
keyboard_interrupt_handler status scan_code state =
    handle_key state (state.key_lookup_table scan_code) >>= λ state.
    ok (bit_and status 0x01 == 0, state)

-- The assignments to the table, in order: scan codes, key codes and flags.
unfoldable pub key_presses : List (ℕ × ℕ)
key_presses =
    (0x1e, 65)
    ∷ (0x30, 66)
    ∷ (0x2e, 67)
    ∷ (0x20, 68)
    ∷ (0x12, 69)
    ∷ (0x21, 70)
    ∷ (0x22, 71)
    ∷ (0x23, 72)
    ∷ (0x17, 73)
    ∷ (0x24, 74)
    ∷ (0x25, 75)
    ∷ (0x26, 76)
    ∷ (0x32, 77)
    ∷ (0x31, 78)
    ∷ (0x18, 79)
    ∷ (0x19, 80)
    ∷ (0x10, 81)
    ∷ (0x13, 82)
    ∷ (0x1f, 83)
    ∷ (0x14, 84)
    ∷ (0x16, 85)
    ∷ (0x2f, 86)
    ∷ (0x2d, 88)
    ∷ (0x11, 87)
    ∷ (0x15, 89)
    ∷ (0x2c, 90)
    ∷ (0x35, 47)
    ∷ (0x0c, 45)
    ∷ (0x34, 46)
    ∷ []

unfoldable pub key_releases : List (ℕ × ℕ)
key_releases =
    (0x9e, 65)
    ∷ (0xb0, 66)
    ∷ (0xae, 67)
    ∷ (0xa0, 68)
    ∷ (0x92, 69)
    ∷ (0xa1, 70)
    ∷ (0xa2, 71)
    ∷ (0xa3, 72)
    ∷ (0x97, 73)
    ∷ (0xa4, 74)
    ∷ (0xa5, 75)
    ∷ (0xa6, 76)
    ∷ (0xb2, 77)
    ∷ (0xb1, 78)
    ∷ (0x98, 79)
    ∷ (0x99, 80)
    ∷ (0x90, 81)
    ∷ (0x93, 82)
    ∷ (0x9f, 83)
    ∷ (0x94, 84)
    ∷ (0x96, 85)
    ∷ (0xaf, 86)
    ∷ (0xad, 88)
    ∷ (0x91, 87)
    ∷ (0x95, 89)
    ∷ (0xac, 90)
    ∷ (0xb5, 47)
    ∷ (0x8c, 46)
    ∷ (0xb4, 45)
    ∷ []

unfoldable pub other_keys : List (ℕ × KeyInformation)
other_keys =
    (0x1c, record { key_code = 10; key_flags = 0x9 })
    ∷ (0x9c, record { key_code = 10; key_flags = 0x11 })
    ∷ (0x39, record { key_code = 32; key_flags = 0x9 })
    ∷ (0xb9, record { key_code = 32; key_flags = 0x11 })
    ∷ (0x2a, record { key_code = key_code_shift; key_flags = 0xa })
    ∷ (0xaa, record { key_code = key_code_shift; key_flags = 0x12 })
    ∷ (0x36, record { key_code = key_code_shift; key_flags = 0xa })
    ∷ (0xb6, record { key_code = key_code_shift; key_flags = 0x12 })
    ∷ (0x1d, record { key_code = key_code_ctrl; key_flags = 0xa })
    ∷ (0x9d, record { key_code = key_code_ctrl; key_flags = 0x12 })
    ∷ []

-- Assignments with the same flags.
unfoldable pub with_flags : ℕ → List (ℕ × ℕ) → List (ℕ × KeyInformation)
with_flags flags [] = []
with_flags flags ((scan_code, code) ∷ keys) =
    (scan_code, record { key_code = code; key_flags = flags }) ∷ with_flags flags keys

unfoldable pub assign_keys : List (ℕ × KeyInformation) → (ℕ → KeyInformation) → ℕ → KeyInformation
assign_keys [] table = table
assign_keys ((scan_code, key) ∷ keys) table =
    assign_keys keys λ i. if i == scan_code then key else table i

unfoldable pub key_table : ℕ → KeyInformation
key_table =
    assign_keys (with_flags 0x9 key_presses ++ (with_flags 0x11 key_releases ++ other_keys))
      λ i. record { key_code = 0; key_flags = key_unknown }

unfoldable pub keyboard_init : (ℕ → EventReceiverBuffer) → Keyboard
keyboard_init kerbs = record {
  key_lookup_table = key_table;
  keyboard_event_buffers = [];
  shift_enabled = false;
  kerbs = kerbs;
}
