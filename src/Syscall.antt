-- ===== src/Syscall.antt =====
-- syscall.c: the stubs of the system calls by name, which the loader copies into a program.
pub mod Names
pub mod Stubs
mod Tests
use raw_os.Common.{
  ℕ, zero, suc, ◌+◌, ◌-◌, ◌*◌, ◌%◌, ◌^◌, Bool, true, false, List, [], ◌∷◌, ◌++◌, Option, none, some,
  Outcome, ok, panicked, fault, ltb, ◌==◌, if◌then◌else◌,
}
use raw_os.CString.{strcmp}
use raw_os.CString.Laws.{IsText}
use raw_os.HashMap.{Key, HashMap, hash_map_create, hash_map_put, hash_map_get}

-- A key of the map is a pointer to a string; the model keeps the text before its zero byte.
pub record Text : Type 0 where
  pub bytes : List ℕ
  pub is_text : IsText bytes

pub record SyscallStubInformation : Type 0 where
  pub syscall_stub_address : ℕ
  pub syscall_stub_size : ℕ

unfoldable pub syscall_stub_name_compare : Text → Text → Bool
syscall_stub_name_compare key1 key2 = elim (strcmp (key1.bytes ++ 0 ∷ []) (key2.bytes ++ 0 ∷ [])) [
  | ok different ↦ different == 0
  | panicked ↦ false
  | fault ↦ false
]

-- A byte read as an `s8`, which is signed, and added as 32 bits.
unfoldable pub signed_byte : ℕ → ℕ
signed_byte c = if ltb c 128 then c else 2 ^ 32 + c - 256

unfoldable pub hash_loop : ℕ → List ℕ → ℕ
hash_loop hash [] = hash
hash_loop hash (c ∷ str) = hash_loop ((hash * 2 ^ 5 + hash + signed_byte c) % 2 ^ 32) str

unfoldable pub syscall_stub_name_hash : Text → ℕ
syscall_stub_name_hash key = hash_loop 5381 key.bytes

unfoldable pub syscall_stub_name : Key Text
syscall_stub_name = record {
  key_compare = syscall_stub_name_compare;
  key_hash = syscall_stub_name_hash;
}

-- The calls that have a stub, in the order in which `syscall_init` puts them into the map.
pub data Call : Type 0 where
  syscall_print_stub : Call
  syscall_exit_stub : Call
  syscall_pos_cursor_stub : Call
  syscall_clear_screen_stub : Call
  syscall_execve_stub : Call
  syscall_fork_stub : Call
  syscall_open_stub : Call
  syscall_read_stub : Call
  syscall_write_stub : Call
  syscall_close_stub : Call

unfoldable pub syscall_name : Call → Text
syscall_name Call.syscall_print_stub = record {
  bytes = 112 ∷ 114 ∷ 105 ∷ 110 ∷ 116 ∷ [];
  is_text = tt;
}
syscall_name Call.syscall_exit_stub = record { bytes = 101 ∷ 120 ∷ 105 ∷ 116 ∷ []; is_text = tt }
syscall_name Call.syscall_pos_cursor_stub = record {
  bytes = 112 ∷ 111 ∷ 115 ∷ 95 ∷ 99 ∷ 117 ∷ 114 ∷ 115 ∷ 111 ∷ 114 ∷ [];
  is_text = tt;
}
syscall_name Call.syscall_clear_screen_stub = record {
  bytes = 99 ∷ 108 ∷ 101 ∷ 97 ∷ 114 ∷ 95 ∷ 115 ∷ 99 ∷ 114 ∷ 101 ∷ 101 ∷ 110 ∷ [];
  is_text = tt;
}
syscall_name Call.syscall_execve_stub = record {
  bytes = 101 ∷ 120 ∷ 101 ∷ 99 ∷ 118 ∷ 101 ∷ [];
  is_text = tt;
}
syscall_name Call.syscall_fork_stub = record { bytes = 102 ∷ 111 ∷ 114 ∷ 107 ∷ []; is_text = tt }
syscall_name Call.syscall_open_stub = record { bytes = 111 ∷ 112 ∷ 101 ∷ 110 ∷ []; is_text = tt }
syscall_name Call.syscall_read_stub = record { bytes = 114 ∷ 101 ∷ 97 ∷ 100 ∷ []; is_text = tt }
syscall_name Call.syscall_write_stub = record {
  bytes = 119 ∷ 114 ∷ 105 ∷ 116 ∷ 101 ∷ [];
  is_text = tt;
}
syscall_name Call.syscall_close_stub = record {
  bytes = 99 ∷ 108 ∷ 111 ∷ 115 ∷ 101 ∷ [];
  is_text = tt;
}

abbrev pub calls : List Call
calls =
    Call.syscall_print_stub ∷ Call.syscall_exit_stub ∷ Call.syscall_pos_cursor_stub
    ∷ Call.syscall_clear_screen_stub ∷ Call.syscall_execve_stub ∷ Call.syscall_fork_stub
    ∷ Call.syscall_open_stub ∷ Call.syscall_read_stub ∷ Call.syscall_write_stub
    ∷ Call.syscall_close_stub ∷ []

unfoldable pub syscall_stub_get :
    HashMap Text SyscallStubInformation → Text → Option (Option SyscallStubInformation)
syscall_stub_get syscall_stubs name = hash_map_get syscall_stub_name syscall_stubs name

-- The addresses and the sizes of the stubs are those of the assembly file.
module _ (stub : Call → SyscallStubInformation) where
  unfoldable pub put_stubs :
      List Call → HashMap Text SyscallStubInformation → Option (HashMap Text SyscallStubInformation)
  put_stubs [] syscall_stubs = some syscall_stubs
  put_stubs (c ∷ cs) syscall_stubs =
      elim (hash_map_put syscall_stub_name 2 syscall_stubs (syscall_name c) (stub c)) [
        | none ↦ none
        | some syscall_stubs ↦ put_stubs cs syscall_stubs
      ]

  unfoldable pub syscall_init : Option (HashMap Text SyscallStubInformation)
  syscall_init = put_stubs calls (hash_map_create 1024)
