-- ===== src/Syscall/Tests.antt =====
-- Examples for the system calls.
use raw_os.Common.{◌≡◌, refl, some}
use raw_os.HashMap.{HashMap}
use raw_os.Syscall.{
  Text, SyscallStubInformation, Call, syscall_name, syscall_stub_get, syscall_init,
  syscall_stub_name_hash, hash_loop, signed_byte,
}
use raw_os.Syscall.Stubs.{syscall_init-stub_named}

abbrev fork_or_other : Call → SyscallStubInformation
fork_or_other Call.syscall_fork_stub = record {
  syscall_stub_address = 0x100040;
  syscall_stub_size = 12;
}
fork_or_other _ = record { syscall_stub_address = 0x100000; syscall_stub_size = 20 }

syscall_init-stub_named_example :
    (hm : HashMap Text SyscallStubInformation) × (syscall_init fork_or_other ≡ some hm)
    × (syscall_stub_get hm (syscall_name Call.syscall_fork_stub)
        ≡ some (some (record { syscall_stub_address = 0x100040; syscall_stub_size = 12 })))
unfolding syscall_name
syscall_init-stub_named_example =
    syscall_init-stub_named fork_or_other (syscall_name Call.syscall_fork_stub)

hash_of_fork : syscall_stub_name_hash (syscall_name Call.syscall_fork_stub) ≡ 2090263927
unfolding syscall_stub_name_hash hash_loop signed_byte syscall_name
hash_of_fork = refl
