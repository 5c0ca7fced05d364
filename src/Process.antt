-- ===== src/Process.antt =====
-- process.c: the processes are a circular list, linked by pointers in both directions; the memory is
-- a function from addresses to process structs. The operations of alloc/kalloc.c and paging.c that
-- the processes use are an interface over a state of the machine.
pub mod Ring
pub mod Moves
pub mod Queue
pub mod Switch
pub mod Descriptors
pub mod Tables
mod Tests
use raw_os.Common.{
  ℕ, zero, suc, ◌+◌, ◌-◌, ◌*◌, ◌/◌, ◌%◌, ◌^◌, Bool, List, [], ◌∷◌, Option, none, some, Outcome, ok,
  ◌>>=◌, ◌==◌, if◌then◌else◌,
}
use raw_os.HashMap.{Key, Slots, HashMap, write, hash_map_create, hash_map_put, hash_map_get}

-- What process.c calls. The address of a page directory is a number. Cloning a directory panics if no
-- frame is free, and so does asking for the frame of a page that is not there.
pub record Machine (M : Type 0) : Type 0 where
  pub interrupt_disable : M → M
  pub kalloc_alloc : M → ℕ → ℕ × M
  pub kalloc_free : M → ℕ → M
  pub paging_clone_page_directory_for_new_process : M → ℕ → Outcome (ℕ × M)
  pub paging_get_page_frame_address : M → ℕ → ℕ → Outcome ℕ
  pub paging_copy_frame : M → ℕ → ℕ → M
  pub paging_clean_all_non_kernel_pages_from_page_directory : M → ℕ → M
  pub paging_get_page_directory_x86_tables_frame_address : M → ℕ → ℕ

-- A `Hash_Map` struct with file descriptors as its keys; a copy of it shares the array at `data_address`.
pub record FdMap : Type 0 where
  pub capacity : ℕ
  pub num_elements : ℕ
  pub data_address : ℕ

pub record Process : Type 0 where
  pub pid : ℕ
  pub esp : ℕ
  pub ebp : ℕ
  pub eip : ℕ
  pub page_directory : ℕ
  pub file_descriptors : FdMap
  pub fd_next : ℕ
  pub previous : ℕ
  pub next : ℕ

-- The memory that holds the structs and the arrays of the hash maps, and the static variables; the
-- address 0 is no process.
pub record State (M : Type 0) : Type 0 where
  pub machine : M
  pub heap : ℕ → Process
  pub arrays : ℕ → Slots ℕ ℕ
  pub current_pid : ℕ
  pub active_process : ℕ

-- The registers that a function reads: `util_get_eip`, and esp and ebp.
pub record Registers : Type 0 where
  pub eip : ℕ
  pub esp : ℕ
  pub ebp : ℕ

-- The arguments of `process_switch_context`.
pub record Context : Type 0 where
  pub eip : ℕ
  pub esp : ℕ
  pub ebp : ℕ
  pub page_directory_x86_tables_frame_addr : ℕ

-- How `process_exit` ends.
pub data Exit (M : Type 0) : Type 0 where
  halted : Exit M
  switched : State M → Context → Exit M

abbrev pub store : (ℕ → Process) → ℕ → Process → ℕ → Process
store heap at process x = if x == at then process else heap x

abbrev pub set_next : (ℕ → Process) → ℕ → ℕ → ℕ → Process
set_next heap at target = store heap at (record (heap at) { next = target })

abbrev pub set_previous : (ℕ → Process) → ℕ → ℕ → ℕ → Process
set_previous heap at target = store heap at (record (heap at) { previous = target })

-- The links that `process_fork` sets, in its order.
unfoldable pub link_before : (ℕ → Process) → ℕ → ℕ → ℕ → Process
link_before heap active new_process =
    let previous = (heap active).previous in
    let heap = set_next heap previous new_process in
    let heap = set_previous heap new_process previous in
    let heap = set_previous heap active new_process in set_next heap new_process active

-- The links that `process_exit` sets, in its order.
unfoldable pub unlink : (ℕ → Process) → ℕ → ℕ → Process
unlink heap exiting =
    let heap = set_previous heap (heap exiting).next (heap exiting).previous in
    set_next heap (heap exiting).previous (heap exiting).next

module _ {M : Type 0} (os : Machine M) where
  -- `n` pages of the kernel stack are copied, from the page `i` below its top on.
  unfoldable pub copy_kernel_stack : M → ℕ → ℕ → ℕ → ℕ → Outcome M
  copy_kernel_stack machine new_directory directory i zero = ok machine
  copy_kernel_stack machine new_directory directory i (suc n) =
      let page_num = 0xF0000000 / 0x1000 - i in
      os.paging_get_page_frame_address machine new_directory page_num >>= λ frame_dst_addr.
      os.paging_get_page_frame_address machine directory page_num >>= λ frame_src_addr.
      copy_kernel_stack (os.paging_copy_frame machine frame_dst_addr frame_src_addr) new_directory
        directory (i + 1) n

  -- From the return of `util_get_eip` on: the parent comes here at once, the child when it is run.
  unfoldable pub fork_resume : State M → ℕ → Registers → Outcome (State M × ℕ)
  fork_resume s new_process registers =
      if s.active_process == new_process
      then ok (s, 0)
      else (let directory = (s.heap s.active_process).page_directory in
          os.paging_clone_page_directory_for_new_process s.machine directory >>= λ cloned.
          copy_kernel_stack (cloned.1) (cloned.0) directory 0 2048 >>= λ machine. ok (
            record {
              machine = machine;
              arrays = s.arrays;
              heap = store s.heap new_process (record (s.heap new_process) {
                page_directory = cloned.0;
                file_descriptors = (s.heap s.active_process).file_descriptors;
                pid = s.current_pid;
                eip = registers.eip;
                esp = registers.esp;
                ebp = registers.ebp;
              });
              current_pid = (s.current_pid + 1) % 2 ^ 32;
              active_process = s.active_process;
            },
            s.current_pid,
          ))

  unfoldable pub process_fork : State M → Registers → Outcome (State M × ℕ)
  process_fork s registers =
      let allocated = os.kalloc_alloc (os.interrupt_disable s.machine) 60 in
      fork_resume
        (record s {
          machine = allocated.1;
          heap = link_before s.heap s.active_process (allocated.0);
        })
        (allocated.0) registers

  -- The call of `process_switch_context` for the active process.
  unfoldable pub context_of : State M → Context
  context_of s =
      let process = s.heap s.active_process in
      record {
        eip = process.eip;
        esp = process.esp;
        ebp = process.ebp;
        page_directory_x86_tables_frame_addr =
            os.paging_get_page_directory_x86_tables_frame_address s.machine process.page_directory;
      }

  -- The state, and the context that is switched to, if there is a switch.
  unfoldable pub process_switch : State M → Registers → State M × Option Context
  process_switch s registers =
      if s.active_process == 0
      then (s, none)
      else if (s.heap s.active_process).next == 0
      then (s, none)
      else if registers.eip == 0x12345678
      then (s, none)
      else let saved = store s.heap s.active_process (record (s.heap s.active_process) {
        eip = registers.eip;
        esp = registers.esp;
        ebp = registers.ebp;
      }) in
        let s' : State M = record s {
          heap = saved;
          active_process = (saved s.active_process).next;
        } in
        (s', some (context_of s'))

  unfoldable pub process_exit : State M → Exit M
  process_exit s =
      let exiting = s.active_process in
      let cleaned =
        os.paging_clean_all_non_kernel_pages_from_page_directory s.machine
          (s.heap exiting).page_directory in
      let active = (s.heap exiting).next in
      let s' : State M = record {
        machine = os.kalloc_free cleaned exiting;
        heap = unlink s.heap exiting;
        arrays = s.arrays;
        current_pid = s.current_pid;
        active_process = active;
      } in
      if active == exiting then halted else switched s' (context_of s')

  -- One switch for each element of the list.
  unfoldable pub switches : State M → List Registers → State M
  switches s [] = s
  switches s (registers ∷ rest) = switches ((process_switch s registers).0) rest
