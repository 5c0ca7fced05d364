-- ===== src/Process/Descriptors.antt =====
-- The file descriptors of the active process (process.c), in its hash map, and the first process.
pub mod Laws
use raw_os.Common.{
  ℕ, ◌+◌, ◌*◌, ◌%◌, ◌^◌, Option, none, some, ◌==◌, if◌then◌else◌, Outcome, ok, ◌>>=◌,
}
use raw_os.HashMap.{Key, Slots, HashMap, write, hash_map_create, hash_map_put, hash_map_get}
use raw_os.Process.{Machine, FdMap, State, store}

unfoldable pub file_descriptor_key : Key ℕ
file_descriptor_key = record { key_compare = λ fd1 fd2. fd1 == fd2; key_hash = λ fd. fd % 2 ^ 32 }

-- The hash map of a struct in memory.
abbrev pub load : (ℕ → Slots ℕ ℕ) → FdMap → HashMap ℕ ℕ
load arrays d = record {
  capacity = d.capacity;
  num_elements = d.num_elements;
  slots = arrays d.data_address;
}

module _ {M : Type 0} where
  -- The node, or 0.
  unfoldable pub process_get_node_of_fd_of_active_process : State M → ℕ → Option ℕ
  process_get_node_of_fd_of_active_process s fd =
      let process = s.heap s.active_process in
      elim (hash_map_get file_descriptor_key (load s.arrays process.file_descriptors) fd) [
        | none ↦ none
        | some none ↦ some 0
        | some (some node) ↦ some node
      ]

module _ {M : Type 0} (os : Machine M) where
  -- The result of a put: only a map that grew has a new array, of 32-bit size, and frees the old one.
  unfoldable pub store_map : State M → FdMap → HashMap ℕ ℕ → FdMap × State M
  store_map s d hm =
      if hm.capacity == d.capacity
      then (
        record d { num_elements = hm.num_elements },
        record s { arrays = write s.arrays d.data_address hm.slots },
      )
      else let allocated = os.kalloc_alloc s.machine (hm.capacity * 12 % 2 ^ 32) in
        (
          record {
            capacity = hm.capacity;
            num_elements = hm.num_elements;
            data_address = allocated.0;
          },
          record s {
            machine = os.kalloc_free (allocated.1) d.data_address;
            arrays = write s.arrays (allocated.0) hm.slots;
          },
        )

  -- `none` where the loop of `hash_map_put` does not end. The next descriptor is kept as 32 bits.
  unfoldable pub process_add_fd_to_active_process : State M → ℕ → Option (State M × ℕ)
  process_add_fd_to_active_process s node =
      let process = s.heap s.active_process in
      let fd = process.fd_next in
      elim (hash_map_put file_descriptor_key 2 (load s.arrays process.file_descriptors) fd node) [
        | none ↦ none
        | some hm ↦
            let stored = store_map s process.file_descriptors hm in
            some (
              record (stored.1) {
                heap =
                    store s.heap s.active_process
                      (record process { file_descriptors = stored.0; fd_next = (fd + 1) % 2 ^ 32 });
              },
              fd,
            )
      ]

  -- The first part of `process_init`: the first process, linked to itself.
  unfoldable pub init_first : State M → ℕ → Outcome (State M)
  init_first s kernel_page_directory =
      let allocated = os.kalloc_alloc s.machine 60 in
      let first = allocated.0 in
      let hm : HashMap ℕ ℕ = hash_map_create 16 in
      let array = os.kalloc_alloc (allocated.1) (hm.capacity * 12 % 2 ^ 32) in
      os.paging_clone_page_directory_for_new_process (array.1) kernel_page_directory >>= λ cloned.
      ok (record {
        machine = cloned.1;
        arrays = write s.arrays (array.0) hm.slots;
        heap = store s.heap first (record (s.heap first) {
          file_descriptors = record {
            capacity = hm.capacity;
            num_elements = hm.num_elements;
            data_address = array.0;
          };
          fd_next = 0;
          previous = first;
          next = first;
          pid = s.current_pid;
          page_directory = cloned.0;
        });
        current_pid = (s.current_pid + 1) % 2 ^ 32;
        active_process = first;
      })
