-- ===== src/Process/Tests.antt =====
-- Examples for process.c, over a machine that hands out addresses one after the other.
use raw_os.Common.{
  zero, suc, ℕ, ◌+◌, ◌≡◌, refl, [], ◌∷◌, none, some, ◌==◌, if◌then◌else◌, ok, arith, ◌&&◌,
}
use raw_os.HashMap.{hash_map_create}
use raw_os.HashMap.Grow.{IsValid}
use raw_os.HashMap.Laws.{hash_map_create-get}
use raw_os.Process.{
  Machine, Process, State, Registers, process_fork, fork_resume, context_of, switches,
}
use raw_os.Process.Queue.{IsCopied, IsQueue, Holds, process_fork-IsQueue}
use raw_os.Process.Switch.{switches-resume}
use raw_os.Process.Descriptors.{
  file_descriptor_key, process_add_fd_to_active_process, process_get_node_of_fd_of_active_process,
}
use raw_os.Process.Descriptors.Laws.{descriptors, file_descriptor_key-IsLawful, process_add_fd-get}
use raw_os.Process.Tables.{
  Tables, has_directory, process_link_kernel_table_to_all_address_spaces,
  process_link_kernel_table-all,
}

-- The state is the next free address.
abbrev counting : Machine ℕ
counting = record {
  interrupt_disable = λ m. m;
  kalloc_alloc = λ m size. (m, m + size);
  kalloc_free = λ m address. m;
  paging_clone_page_directory_for_new_process = λ m directory. ok (m, m + 1);
  paging_get_page_frame_address = λ m directory page_num. ok page_num;
  paging_copy_frame = λ m target source. m;
  paging_clean_all_non_kernel_pages_from_page_directory = λ m directory. m;
  paging_get_page_directory_x86_tables_frame_address = λ m directory. directory;
}

-- The processes at 10, 20 and 30, in this order.
abbrev process_at : ℕ → ℕ → ℕ → ℕ → Process
process_at pid directory previous next = record {
  pid = pid;
  esp = 0;
  ebp = 0;
  eip = 100 + pid;
  page_directory = directory;
  file_descriptors = record { capacity = 16; num_elements = 0; data_address = 500 };
  fd_next = 3;
  previous = previous;
  next = next;
}

abbrev three : State ℕ
three = record {
  machine = 1000;
  heap = λ x.
      if x == 10
      then process_at 1 71 30 20
      else if x == 20
      then process_at 2 72 10 30
      else process_at 3 73 20 10;
  arrays = λ i j. none;
  current_pid = 4;
  active_process = 10;
}

abbrev registers : Registers
registers = record { eip = 77; esp = 88; ebp = 99 }

three-IsQueue : IsQueue three (10 ∷ 20 ∷ 30 ∷ [])
three-IsQueue = (
  refl,
  (
    ((refl, refl), ((refl, refl), (refl, refl))),
    (
      ((λ e. ground (arith, e)), ((λ e. ground (arith, e)), tt)),
      (((λ e. ground (arith, e)), tt), (tt, tt)),
    ),
    ((λ e. ground (arith, e)), ((λ e. ground (arith, e)), ((λ e. ground (arith, e)), tt))),
  ),
)

-- The state in which the new process goes on.
abbrev resumed : State ℕ
resumed = record three { active_process = 1000 }

counting-IsCopied : (n i : ℕ) → IsCopied counting 1060 71 n i 1061 1061
counting-IsCopied zero i = refl
counting-IsCopied (suc n) i = (_, _, refl, refl, counting-IsCopied n (i + 1))

process_fork-IsQueue_example :
    (after : State ℕ) × (process_fork counting three registers ≡ ok (after, 4))
    × IsQueue after (10 ∷ 20 ∷ 30 ∷ 1000 ∷ [])
    × Holds (after.heap 1000) 4 registers
    × ((after.heap 1000).page_directory ≡ 1060)
    × (after.machine ≡ 1061)
    × (fork_resume counting resumed 1000 registers ≡ ok (resumed, 0))
process_fork-IsQueue_example =
    process_fork-IsQueue counting 1000 1060 registers 1060 1061 1061 three 10 (20 ∷ 30 ∷ [])
      registers resumed three-IsQueue refl
      ((λ e. ground (arith, e)), ((λ e. ground (arith, e)), ((λ e. ground (arith, e)), tt)))
      (λ e. ground (arith, e)) refl (counting-IsCopied 2048 0) refl

switches-resume_example :
    IsQueue (switches counting three (registers ∷ registers ∷ registers ∷ [])) (10 ∷ 20 ∷ 30 ∷ [])
    × ((context_of counting (switches counting three (registers ∷ registers ∷ registers ∷ []))).eip
        ≡ 77)
    × ((context_of counting (switches counting three (registers ∷ registers ∷ registers ∷ []))).esp
        ≡ 88)
    × ((context_of counting (switches counting three (registers ∷ registers ∷ registers ∷ []))).ebp
        ≡ 99)
switches-resume_example =
    switches-resume counting three 10 (20 ∷ 30 ∷ []) registers (registers ∷ registers ∷ [])
      three-IsQueue refl
      ((λ e. ground (arith, e)), ((λ e. ground (arith, e)), ((λ e. ground (arith, e)), tt)))

process_add_fd-get_example :
    (s' : State ℕ) × (process_add_fd_to_active_process counting three 4242 ≡ some (s', 3))
    × IsValid file_descriptor_key (descriptors s')
    × ((s'.heap s'.active_process).fd_next ≡ 4)
    × (process_get_node_of_fd_of_active_process s' 3
        ≡ (if 3 == 3 then some 4242 else process_get_node_of_fd_of_active_process three 3))
unfolding hash_map_create
process_add_fd-get_example =
    process_add_fd-get counting three 4242 3
      ((hash_map_create-get file_descriptor_key file_descriptor_key-IsLawful 16 0).0) (omega arith)
      (omega arith)

abbrev no_tables : Tables
no_tables = record { tables = λ d i. 0; tables_x86_representation = λ d i. 0 }

process_link_kernel_table-all_example :
    (t' : Tables) × (process_link_kernel_table_to_all_address_spaces 3 three.heap 10 0xF000 800
        0xABC no_tables
      ≡ ok (some t'))
    × (t'.tables 72 800
        ≡ (if has_directory three.heap (10 ∷ 20 ∷ 30 ∷ []) 72 && (800 == 800) then 0xF000 else 0))
    × (t'.tables_x86_representation 72 800
        ≡ (if has_directory three.heap (10 ∷ 20 ∷ 30 ∷ []) 72 && (800 == 800) then 0xABC else 0))
process_link_kernel_table-all_example =
    process_link_kernel_table-all three.heap 10 (20 ∷ 30 ∷ []) 3 0xF000 800 0xABC no_tables 72 800
      (three-IsQueue.1) (omega arith)
