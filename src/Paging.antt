-- ===== src/Paging.antt =====
-- paging.c: page directories, page tables and frames. The memory that holds the tables is a function
-- from addresses; the pointer 0 is no table. The heap and the memory behind the virtual addresses
-- are an interface over a state of the machine; allocating may map new pages of the kernel.
pub mod Create
pub mod Clean
pub mod Entries
pub mod Swept
pub mod Removal
pub mod Tables
pub mod Marks
pub mod Table
pub mod Clone
mod Tests
use raw_os.Common.{
  ℕ, zero, suc, ◌+◌, ◌-◌, ◌*◌, ◌/◌, ◌%◌, ◌^◌, bit_or, Bool, true, false, not, ◌&&◌, Outcome, ok,
  fault, assert, ◌>>=◌, ◌>>◌, leb, ◌==◌, if◌then◌else◌,
}
use raw_os.Bitmap.{Bitmap}
use raw_os.Frames.{take_frame}

pub record PageEntry : Type 0 where
  pub present : Bool
  pub writable : Bool
  pub user_mode : Bool
  pub reserved : ℕ
  pub accessed : Bool
  pub dirty : Bool
  pub reserved2 : ℕ
  pub available : ℕ
  pub frame_address_20_bits : ℕ

abbrev pub zero_entry : PageEntry
zero_entry = record {
  present = false;
  writable = false;
  user_mode = false;
  reserved = 0;
  accessed = false;
  dirty = false;
  reserved2 = 0;
  available = 0;
  frame_address_20_bits = 0;
}

pub record PageDirectory : Type 0 where
  pub tables : ℕ → ℕ
  pub tables_x86_representation : ℕ → ℕ

-- The machine, the bitmap of the frames, and the directories and tables by their addresses.
pub record Paging (M : Type 0) : Type 0 where
  pub machine : M
  pub available_frames : Bitmap
  pub kernel_page_directory : ℕ
  pub directories : ℕ → PageDirectory
  pub page_tables : ℕ → ℕ → PageEntry

pub record Platform (M : Type 0) : Type 0 where
  pub kalloc_alloc_aligned : Paging M → ℕ → ℕ → Outcome (ℕ × Paging M)
  pub kalloc_free : M → ℕ → M
  pub paging_copy_frame : M → ℕ → ℕ → M
  pub read_byte : M → ℕ → ℕ
  pub write_byte : M → ℕ → ℕ → M

abbrev pub write : {A : Type 0} → (ℕ → A) → ℕ → A → ℕ → A
write f at value i = if i == at then value else f i

-- One entry of the table at an address.
abbrev pub set_entry : (ℕ → ℕ → PageEntry) → ℕ → ℕ → PageEntry → ℕ → ℕ → PageEntry
set_entry page_tables address j entry t k =
    if t == address && k == j then entry else page_tables t k

unfoldable pub is_page_part_of_kernel_stack_in_process_address_space : ℕ → Bool
is_page_part_of_kernel_stack_in_process_address_space page_num =
    let last_page_num = 0xF0000000 / 0x1000 in
    let first_page_num = last_page_num - 2048 in
    leb first_page_num page_num && leb page_num last_page_num

module _ {M : Type 0} where
  abbrev pub table_of : Paging M → ℕ → ℕ → ℕ
  table_of s directory i = (s.directories directory).tables i

  unfoldable pub get_physical_address_of_virtual_address : Paging M → ℕ → ℕ → Outcome ℕ
  get_physical_address_of_virtual_address s directory virtual_addr =
      let page_num = virtual_addr / 4096 in
      let page_offset = virtual_addr % 4096 in
      let table = table_of s directory (page_num / 1024) in
      if table == 0
      then fault
      else ok (
          ((s.page_tables table (page_num % 1024)).frame_address_20_bits * 0x1000 + page_offset)
          % 2 ^ 32)

  -- The field `tables_x86_representation` is 1024 pointers behind the start of the struct.
  unfoldable pub paging_get_page_directory_x86_tables_frame_address : Paging M → ℕ → Outcome ℕ
  paging_get_page_directory_x86_tables_frame_address s directory = do
    address ← get_physical_address_of_virtual_address s s.kernel_page_directory directory
    ok ((address + 4096) % 2 ^ 32)

  unfoldable pub paging_get_page_frame_address : Paging M → ℕ → ℕ → Outcome ℕ
  paging_get_page_frame_address s directory page_num =
      get_physical_address_of_virtual_address s directory (page_num * 0x1000 % 2 ^ 32)

  unfoldable pub page_exist : Paging M → ℕ → ℕ → Bool
  page_exist s directory page_num =
      let table = table_of s directory (page_num / 1024) in
      if table == 0 then false else (s.page_tables table (page_num % 1024)).present

  unfoldable pub get_page : Paging M → ℕ → ℕ → Outcome PageEntry
  get_page s directory page_num = do
    assert (not (table_of s directory (page_num / 1024) == 0))
    assert ((s.page_tables (table_of s directory (page_num / 1024)) (page_num % 1024)).present)
    ok (s.page_tables (table_of s directory (page_num / 1024)) (page_num % 1024))

module _ {M : Type 0} (platform : Platform M) where
  -- A new, empty table for the index `i` of a process's directory.
  unfoldable pub create_table : Paging M → ℕ → ℕ → Outcome (Paging M)
  create_table s directory i = platform.kalloc_alloc_aligned s 4096 0x1000 >>= λ allocated.
      let address = allocated.0 in
      let cleared : Paging M = record (allocated.1) {
        page_tables = write (allocated.1).page_tables address (λ j. zero_entry);
      } in
      paging_get_page_frame_address cleared cleared.kernel_page_directory (address / 0x1000)
      >>= λ frame_address.
          let old = cleared.directories directory in
          ok (record cleared {
            directories = write cleared.directories directory (record {
              tables = write old.tables i address;
              tables_x86_representation =
                  write old.tables_x86_representation i (bit_or frame_address 0x7);
            });
          })

  -- A free frame for a page of a table that exists, and the test of its first byte.
  unfoldable pub map_any_frame : Paging M → ℕ → ℕ → Bool → Outcome (ℕ × Paging M)
  map_any_frame s address page_num user_mode =
      let entry = s.page_tables address (page_num % 1024) in
      assert (not entry.present)
      >> (take_frame s.available_frames >>= λ taken.
          let machine = platform.write_byte s.machine (page_num * 0x1000) 0xAB in
          assert (platform.read_byte machine (page_num * 0x1000) == 0xAB)
          >> ok (
            taken.0,
            record s {
              machine = machine;
              available_frames = taken.1;
              page_tables = set_entry s.page_tables address (page_num % 1024) (record entry {
                present = true;
                user_mode = user_mode;
                writable = true;
                frame_address_20_bits = taken.0;
              });
            },
          ))

  unfoldable pub paging_create_process_page_with_any_frame :
      Paging M → ℕ → ℕ → Bool → Outcome (ℕ × Paging M)
  paging_create_process_page_with_any_frame s directory page_num user_mode = do
    s' ←
        (if table_of s directory (page_num / 1024) == 0
          then create_table s directory (page_num / 1024)
          else ok s)
    map_any_frame s' (table_of s' directory (page_num / 1024)) page_num user_mode
