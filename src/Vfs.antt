-- ===== src/Vfs.antt =====
-- fs/vfs.c, fs/initrd.c, fs/dev.c and fs/util.c: the tree of nodes, with the files of the initial
-- ramdisk and the two devices, and the search for a path.
pub mod Tree
pub mod Resolve
pub mod Init
pub mod Content
pub mod Reading
mod Tests
use raw_os.Common.{
  ℕ, zero, suc, ◌+◌, ◌-◌, ◌*◌, Bool, true, false, not, List, [], ◌∷◌, ◌++◌, Option, some, none,
  Outcome, ok, panicked, fault, ◌>>=◌, ◌>>◌, assert, ltb, leb, ◌==◌, if◌then◌else◌, get_elem?, set,
  length, min, take, drop,
}
use raw_os.CString.{strcpy, strcmp, memcpy}

-- The nodes that a pointer can point to; `none` is the null pointer.
pub data Pointer : Type 0 where
  vfs_root : Pointer
  initrd_root_node : Pointer
  initrd_file : ℕ → Pointer
  dev_root_node : Pointer
  screen_node : Pointer
  keyboard_node : Pointer

-- The functions that a node's field can point to.
pub data Lookup : Type 0 where
  vfs_root_lookup_fn : Lookup
  initrd_lookup_fn : Lookup
  dev_lookup_fn : Lookup

pub data Read : Type 0 where
  initrd_read_fn : Read
  dev_read_fn : Read

pub data Write : Type 0 where
  dev_write_fn : Write

pub data Readdir : Type 0 where
  vfs_root_readdir_fn : Readdir
  initrd_readdir_fn : Readdir
  dev_readdir_fn : Readdir

-- `open` and `close` are null in every node that the code makes.
pub record VfsNode : Type 0 where
  pub name : List ℕ
  pub flags : ℕ
  pub inode : ℕ
  pub size : ℕ
  pub read : Option Read
  pub write : Option Write
  pub readdir : Option Readdir
  pub lookup : Option Lookup

-- The static variables of the three files, and the nodes that they point to. `root_nodes` is always
-- the pair of the ramdisk's root and the devices' root. A pointer into the ramdisk is an offset in
-- its `image`.
pub record Fs : Type 0 where
  pub root : VfsNode
  pub initrd_root : VfsNode
  pub initrd_files_nodes : List VfsNode
  pub image : List ℕ
  pub initrd_files_data : List ℕ
  pub dev_root : VfsNode
  pub screen : VfsNode
  pub keyboard : VfsNode

unfoldable pub node_at : Fs → Pointer → Outcome VfsNode
node_at fs vfs_root = ok fs.root
node_at fs initrd_root_node = ok fs.initrd_root
node_at fs (initrd_file i) = elim (get_elem? fs.initrd_files_nodes i) [
  | none ↦ fault
  | some node ↦ ok node
]
node_at fs dev_root_node = ok fs.dev_root
node_at fs screen_node = ok fs.screen
node_at fs keyboard_node = ok fs.keyboard

-- "initrd", "dev", "screen" and "keyboard", without the zero byte at their end.
abbrev pub initrd_name : List ℕ
initrd_name = 105 ∷ 110 ∷ 105 ∷ 116 ∷ 114 ∷ 100 ∷ []

abbrev pub dev_name : List ℕ
dev_name = 100 ∷ 101 ∷ 118 ∷ []

abbrev pub screen_name : List ℕ
screen_name = 115 ∷ 99 ∷ 114 ∷ 101 ∷ 101 ∷ 110 ∷ []

abbrev pub keyboard_name : List ℕ
keyboard_name = 107 ∷ 101 ∷ 121 ∷ 98 ∷ 111 ∷ 97 ∷ 114 ∷ 100 ∷ []

-- The loop of both lookups, over the pointers and the nodes still to be compared.
unfoldable pub lookup_loop : List ℕ → List (Pointer × VfsNode) → Outcome (Option Pointer)
lookup_loop path [] = ok none
lookup_loop path ((p, node) ∷ nodes) =
    let rest = lookup_loop path nodes in
    strcmp path node.name >>= λ differ. if differ == 0 then ok (some p) else rest

unfoldable pub root_nodes : Fs → List (Pointer × VfsNode)
root_nodes fs = (initrd_root_node, fs.initrd_root) ∷ (dev_root_node, fs.dev_root) ∷ []

unfoldable pub files_from : ℕ → List VfsNode → List (Pointer × VfsNode)
files_from i [] = []
files_from i (node ∷ nodes) = (initrd_file i, node) ∷ files_from (suc i) nodes

-- Each asserts that it is called for the node that it belongs to.
unfoldable pub vfs_root_lookup : Fs → Pointer → List ℕ → Outcome (Option Pointer)
vfs_root_lookup fs vfs_root path = lookup_loop path (root_nodes fs)
vfs_root_lookup fs _ path = panicked

unfoldable pub initrd_lookup : Fs → Pointer → List ℕ → Outcome (Option Pointer)
initrd_lookup fs initrd_root_node path = lookup_loop path (files_from 0 fs.initrd_files_nodes)
initrd_lookup fs _ path = panicked

-- This one asserts nothing. Its constants end with a zero byte, as every C string.
unfoldable pub dev_lookup : Fs → Pointer → List ℕ → Outcome (Option Pointer)
dev_lookup fs dev_root_node path = strcmp path (screen_name ++ 0 ∷ []) >>= λ differ.
    if differ == 0
    then ok (some screen_node)
    else (strcmp path (keyboard_name ++ 0 ∷ []) >>= λ differ.
        if differ == 0 then ok (some keyboard_node) else ok none)
dev_lookup fs _ path = ok none

-- The call through the pointer in the node.
unfoldable pub call_lookup : Fs → Option Lookup → Pointer → List ℕ → Outcome (Option Pointer)
call_lookup fs none p path = ok none
call_lookup fs (some vfs_root_lookup_fn) p path = vfs_root_lookup fs p path
call_lookup fs (some initrd_lookup_fn) p path = initrd_lookup fs p path
call_lookup fs (some dev_lookup_fn) p path = dev_lookup fs p path

unfoldable pub vfs_lookup : Fs → Pointer → List ℕ → Outcome (Option Pointer)
vfs_lookup fs p path = node_at fs p >>= λ node. call_lookup fs node.lookup p path

abbrev pub slash : ℕ
slash = 47

-- `filename_buffer[n] = c`
unfoldable pub put : List ℕ → ℕ → ℕ → Outcome (List ℕ)
put buffer n c = if ltb n (length buffer) then ok (set buffer n c) else fault

-- The loop of `fs_util_get_node_by_path` and what follows it: `path` is what is left to read, `n`
-- the position in the buffer.
unfoldable pub path_loop : Fs → Pointer → List ℕ → ℕ → List ℕ → Outcome (Option Pointer)
path_loop fs result buffer n [] = fault
path_loop fs result buffer zero (zero ∷ path) = ok (some result)
path_loop fs result buffer (suc n) (zero ∷ path) =
    put buffer (suc n) 0 >>= λ filename. vfs_lookup fs result filename
path_loop fs result buffer n (suc c ∷ path) =
    if suc c == slash
    then (put buffer n 0 >>= λ filename. vfs_lookup fs result filename >>= λ found. elim found [
      | none ↦ ok none
      | some next ↦ path_loop fs next filename 0 path
    ])
    else (put buffer n (suc c) >>= λ filename. path_loop fs result filename (suc n) path)

-- `filename_buffer` is what the array on the stack holds at first.
unfoldable pub fs_util_get_node_by_path : Fs → List ℕ → List ℕ → Outcome (Option Pointer)
fs_util_get_node_by_path fs filename_buffer [] = fault
fs_util_get_node_by_path fs filename_buffer (c ∷ path) =
    if c == slash then path_loop fs vfs_root filename_buffer 0 path else ok none
