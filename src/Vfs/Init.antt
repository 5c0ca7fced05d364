-- ===== src/Vfs/Init.antt =====
-- fs/vfs.c, fs/initrd.c and fs/dev.c: how the nodes are set up, and reading a file of the ramdisk.
-- `junk` is what a node's name holds after `kalloc_alloc`; each of these calls is taken to succeed.
use raw_os.Common.{
  ℕ, zero, suc, ◌+◌, ◌-◌, ◌*◌, ◌^◌, List, [], ◌∷◌, ◌++◌, Option, some, none, Outcome, ok, fault,
  ◌>>=◌, leb, ◌==◌, if◌then◌else◌, get_elem?, min, take, drop,
}
use raw_os.CString.{strcpy, memcpy}
use raw_os.Vfs.{
  Lookup, vfs_root_lookup_fn, initrd_lookup_fn, dev_lookup_fn, Read, initrd_read_fn, dev_read_fn,
  Write, dev_write_fn, Readdir, vfs_root_readdir_fn, initrd_readdir_fn, dev_readdir_fn, VfsNode, Fs,
  initrd_name, dev_name, screen_name, keyboard_name,
}

-- A little-endian word of the image.
unfoldable pub word_of : List ℕ → Outcome ℕ
word_of (a ∷ b ∷ c ∷ d ∷ bytes) = ok (a + b * 2 ^ 8 + c * 2 ^ 16 + d * 2 ^ 24)
word_of _ = fault

abbrev pub header_len : ℕ
header_len = 260

-- `headers[i].file_name` and `headers[i].file_size`
unfoldable pub file_name : List ℕ → ℕ → List ℕ
file_name image i = take 256 (drop (4 + header_len * i) image)

unfoldable pub file_size : List ℕ → ℕ → Outcome ℕ
file_size image i = word_of (drop (4 + header_len * i + 256) image)

-- The assignments to a file's node.
unfoldable pub file : List ℕ → ℕ → ℕ → VfsNode
file name size i = record {
  name = name;
  flags = 0x01;
  inode = i + 1;
  size = size;
  read = some initrd_read_fn;
  write = none;
  readdir = none;
  lookup = none;
}

-- The loop of `initrd_init`: the nodes and the data of `n` files from the `i`th on; `position` is
-- where `initrd_data` points to.
unfoldable pub init_files : List ℕ → List ℕ → ℕ → ℕ → ℕ → Outcome (List VfsNode × List ℕ)
init_files junk image i zero position = ok ([], [])
init_files junk image i (suc n) position = strcpy junk (file_name image i) >>= λ name.
    file_size image i >>= λ size. init_files junk image (suc i) n (position + size) >>= λ files.
    ok (file name size i ∷ files.0, position ∷ files.1)

-- The assignments to a directory's node.
unfoldable pub directory : List ℕ → Readdir → Lookup → VfsNode
directory name readdir lookup = record {
  name = name;
  flags = 0x02;
  inode = 0;
  size = 0;
  read = none;
  write = none;
  readdir = some readdir;
  lookup = some lookup;
}

-- The assignments to a device's node.
unfoldable pub device : List ℕ → Option Read → Option Write → VfsNode
device name read write = record {
  name = name;
  flags = 0x01;
  inode = 0;
  size = 0;
  read = read;
  write = write;
  readdir = none;
  lookup = none;
}

unfoldable pub initrd_init : List ℕ → List ℕ → Outcome (VfsNode × List VfsNode × List ℕ)
initrd_init junk image = word_of image >>= λ num_files.
    init_files junk image 0 num_files (4 + num_files * header_len) >>= λ files.
    strcpy junk (initrd_name ++ 0 ∷ []) >>= λ name.
    ok (directory name initrd_readdir_fn initrd_lookup_fn, files.0, files.1)

unfoldable pub dev_init : List ℕ → Outcome (VfsNode × VfsNode × VfsNode)
dev_init junk = strcpy junk (dev_name ++ 0 ∷ []) >>= λ name.
    strcpy junk (screen_name ++ 0 ∷ []) >>= λ screen.
    strcpy junk (keyboard_name ++ 0 ∷ []) >>= λ keyboard. ok (
      directory name dev_readdir_fn dev_lookup_fn,
      device screen none (some dev_write_fn),
      device keyboard (some dev_read_fn) none,
    )

unfoldable pub vfs_init : List ℕ → List ℕ → Outcome Fs
vfs_init junk image = strcpy junk (0 ∷ []) >>= λ name. initrd_init junk image >>= λ initrd.
    dev_init junk >>= λ dev. ok record {
      root = directory name vfs_root_readdir_fn vfs_root_lookup_fn;
      initrd_root = initrd.0;
      initrd_files_nodes = initrd.1;
      image = image;
      initrd_files_data = initrd.2;
      dev_root = dev.0;
      screen = dev.1;
      keyboard = dev.2;
    }

-- The number of bytes that are read, and the buffer after it.
unfoldable pub initrd_read : Fs → VfsNode → ℕ → ℕ → List ℕ → Outcome (ℕ × List ℕ)
initrd_read fs vfs_node offset size buf =
    if leb vfs_node.size offset
    then ok (0, buf)
    else if vfs_node.inode == 0
    then fault
    else (elim (get_elem? fs.initrd_files_data (vfs_node.inode - 1)) [
      | none ↦ fault
      | some file_data ↦
          memcpy buf (drop (file_data + offset) fs.image) (min size (vfs_node.size - offset))
          >>= λ buf. ok (min size (vfs_node.size - offset), buf)
    ])
