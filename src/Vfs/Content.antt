-- ===== src/Vfs/Content.antt =====
-- What the ramdisk's image contains, and what `vfs_init` and `initrd_read` make of it.
use raw_os.Common.{
  ℕ, zero, suc, ◌+◌, ◌*◌, ◌≤◌, ◌≡◌, refl, ap, List, [], ◌∷◌, ◌++◌, some, none, ok, arith, drop,
  length, length-take,
}
use raw_os.CString.Laws.{IsCString, text_of, strcpy-IsCString}
use raw_os.Vfs.{
  vfs_root_lookup_fn, initrd_lookup_fn, dev_lookup_fn, dev_read_fn, dev_write_fn,
  vfs_root_readdir_fn, initrd_readdir_fn, dev_readdir_fn, VfsNode, Fs, initrd_name, dev_name,
  screen_name, keyboard_name,
}
use raw_os.Vfs.Init.{
  word_of, header_len, file, file_name, file_size, init_files, directory, device, initrd_init,
  dev_init, vfs_init,
}
use raw_os.Vfs.Tree.{FilesAreMounted, IsMounted}

-- `n` headers from the `i`th on: each has a name with a zero byte, and a size.
abbrev pub HeadersAreValid : List ℕ → ℕ → ℕ → Type 0
HeadersAreValid image i zero = Unit {0}
HeadersAreValid image i (suc n) =
    IsCString (file_name image i)
    × ((size : ℕ) × (file_size image i ≡ ok size))
    × HeadersAreValid image (suc i) n

-- The nodes and the offsets of the files: in the order of the headers, with their names and sizes,
-- numbered from 1 on, and each file's bytes directly after those of the file before.
abbrev pub AreFilesOf : List ℕ → ℕ → ℕ → List VfsNode → List ℕ → Type 0
AreFilesOf image i position [] [] = Unit {0}
AreFilesOf image i position (node ∷ nodes) (offset ∷ offsets) =
    (text_of node.name ≡ text_of (file_name image i))
    × (file_size image i ≡ ok node.size)
    × (node.inode ≡ i + 1)
    × (offset ≡ position)
    × AreFilesOf image (suc i) (position + node.size) nodes offsets
AreFilesOf image i position _ _ = ⊥

length-file_name : (image : List ℕ) (i : ℕ) → length (file_name image i) ≤ 256
unfolding file_name
length-file_name image i = omega (arith, length-take 256 (drop (4 + header_len * i) image))

le_trans : {a b c : ℕ} → a ≤ b → b ≤ c → a ≤ c
le_trans p q = omega arith

init_files-AreFilesOf :
    (junk image : List ℕ) (i n position : ℕ)
    → 256 ≤ length junk
    → HeadersAreValid image i n
    → (files : List VfsNode × List ℕ) × (init_files junk image i n position ≡ ok files)
      × (length files.0 ≡ n)
      × FilesAreMounted files.0
      × AreFilesOf image i position files.0 files.1
unfolding init_files file
init_files-AreFilesOf junk image i zero position hj h = (([], []), refl, refl, tt, tt)
init_files-AreFilesOf junk image i (suc n) position hj (named, (size, hs), h) =
    let (name, e, z, t) =
      strcpy-IsCString junk (file_name image i) named (le_trans (length-file_name image i) hj) in
    let (files, ef, l, fm, fo) =
      init_files-AreFilesOf junk image (suc i) n (position + size) hj h in
    (
      (file name size i ∷ files.0, position ∷ files.1),
      rw (e, hs, ef) refl,
      ap suc l,
      (z, refl, fm),
      (t, hs, refl, refl, fo),
    )

-- `vfs_init` with an image whose headers are valid returns, and the tree is mounted: it has one node
-- for each file, with the header's name and size, and the files' bytes follow the headers in order.
pub vfs_init-IsMounted :
    (junk image : List ℕ) (n : ℕ)
    → 256 ≤ length junk
    → word_of image ≡ ok n
    → HeadersAreValid image 0 n
    → (fs : Fs) × (vfs_init junk image ≡ ok fs)
      × IsMounted fs
      × (length fs.initrd_files_nodes ≡ n)
      × AreFilesOf fs.image 0 (4 + n * header_len) fs.initrd_files_nodes fs.initrd_files_data
unfolding vfs_init initrd_init dev_init directory device
vfs_init-IsMounted junk image n hj hw h =
    let (files, ef, l, fm, fo) = init_files-AreFilesOf junk image 0 n (4 + n * header_len) hj h in
    let (name, e, z, t) = strcpy-IsCString junk (0 ∷ []) tt (omega arith) in
    let (initrd, e1, z1, t1) = strcpy-IsCString junk (initrd_name ++ 0 ∷ []) tt (omega arith) in
    let (dev, e2, z2, t2) = strcpy-IsCString junk (dev_name ++ 0 ∷ []) tt (omega arith) in
    let (screen, e3, z3, t3) = strcpy-IsCString junk (screen_name ++ 0 ∷ []) tt (omega arith) in
    let (keyboard, e4, z4, t4) = strcpy-IsCString junk (keyboard_name ++ 0 ∷ []) tt (omega arith) in
    (
      record {
        root = directory name vfs_root_readdir_fn vfs_root_lookup_fn;
        initrd_root = directory initrd initrd_readdir_fn initrd_lookup_fn;
        initrd_files_nodes = files.0;
        image = image;
        initrd_files_data = files.1;
        dev_root = directory dev dev_readdir_fn dev_lookup_fn;
        screen = device screen none (some dev_write_fn);
        keyboard = device keyboard (some dev_read_fn) none;
      },
      rw (e, hw, ef, e1, e2, e3, e4) refl,
      record {
        root = refl;
        initrd = refl;
        dev = refl;
        screen = refl;
        keyboard = refl;
        initrd_named = z1;
        dev_named = z2;
        files = fm;
      },
      l,
      fo,
    )
