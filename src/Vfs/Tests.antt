-- ===== src/Vfs/Tests.antt =====
-- Examples for the tree of nodes: a ramdisk with one file "a" that holds the bytes of "hi".
use raw_os.Common.{ℕ, ◌≡◌, refl, List, [], ◌∷◌, ◌++◌, some, none, ok, arith, length, replicate}
use raw_os.Vfs.{
  initrd_root_node, initrd_file, Fs, initrd_name, dev_name, screen_name, keyboard_name, root_nodes,
  files_from, slash, vfs_lookup, fs_util_get_node_by_path, vfs_root_lookup_fn, initrd_lookup_fn,
  dev_lookup_fn, vfs_root_readdir_fn, initrd_readdir_fn, dev_readdir_fn, dev_read_fn, dev_write_fn,
}
use raw_os.Vfs.Init.{word_of, file_name, file_size, vfs_init, initrd_read, file, directory, device}
use raw_os.Vfs.Tree.{IsMounted, children, vfs_lookup-children}
use raw_os.Vfs.Resolve.{fs_util_get_node_by_path-walk}
use raw_os.Vfs.Content.{AreFilesOf, vfs_init-IsMounted}
use raw_os.Vfs.Reading.{initrd_read-chunk}

abbrev image : List ℕ
image = 1 ∷ 0 ∷ 0 ∷ 0 ∷ 97 ∷ 0 ∷ replicate 254 0 ++ (2 ∷ 0 ∷ 0 ∷ 0 ∷ 104 ∷ 105 ∷ [])

vfs_init-IsMounted_example :
    (fs : Fs) × (vfs_init (replicate 256 7) image ≡ ok fs)
    × IsMounted fs
    × (length fs.initrd_files_nodes ≡ 1)
    × AreFilesOf fs.image 0 264 fs.initrd_files_nodes fs.initrd_files_data
unfolding word_of file_name file_size
vfs_init-IsMounted_example =
    vfs_init-IsMounted (replicate 256 7) image 1 (omega arith) refl (tt, (2, refl), tt)

abbrev mounted : Fs
mounted = record {
  root = directory (0 ∷ []) vfs_root_readdir_fn vfs_root_lookup_fn;
  initrd_root = directory (initrd_name ++ 0 ∷ []) initrd_readdir_fn initrd_lookup_fn;
  initrd_files_nodes = file (97 ∷ 0 ∷ []) 2 0 ∷ [];
  image = image;
  initrd_files_data = 264 ∷ [];
  dev_root = directory (dev_name ++ 0 ∷ []) dev_readdir_fn dev_lookup_fn;
  screen = device (screen_name ++ 0 ∷ []) none (some dev_write_fn);
  keyboard = device (keyboard_name ++ 0 ∷ []) (some dev_read_fn) none;
}

mounted-IsMounted : IsMounted mounted
unfolding directory file device
mounted-IsMounted = record {
  root = refl;
  initrd = refl;
  dev = refl;
  screen = refl;
  keyboard = refl;
  initrd_named = tt;
  dev_named = tt;
  files = (tt, refl, tt);
}

vfs_lookup-children_example :
    vfs_lookup mounted initrd_root_node (97 ∷ 0 ∷ []) ≡ ok (some (initrd_file 0))
unfolding children file files_from directory
vfs_lookup-children_example =
    vfs_lookup-children mounted initrd_root_node (97 ∷ 0 ∷ []) mounted-IsMounted tt tt

-- "/initrd/a"
fs_util_get_node_by_path-walk_example :
    fs_util_get_node_by_path mounted
      (replicate 256 7)
      (slash ∷ (initrd_name ++ slash ∷ 97 ∷ []) ++ 0 ∷ [])
    ≡ ok (some (initrd_file 0))
unfolding file directory children root_nodes files_from
fs_util_get_node_by_path-walk_example =
    fs_util_get_node_by_path-walk mounted (replicate 256 7) (initrd_name ++ slash ∷ 97 ∷ []) []
      mounted-IsMounted tt (omega arith, omega arith)

initrd_read-chunk_example :
    initrd_read mounted (file (97 ∷ 0 ∷ []) 2 0) 1 3 (1 ∷ 2 ∷ 3 ∷ []) ≡ ok (1, 105 ∷ 2 ∷ 3 ∷ [])
unfolding file
initrd_read-chunk_example =
    initrd_read-chunk mounted (file (97 ∷ 0 ∷ []) 2 0) 0 264 1 3 (1 ∷ 2 ∷ 3 ∷ []) refl refl
      (omega arith) (omega arith)
