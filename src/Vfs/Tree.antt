-- ===== src/Vfs/Tree.antt =====
-- The tree that the nodes stand for, and that `vfs_lookup` finds the children in it.
use mathlib.Core.Path.{subst}
use raw_os.Common.{
  ℕ, zero, suc, ◌+◌, ◌<◌, ◌≤◌, ◌≡◌, refl, List, [], ◌∷◌, ◌++◌, Option, some, none, ok,
  if◌then◌else◌, arith, length, get_elem?, Bool-cases, inl, inr,
}
use raw_os.CString.Laws.{same_text, text_of, IsCString, strcmp-text_of}
use raw_os.Vfs.{
  Pointer, vfs_root, initrd_root_node, initrd_file, dev_root_node, screen_node, keyboard_node,
  Lookup, vfs_root_lookup_fn, initrd_lookup_fn, dev_lookup_fn, VfsNode, Fs, node_at, screen_name,
  keyboard_name, lookup_loop, root_nodes, files_from, vfs_root_lookup, initrd_lookup, dev_lookup,
  call_lookup, vfs_lookup,
}

-- What `vfs_init` sets up: the three directories have their own lookup functions, all other nodes
-- none, and the names end with a zero byte.
abbrev pub FilesAreMounted : List VfsNode → Type 0
FilesAreMounted [] = Unit {0}
FilesAreMounted (node ∷ nodes) = IsCString node.name × (node.lookup ≡ none) × FilesAreMounted nodes

pub record IsMounted (fs : Fs) : Type 0 where
  pub root : fs.root.lookup ≡ some vfs_root_lookup_fn
  pub initrd : fs.initrd_root.lookup ≡ some initrd_lookup_fn
  pub dev : fs.dev_root.lookup ≡ some dev_lookup_fn
  pub screen : fs.screen.lookup ≡ none
  pub keyboard : fs.keyboard.lookup ≡ none
  pub initrd_named : IsCString fs.initrd_root.name
  pub dev_named : IsCString fs.dev_root.name
  pub files : FilesAreMounted fs.initrd_files_nodes

-- A pointer that points to a node.
abbrev pub IsNode : Fs → Pointer → Type 0
IsNode fs (initrd_file i) = i < length fs.initrd_files_nodes
IsNode fs _ = Unit {0}

abbrev pub names : List (Pointer × VfsNode) → List (Pointer × List ℕ)
names [] = []
names ((p, node) ∷ nodes) = (p, text_of node.name) ∷ names nodes

unfoldable pub children : Fs → Pointer → List (Pointer × List ℕ)
unfolding root_nodes files_from
children fs vfs_root = names (root_nodes fs)
children fs initrd_root_node = names (files_from 0 fs.initrd_files_nodes)
children fs (initrd_file i) = []
children fs dev_root_node = (screen_node, screen_name) ∷ (keyboard_node, keyboard_name) ∷ []
children fs screen_node = []
children fs keyboard_node = []

-- The first of the children with a name.
abbrev pub first_named : List ℕ → List (Pointer × List ℕ) → Option Pointer
first_named name [] = none
first_named name ((p, other) ∷ nodes) =
    if same_text name other then some p else first_named name nodes

lookup_step :
    (path : List ℕ) (p : Pointer) (node : VfsNode) (nodes : List (Pointer × VfsNode))
    → IsCString path
    → IsCString node.name
    → lookup_loop path nodes ≡ ok (first_named (text_of path) (names nodes))
    → lookup_loop path ((p, node) ∷ nodes)
      ≡ ok (first_named (text_of path) (names ((p, node) ∷ nodes)))
unfolding lookup_loop
lookup_step path p node nodes hp hn e =
    elim (Bool-cases (same_text (text_of path) (text_of node.name))) [
      | inl q ↦ rw (strcmp-text_of path node.name hp hn, q)
      | inr q ↦ rw (strcmp-text_of path node.name hp hn, q) e
    ]

files_lookup :
    (path : List ℕ) (i : ℕ) (nodes : List VfsNode)
    → IsCString path
    → FilesAreMounted nodes
    → lookup_loop path (files_from i nodes)
      ≡ ok (first_named (text_of path) (names (files_from i nodes)))
unfolding files_from lookup_loop
files_lookup path i [] hp h = refl
files_lookup path i (node ∷ nodes) hp h =
    lookup_step path (initrd_file i) node _ hp h.0 (files_lookup path (suc i) nodes hp h.2)

-- The function that a node's field points to.
abbrev lookup_of : Pointer → Option Lookup
lookup_of vfs_root = some vfs_root_lookup_fn
lookup_of initrd_root_node = some initrd_lookup_fn
lookup_of (initrd_file i) = none
lookup_of dev_root_node = some dev_lookup_fn
lookup_of screen_node = none
lookup_of keyboard_node = none

file_lookup :
    (nodes : List VfsNode) (i : ℕ)
    → FilesAreMounted nodes
    → i < length nodes
    → (node : VfsNode) × (get_elem? nodes i ≡ some node) × (node.lookup ≡ none)
file_lookup [] i h lt = elim lt [ ]
file_lookup (node ∷ nodes) zero h lt = (node, refl, h.1)
file_lookup (node ∷ nodes) (suc i) h lt = file_lookup nodes i h.2 (omega arith)

node_at-lookup :
    (fs : Fs) (p : Pointer)
    → IsMounted fs
    → IsNode fs p
    → (node : VfsNode) × (node_at fs p ≡ ok node) × (node.lookup ≡ lookup_of p)
unfolding node_at
node_at-lookup fs vfs_root m h = (fs.root, refl, m.root)
node_at-lookup fs initrd_root_node m h = (fs.initrd_root, refl, m.initrd)
node_at-lookup fs (initrd_file i) m h =
    let (node, e, q) = file_lookup fs.initrd_files_nodes i m.files h in (node, rw (node_at, e), q)
node_at-lookup fs dev_root_node m h = (fs.dev_root, refl, m.dev)
node_at-lookup fs screen_node m h = (fs.screen, refl, m.screen)
node_at-lookup fs keyboard_node m h = (fs.keyboard, refl, m.keyboard)

dev_lookup-children :
    (fs : Fs) (path : List ℕ)
    → IsCString path
    → dev_lookup fs dev_root_node path ≡ ok (first_named (text_of path) (children fs dev_root_node))
unfolding dev_lookup children
dev_lookup-children fs path hp =
    rw
      (
        strcmp-text_of path (screen_name ++ 0 ∷ []) hp tt,
        strcmp-text_of path (keyboard_name ++ 0 ∷ []) hp tt,
      )
      (elim (Bool-cases (same_text (text_of path) screen_name)) [
        | inl q ↦ rw q
        | inr q ↦ rw q (elim (Bool-cases (same_text (text_of path) keyboard_name)) [
          | inl r ↦ rw r
          | inr r ↦ rw r
        ])
      ])

call_lookup-children :
    (fs : Fs) (p : Pointer) (path : List ℕ)
    → IsMounted fs
    → IsCString path
    → call_lookup fs (lookup_of p) p path ≡ ok (first_named (text_of path) (children fs p))
unfolding call_lookup vfs_root_lookup initrd_lookup children lookup_loop root_nodes
call_lookup-children fs vfs_root path m hp =
    lookup_step path initrd_root_node fs.initrd_root ((dev_root_node, fs.dev_root) ∷ []) hp
      m.initrd_named (lookup_step path dev_root_node fs.dev_root [] hp m.dev_named refl)
call_lookup-children fs initrd_root_node path m hp =
    files_lookup path 0 fs.initrd_files_nodes hp m.files
call_lookup-children fs (initrd_file i) path m hp = refl
call_lookup-children fs dev_root_node path m hp = dev_lookup-children fs path hp
call_lookup-children fs screen_node path m hp = refl
call_lookup-children fs keyboard_node path m hp = refl

-- `vfs_lookup` of a node in a mounted tree returns its first child with the name in `path`, and a
-- null pointer if it has none; it neither stops in an assertion nor reads outside of an array.
pub vfs_lookup-children :
    (fs : Fs) (p : Pointer) (path : List ℕ)
    → IsMounted fs
    → IsNode fs p
    → IsCString path
    → vfs_lookup fs p path ≡ ok (first_named (text_of path) (children fs p))
unfolding vfs_lookup
vfs_lookup-children fs p path m hn hp =
    let (node, e, q) = node_at-lookup fs p m hn in rw (e, q) (call_lookup-children fs p path m hp)

-- What is found is a node.
abbrev AllAreNodes : Fs → List (Pointer × List ℕ) → Type 0
AllAreNodes fs [] = Unit {0}
AllAreNodes fs ((p, name) ∷ nodes) = IsNode fs p × AllAreNodes fs nodes

found_at : (p q : Pointer) → some p ≡ some q → p ≡ q
found_at p q e = ground arith

first_named-IsNode :
    (fs : Fs) (name : List ℕ) (nodes : List (Pointer × List ℕ)) (q : Pointer)
    → AllAreNodes fs nodes
    → first_named name nodes ≡ some q
    → IsNode fs q
first_named-IsNode fs name [] q h e = ground arith
first_named-IsNode fs name ((p, other) ∷ nodes) q h e = elim (Bool-cases (same_text name other)) [
  | inl t ↦ subst (IsNode fs) (found_at p q (rw t at e)) h.0
  | inr t ↦ first_named-IsNode fs name nodes q h.1 (rw t at e)
]

files-AllAreNodes :
    (fs : Fs) (i : ℕ) (nodes : List VfsNode)
    → i + length nodes ≤ length fs.initrd_files_nodes
    → AllAreNodes fs (names (files_from i nodes))
unfolding files_from
files-AllAreNodes fs i [] h = tt
files-AllAreNodes fs i (node ∷ nodes) h =
    (omega arith, files-AllAreNodes fs (suc i) nodes (omega arith))

children-AllAreNodes : (fs : Fs) (p : Pointer) → AllAreNodes fs (children fs p)
unfolding children root_nodes
children-AllAreNodes fs vfs_root = (tt, (tt, tt))
children-AllAreNodes fs initrd_root_node =
    files-AllAreNodes fs 0 fs.initrd_files_nodes (omega arith)
children-AllAreNodes fs (initrd_file i) = tt
children-AllAreNodes fs dev_root_node = (tt, (tt, tt))
children-AllAreNodes fs screen_node = tt
children-AllAreNodes fs keyboard_node = tt

pub children-IsNode :
    (fs : Fs) (p : Pointer) (name : List ℕ) (q : Pointer)
    → first_named name (children fs p) ≡ some q
    → IsNode fs q
children-IsNode fs p name q e =
    first_named-IsNode fs name (children fs p) q (children-AllAreNodes fs p) e
