-- ===== src/Vfs/Resolve.antt =====
-- The search for a path, as a walk in the tree.
use raw_os.Common.{
  ℕ, zero, suc, ◌+◌, ◌<◌, ◌≡◌, refl, ◌∙◌, ap, true, false, List, [], ◌∷◌, ◌++◌, Option, some, none,
  ok, lt→ltb, ◌==◌, if◌then◌else◌, arith, length, set, Option-cases, Bool-cases, inl, inr,
}
use raw_os.CString.Laws.{IsText, IsCString-text, text_of-text, IsText-snoc}
use raw_os.Vfs.{Pointer, vfs_root, Fs, vfs_lookup, slash, put, path_loop, fs_util_get_node_by_path}
use raw_os.Vfs.Tree.{IsMounted, IsNode, children, first_named, vfs_lookup-children, children-IsNode}

-- The parts of a path between its slashes: the first, and the others.
abbrev pub segments : List ℕ → List ℕ × List (List ℕ)
segments [] = ([], [])
segments (c ∷ path) =
    if c == slash
    then ([], (segments path).0 ∷ (segments path).1)
    else (c ∷ (segments path).0, (segments path).1)

-- The walk from a node: every part but an empty last one names a child.
abbrev pub walk : Fs → Pointer → List ℕ → List (List ℕ) → Option Pointer
walk fs p name (next ∷ names) = elim (first_named name (children fs p)) [
  | none ↦ none
  | some q ↦ walk fs q next names
]
walk fs p [] [] = some p
walk fs p (c ∷ name) [] = first_named (c ∷ name) (children fs p)

-- Each part fits into the buffer with a zero byte.
abbrev pub AllFit : ℕ → List ℕ × List (List ℕ) → Type 0
AllFit size (name, []) = length name < size
AllFit size (name, next ∷ names) = (length name < size) × AllFit size (next, names)

set-append : (cur buf : List ℕ) (b c : ℕ) → set (cur ++ b ∷ buf) (length cur) c ≡ cur ++ c ∷ buf
set-append [] buf b c = refl
set-append (x ∷ cur) buf b c = ap (λ t. x ∷ t) (set-append cur buf b c)

length-append : (xs ys : List ℕ) → length (xs ++ ys) ≡ length xs + length ys
length-append [] ys = omega arith
length-append (x ∷ xs) ys = omega (arith, length-append xs ys)

put-append :
    (cur buf : List ℕ) (b c : ℕ) → put (cur ++ b ∷ buf) (length cur) c ≡ ok (cur ++ c ∷ buf)
unfolding put
put-append cur buf b c = rw (
  lt→ltb (length cur) (length (cur ++ b ∷ buf)) (omega (arith, length-append cur (b ∷ buf))),
  set-append cur buf b c,
)

append-nil : (xs : List ℕ) → xs ++ [] ≡ xs
append-nil [] = refl
append-nil (x ∷ xs) = ap (λ t. x ∷ t) (append-nil xs)

append-snoc : (xs ys : List ℕ) (c : ℕ) → (xs ++ c ∷ []) ++ ys ≡ xs ++ c ∷ ys
append-snoc [] ys c = refl
append-snoc (x ∷ xs) ys c = ap (λ t. x ∷ t) (append-snoc xs ys c)

length-snoc : (xs : List ℕ) (c : ℕ) → length (xs ++ c ∷ []) ≡ suc (length xs)
length-snoc xs c = omega (arith, length-append xs (c ∷ []))

AllFit-first :
    (size : ℕ) (name : List ℕ) (names : List (List ℕ))
    → AllFit size (name, names)
    → length name < size
AllFit-first size name [] h = h
AllFit-first size name (next ∷ names) h = h.0

slash_fit :
    (size : ℕ) (cur : List ℕ) (c : ℕ) (path : List ℕ)
    → (suc c == slash) ≡ true
    → AllFit size (cur ++ (segments (suc c ∷ path)).0, (segments (suc c ∷ path)).1)
    → AllFit size (segments path)
slash_fit size cur c path e fit = (rw e at fit).1

char_fit :
    (size : ℕ) (cur : List ℕ) (c : ℕ) (path : List ℕ)
    → (suc c == slash) ≡ false
    → AllFit size (cur ++ (segments (suc c ∷ path)).0, (segments (suc c ∷ path)).1)
    → AllFit size ((cur ++ suc c ∷ []) ++ (segments path).0, (segments path).1)
char_fit size cur c path e fit = rw (append-snoc cur (segments path).0 (suc c)) (rw e at fit)

module _ (fs : Fs) (m : IsMounted fs) where
  lookup_put :
      (p : Pointer) (cur buf : List ℕ)
      → IsNode fs p
      → IsText cur
      → vfs_lookup fs p (cur ++ 0 ∷ buf) ≡ ok (first_named cur (children fs p))
  lookup_put p cur buf hn hc =
      rw (vfs_lookup-children fs p _ m hn (IsCString-text cur buf hc), text_of-text cur buf hc)

  end_step :
      (p : Pointer) (cur buf rest : List ℕ) (b : ℕ)
      → IsNode fs p
      → IsText cur
      → path_loop fs p (cur ++ b ∷ buf) (length cur) (0 ∷ rest) ≡ ok (walk fs p cur [])
  unfolding path_loop
  end_step p [] buf rest b hn hc = refl
  end_step p (c ∷ cur) buf rest b hn hc =
      rw (put-append (c ∷ cur) buf b 0) (lookup_put p (c ∷ cur) buf hn hc)

  slash_step :
      (p : Pointer) (cur buf path : List ℕ) (b c : ℕ) (found : Option Pointer)
      → IsNode fs p
      → IsText cur
      → (suc c == slash) ≡ true
      → first_named cur (children fs p) ≡ found
      → path_loop fs p (cur ++ b ∷ buf) (length cur) (suc c ∷ path)
        ≡ elim found [ none ↦ ok none | some q ↦ path_loop fs q (cur ++ 0 ∷ buf) 0 path ]
  unfolding path_loop
  slash_step p cur buf path b c found hn hc e f =
      rw (e, put-append cur buf b 0, lookup_put p cur buf hn hc, f)

  char_step :
      (p : Pointer) (cur buf path : List ℕ) (b c : ℕ)
      → (suc c == slash) ≡ false
      → path_loop fs p (cur ++ b ∷ buf) (length cur) (suc c ∷ path)
        ≡ path_loop fs p ((cur ++ suc c ∷ []) ++ buf) (length (cur ++ suc c ∷ [])) path
  unfolding path_loop
  char_step p cur buf path b c e =
      rw (e, put-append cur buf b (suc c), append-snoc cur buf (suc c), length-snoc cur (suc c))

  -- The loop, with `cur` at the start of the buffer.
  path_loop-walk :
      (p : Pointer) (cur buf path rest : List ℕ) (size : ℕ)
      → IsNode fs p
      → IsText cur
      → IsText path
      → size ≡ length cur + length buf
      → AllFit size (cur ++ (segments path).0, (segments path).1)
      → path_loop fs p (cur ++ buf) (length cur) (path ++ 0 ∷ rest)
        ≡ ok (walk fs p (cur ++ (segments path).0) (segments path).1)
  path_loop-walk p cur [] path rest size hn hc hp es fit =
      let lt = AllFit-first size (cur ++ (segments path).0) (segments path).1 fit in
      absurd (omega (arith, length-append cur (segments path).0))
  path_loop-walk p cur (b ∷ buf) [] rest size hn hc hp es fit =
      rw (append-nil cur) (end_step p cur buf rest b hn hc)
  path_loop-walk p cur (b ∷ buf) (zero ∷ path) rest size hn hc hp es fit = absurd hp
  path_loop-walk p cur (b ∷ buf) (suc c ∷ path) rest size hn hc hp es fit =
      elim (Bool-cases (suc c == slash)) [
        | inl e ↦
            rw (e, append-nil cur)
              (elim (Option-cases (first_named cur (children fs p))) [
                | inl f ↦ slash_step p cur buf (path ++ 0 ∷ rest) b c none hn hc e f ∙ rw (walk, f)
                | inr (q, f) ↦
                    slash_step p cur buf (path ++ 0 ∷ rest) b c (some q) hn hc e f
                    ∙ path_loop-walk q [] (cur ++ 0 ∷ buf) path rest size
                        (children-IsNode fs p cur q f) tt hp
                        (omega (arith, length-append cur (0 ∷ buf)))
                        (slash_fit size cur c path e fit)
                    ∙ rw (walk, f)
              ])
        | inr e ↦ rw e (
            char_step p cur buf (path ++ 0 ∷ rest) b c e
            ∙ path_loop-walk p (cur ++ suc c ∷ []) buf path rest size hn (IsText-snoc cur c hc) hp
                (omega (arith, length-snoc cur (suc c))) (char_fit size cur c path e fit)
            ∙ rw (append-snoc cur (segments path).0 (suc c)))
      ]

-- In a mounted tree, `fs_util_get_node_by_path` of an absolute path whose parts are all shorter than
-- the buffer returns the node that the walk along these parts from the root ends at, and a null
-- pointer if a part names no child; it reads and writes only inside of its arrays.
pub fs_util_get_node_by_path-walk :
    (fs : Fs) (filename_buffer path rest : List ℕ)
    → IsMounted fs
    → IsText path
    → AllFit (length filename_buffer) (segments path)
    → fs_util_get_node_by_path fs filename_buffer (slash ∷ path ++ 0 ∷ rest)
      ≡ ok (walk fs vfs_root (segments path).0 (segments path).1)
unfolding fs_util_get_node_by_path
fs_util_get_node_by_path-walk fs filename_buffer path rest m hp fit =
    path_loop-walk fs m vfs_root [] filename_buffer path rest (length filename_buffer) tt tt hp
      (omega arith) fit
