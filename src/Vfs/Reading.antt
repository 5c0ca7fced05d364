-- ===== src/Vfs/Reading.antt =====
-- What `initrd_read` reads, as a part of the file's content.
use raw_os.Common.{
  ℕ, zero, suc, ◌+◌, ◌-◌, ◌≤◌, ◌≡◌, refl, ◌∙◌, sym, ap, List, [], ◌∷◌, ◌++◌, some, ok, leb, leb→le,
  ◌==◌, arith, get_elem?, min, take, drop, length, length-take, length-drop, inl, inr, Bool-cases,
  false,
}
use raw_os.CString.Laws.{memcpy-take}
use raw_os.Vfs.{VfsNode, Fs}
use raw_os.Vfs.Init.{initrd_read}

drop-nil : (a : ℕ) → drop {A = ℕ} a [] ≡ []
drop-nil zero = refl
drop-nil (suc a) = refl

drop-drop : (a b c : ℕ) (xs : List ℕ) → c ≡ a + b → drop b (drop a xs) ≡ drop c xs
drop-drop zero b c xs e = ap (λ n. drop n xs) (omega arith)
drop-drop (suc a) b zero xs e = absurd (omega arith)
drop-drop (suc a) b (suc c) [] e = drop-nil b
drop-drop (suc a) b (suc c) (x ∷ xs) e = drop-drop a b c xs (omega arith)

take-take : (a b c : ℕ) (xs : List ℕ) → c ≡ min a b → take a (take b xs) ≡ take c xs
take-take zero b zero xs e = refl
take-take zero b (suc c) xs e = absurd (omega arith)
take-take (suc a) zero zero xs e = refl
take-take (suc a) zero (suc c) xs e = absurd (omega arith)
take-take (suc a) (suc b) zero xs e = absurd (omega arith)
take-take (suc a) (suc b) (suc c) [] e = refl
take-take (suc a) (suc b) (suc c) (x ∷ xs) e = ap (λ t. x ∷ t) (take-take a b c xs (omega arith))

take-nil : (a : ℕ) → take {A = ℕ} a [] ≡ []
take-nil zero = refl
take-nil (suc a) = refl

drop-take : (a b c : ℕ) (xs : List ℕ) → c ≡ b - a → drop a (take b xs) ≡ take c (drop a xs)
drop-take zero b c xs e = ap (λ n. take n xs) (omega arith)
drop-take (suc a) zero zero xs e = refl
drop-take (suc a) zero (suc c) xs e = absurd (omega arith)
drop-take (suc a) (suc b) c [] e = sym (take-nil c)
drop-take (suc a) (suc b) c (x ∷ xs) e = drop-take a b c xs (omega arith)

-- The bytes of a file, and those that a read of `size` bytes from `offset` on gives.
abbrev pub content : Fs → ℕ → VfsNode → List ℕ
content fs position node = take node.size (drop position fs.image)

abbrev pub chunk : List ℕ → ℕ → ℕ → List ℕ
chunk bytes offset size = take size (drop offset bytes)

chunk-take :
    (image : List ℕ) (position len offset size n : ℕ)
    → n ≡ min size (len - offset)
    → chunk (take len (drop position image)) offset size ≡ take n (drop (position + offset) image)
chunk-take image position len offset size n e =
    ap (take size) (drop-take offset len (len - offset) (drop position image) refl)
    ∙ take-take size (len - offset) n (drop offset (drop position image)) e
    ∙ ap (take n) (drop-drop position offset (position + offset) image refl)

length-chunk :
    (image : List ℕ) (position len offset size n : ℕ)
    → n ≡ min size (len - offset)
    → position + len ≤ length image
    → length (take n (drop (position + offset) image)) ≡ n
length-chunk image position len offset size n e h =
    omega
      (arith, length-take n (drop (position + offset) image), length-drop (position + offset) image)

not_zero : (n i : ℕ) → n ≡ i + 1 → (n == 0) ≡ false
not_zero n i e = ground arith

pred_eq : (n i : ℕ) → n ≡ i + 1 → n - 1 ≡ i
pred_eq n i e = omega arith

-- `initrd_read` of a file whose bytes lie in the image, with a buffer of `size` bytes or more,
-- returns the number of the bytes of the file from `offset` on, `size` at most, and writes them to
-- the start of the buffer and nothing after them; behind the file's end it reads nothing.
pub initrd_read-chunk :
    (fs : Fs) (node : VfsNode) (i position offset size : ℕ) (buf : List ℕ)
    → node.inode ≡ i + 1
    → get_elem? fs.initrd_files_data i ≡ some position
    → position + node.size ≤ length fs.image
    → size ≤ length buf
    → initrd_read fs node offset size buf
      ≡ ok (
        length (chunk (content fs position node) offset size),
        chunk (content fs position node) offset size
            ++ drop (length (chunk (content fs position node) offset size)) buf,
      )
unfolding initrd_read
initrd_read-chunk fs node i position offset size buf hi hd hc hb =
    elim (Bool-cases (leb node.size offset)) [
      | inl e ↦ rw (
        e,
        chunk-take fs.image position node.size offset size 0
            (omega (arith, leb→le node.size offset e)),
      )
      | inr e ↦
          let n = min size (node.size - offset) in
          let ec = chunk-take fs.image position node.size offset size n refl in
          let el = length-chunk fs.image position node.size offset size n refl hc in
          let em =
            memcpy-take buf (drop (position + offset) fs.image) n (omega arith)
              (omega (arith, length-drop (position + offset) fs.image)) in
          let nz = not_zero node.inode i hi in
          let ei = pred_eq node.inode i hi in rw (e, nz, ei, hd, em, ec, el)
    ]
