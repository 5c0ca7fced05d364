-- ===== src/Process/Moves.antt =====
-- The links that fork and exit set, and what they do to the ring.
use raw_os.Common.{
  ℕ, ◌≡◌, ◌≢◌, refl, sym, ap, ◌∙◌, List, [], ◌∷◌, ◌++◌, ◌==◌, if◌then◌else◌, arith, true, false,
  Bool-cases, inl, inr,
}
use raw_os.Process.{Process, store, set_next, set_previous, link_before, unlink}
use raw_os.Process.Ring.{
  Fresh, Fresh-snoc, Distinct-snoc, Chain-snoc, Chain-redirect, last_is_not, Ring,
}

eqb : (a b : ℕ) → (a == b) ≡ true → a ≡ b
eqb a b e = ground arith

neb : (a b : ℕ) → a ≢ b → (a == b) ≡ false
neb a b e = ground arith

-- A field of a stored process, where the field's value is `v`.
pub store-field :
    {A : Type 0} (field : Process → A) (heap : ℕ → Process) (i : ℕ) (p : Process) (x : ℕ)
    → field (store heap i p x) ≡ (if x == i then field p else field (heap x))
store-field field heap i p x = elim (Bool-cases (x == i)) [ inl e ↦ rw e refl | inr e ↦ rw e refl ]

pub store-same :
    {A : Type 0} (field : Process → A) (heap : ℕ → Process) (i : ℕ) (p : Process) (x : ℕ)
    → field p ≡ field (heap i)
    → field (store heap i p x) ≡ field (heap x)
store-same field heap i p x same = elim (Bool-cases (x == i)) [
  | inl e ↦ rw e (same ∙ ap (λ y. field (heap y)) (sym (eqb x i e)))
  | inr e ↦ rw e refl
]

module _ (heap : ℕ → Process) (a n : ℕ) where
  abbrev l : ℕ
  l = (heap a).previous

  abbrev h1 : ℕ → Process
  h1 = set_next heap l n

  abbrev h2 : ℕ → Process
  h2 = set_previous h1 n l

  abbrev h3 : ℕ → Process
  h3 = set_previous h2 a n

  link_before-next :
      (x : ℕ)
      → (link_before heap a n x).next ≡ (if x == n then a else if x == l then n else (heap x).next)
  unfolding link_before
  link_before-next x =
      store-field (λ p. p.next) h3 n (record (h3 n) { next = a }) x
      ∙ ap (λ t. if x == n then a else t)
          (store-same (λ p. p.next) h2 a (record (h2 a) { previous = n }) x refl
            ∙ (store-same (λ p. p.next) h1 n (record (h1 n) { previous = l }) x refl
                ∙ store-field (λ p. p.next) heap l (record (heap l) { next = n }) x))

  link_before-previous :
      (x : ℕ)
      → (link_before heap a n x).previous
        ≡ (if x == a then n else if x == n then l else (heap x).previous)
  unfolding link_before
  link_before-previous x =
      store-same (λ p. p.previous) h3 n (record (h3 n) { next = a }) x refl
      ∙ (store-field (λ p. p.previous) h2 a (record (h2 a) { previous = n }) x
          ∙ ap (λ t. if x == a then n else t)
              (store-field (λ p. p.previous) h1 n (record (h1 n) { previous = l }) x
                ∙ ap (λ t. if x == n then l else t)
                    (store-same (λ p. p.previous) heap l (record (heap l) { next = n }) x refl)))

module _ (heap : ℕ → Process) (a : ℕ) where
  abbrev u1 : ℕ → Process
  u1 = set_previous heap ((heap a).next) ((heap a).previous)

  u1-next : (x : ℕ) → (u1 x).next ≡ (heap x).next
  u1-next x =
      store-same (λ p. p.next) heap ((heap a).next)
        (record (heap ((heap a).next)) { previous = (heap a).previous }) x refl

  u1-previous : (heap a).next ≢ a → (u1 a).previous ≡ (heap a).previous
  u1-previous ne =
      store-field (λ p. p.previous) heap ((heap a).next)
        (record (heap ((heap a).next)) { previous = (heap a).previous }) a
      ∙ ground (arith, ne)

  unlink-next :
      (x : ℕ)
      → (heap a).next ≢ a
      → (unlink heap a x).next ≡ (if x == (heap a).previous then (heap a).next else (heap x).next)
  unfolding unlink
  unlink-next x ne =
      store-field (λ p. p.next) u1 ((u1 a).previous)
        (record (u1 ((u1 a).previous)) { next = (u1 a).next }) x
      ∙ rw (u1-previous ne, u1-next a, u1-next x)

  unlink-previous :
      (x : ℕ)
      → (unlink heap a x).previous
        ≡ (if x == (heap a).next then (heap a).previous else (heap x).previous)
  unfolding unlink
  unlink-previous x =
      store-same (λ p. p.previous) u1 ((u1 a).previous)
        (record (u1 ((u1 a).previous)) { next = (u1 a).next }) x refl
      ∙ store-field (λ p. p.previous) heap ((heap a).next)
          (record (heap ((heap a).next)) { previous = (heap a).previous }) x

-- Unlinking keeps the other fields.
pub unlink-field :
    {A : Type 0} (field : Process → A) (heap : ℕ → Process) (a x : ℕ)
    → ((p : Process) (t : ℕ) → field (record p { next = t }) ≡ field p)
    → ((p : Process) (t : ℕ) → field (record p { previous = t }) ≡ field p)
    → field (unlink heap a x) ≡ field (heap x)
unfolding unlink
unlink-field field heap a x nexts previouses =
    let h = u1 heap a in
    store-same field h ((h a).previous) (record (h ((h a).previous)) { next = (h a).next }) x
      (nexts (h ((h a).previous)) ((h a).next))
    ∙ store-same field heap ((heap a).next)
        (record (heap ((heap a).next)) { previous = (heap a).previous }) x
        (previouses (heap ((heap a).next)) ((heap a).previous))

-- A new process goes to the end of the ring.
pub link_before-Ring :
    (heap : ℕ → Process) (a n : ℕ) (ps : List ℕ)
    → Ring heap (a ∷ ps)
    → Fresh n (a ∷ ps)
    → n ≢ 0
    → Ring (link_before heap a n) (a ∷ (ps ++ (n ∷ [])))
link_before-Ring heap a n ps (c, (fa, d), (za, zs)) (na, fn) nz =
    let next = link_before-next heap a n in
    let previous = link_before-previous heap a n in
    (
      Chain-snoc (link_before heap a n) a ps n a
          (Chain-redirect heap (link_before heap a n) a ps a n n c (fa, d) fa fn (na, fn)
            (next _ ∙ ground (arith, last_is_not heap a ps a n c na fn)) (previous n ∙ ground arith)
            (λ x xl xn. next x ∙ ground (arith, xl, xn))
            λ x xn xa. previous x ∙ ground (arith, xn, xa))
          (next n ∙ ground arith, previous a ∙ ground arith),
      (Fresh-snoc a ps n fa (λ e. na (sym e)), Distinct-snoc ps n d fn),
      (za, Fresh-snoc 0 ps n zs (λ e. nz (sym e))),
    )

-- The other processes stay, in their order.
pub unlink-Ring :
    (heap : ℕ → Process) (a b : ℕ) (ps : List ℕ)
    → Ring heap (a ∷ b ∷ ps)
    → Ring (unlink heap a) (b ∷ ps)
unlink-Ring heap a b ps (((nb, pa), c), ((ab, fa), (fb, d)), (za, zs)) =
    let differ : (heap a).next ≢ a = λ e. ab (sym e ∙ nb) in
    let next : (x : ℕ)
        → (unlink heap a x).next ≡ (if x == (heap a).previous then b else (heap x).next) =
      λ x.
        unlink-next heap a x differ
        ∙ ap (λ t. if x == (heap a).previous then t else (heap x).next) nb in
    let previous : (x : ℕ)
        → (unlink heap a x).previous ≡ (if x == b then (heap a).previous else (heap x).previous) =
      λ x.
        unlink-previous heap a x
        ∙ ap (λ t. if x == t then (heap a).previous else (heap x).previous) nb in
    (
      Chain-redirect heap (unlink heap a) b ps a b a c (fb, d) fa fb (ab, fa)
          (next _ ∙ ground arith) (previous b ∙ ground arith)
          (λ x xl xa. next x ∙ ground (arith, xl)) (λ x xb xa. previous x ∙ ground (arith, xb)),
      (fb, d),
      zs,
    )
