-- ===== src/Process/Ring.antt =====
-- The circular list of the processes as a chain of links, and how a change of the last link moves
-- its end.
use raw_os.Common.{ℕ, ◌≡◌, ◌≢◌, sym, ap, ◌∙◌, List, [], ◌∷◌, ◌++◌}
use raw_os.Process.{Process}

abbrev pub Fresh : ℕ → List ℕ → Type 0
Fresh x [] = Unit
Fresh x (p ∷ ps) = (x ≢ p) × Fresh x ps

abbrev pub Distinct : List ℕ → Type 0
Distinct [] = Unit
Distinct (p ∷ ps) = Fresh p ps × Distinct ps

pub Fresh-snoc : (x : ℕ) (ps : List ℕ) (q : ℕ) → Fresh x ps → x ≢ q → Fresh x (ps ++ (q ∷ []))
Fresh-snoc x [] q f ne = (ne, tt)
Fresh-snoc x (p ∷ ps) q (n, f) ne = (n, Fresh-snoc x ps q f ne)

pub Distinct-snoc : (ps : List ℕ) (q : ℕ) → Distinct ps → Fresh q ps → Distinct (ps ++ (q ∷ []))
Distinct-snoc [] q d f = (tt, tt)
Distinct-snoc (p ∷ ps) q (fp, d) (ne, f) =
    (Fresh-snoc p ps q fp (λ e. ne (sym e)), Distinct-snoc ps q d f)

module _ (heap : ℕ → Process) where
  abbrev pub Link : ℕ → ℕ → Type 0
  Link a b = ((heap a).next ≡ b) × ((heap b).previous ≡ a)

  -- From `a` over `ps` to `b`.
  abbrev pub Chain : ℕ → List ℕ → ℕ → Type 0
  Chain a [] b = Link a b
  Chain a (p ∷ ps) b = Link a p × Chain p ps b

  pub Chain-snoc :
      (a : ℕ) (ps : List ℕ) (p b : ℕ) → Chain a ps p → Link p b → Chain a (ps ++ (p ∷ [])) b
  Chain-snoc a [] p b c l = (c, l)
  Chain-snoc a (x ∷ ps) p b (h, c) l = (h, Chain-snoc x ps p b c l)

  -- What is fresh is not the last process of the chain.
  pub last_is_not :
      (a : ℕ) (ps : List ℕ) (b x : ℕ) → Chain a ps b → x ≢ a → Fresh x ps → x ≢ (heap b).previous
  last_is_not a [] b x (n, p) ne f = λ e. ne (e ∙ p)
  last_is_not a (q ∷ ps) b x (h, c) ne (nq, f) = last_is_not q ps b x c nq f

  -- The list is the processes in the order in which they run, the active one first.
  abbrev pub Ring : List ℕ → Type 0
  Ring [] = ⊥
  Ring (a ∷ ps) = Chain a ps a × Distinct (a ∷ ps) × Fresh 0 (a ∷ ps)

-- The chain from `a` to `b` goes to `n` after the changes, which may touch `e`.
pub Chain-redirect :
    (heap heap' : ℕ → Process) (a : ℕ) (ps : List ℕ) (b n e : ℕ)
    → Chain heap a ps b
    → Distinct (a ∷ ps)
    → Fresh b ps
    → Fresh n ps
    → Fresh e (a ∷ ps)
    → (heap' (heap b).previous).next ≡ n
    → (heap' n).previous ≡ (heap b).previous
    → ((x : ℕ) → x ≢ (heap b).previous → x ≢ e → (heap' x).next ≡ (heap x).next)
    → ((x : ℕ) → x ≢ n → x ≢ b → (heap' x).previous ≡ (heap x).previous)
    → Chain heap' a ps n
Chain-redirect heap heap' a [] b n e (nx, pv) d fb fn fe last first nexts previouses =
    (sym (ap (λ x. (heap' x).next) pv) ∙ last, first ∙ pv)
Chain-redirect heap heap' a (p ∷ ps) b n e ((nx, pv), c) ((ap_fresh), d) (bp, fb) (np, fn) (ea, fe)
      last first nexts previouses =
    (
      (
        nexts a (last_is_not heap p ps b a c (ap_fresh.0) (ap_fresh.1)) (λ q. ea (sym q)) ∙ nx,
        previouses p (λ q. np (sym q)) (λ q. bp (sym q)) ∙ pv,
      ),
      Chain-redirect heap heap' p ps b n e c d fb fn fe last first nexts previouses,
    )

-- Changes that keep the links.
abbrev pub SameLinks : (ℕ → Process) → (ℕ → Process) → Type 0
SameLinks heap heap' =
    (x : ℕ) → ((heap' x).next ≡ (heap x).next) × ((heap' x).previous ≡ (heap x).previous)

pub Chain-SameLinks :
    (heap heap' : ℕ → Process) (a : ℕ) (ps : List ℕ) (b : ℕ)
    → SameLinks heap heap'
    → Chain heap a ps b
    → Chain heap' a ps b
Chain-SameLinks heap heap' a [] b same (n, p) = ((same a).0 ∙ n, (same b).1 ∙ p)
Chain-SameLinks heap heap' a (q ∷ ps) b same ((n, p), c) =
    (((same a).0 ∙ n, (same q).1 ∙ p), Chain-SameLinks heap heap' q ps b same c)

pub Ring-SameLinks :
    (heap heap' : ℕ → Process) (ps : List ℕ) → SameLinks heap heap' → Ring heap ps → Ring heap' ps
Ring-SameLinks heap heap' [] same r = r
Ring-SameLinks heap heap' (a ∷ ps) same (c, d, z) = (Chain-SameLinks heap heap' a ps a same c, d, z)

-- The next process becomes the first.
pub Ring-rotate :
    (heap : ℕ → Process) (a b : ℕ) (ps : List ℕ)
    → Ring heap (a ∷ b ∷ ps)
    → Ring heap (b ∷ (ps ++ (a ∷ [])))
Ring-rotate heap a b ps ((l, c), ((ab, fa), (fb, d)), (za, (zb, zs))) = (
  Chain-snoc heap b ps a b c l,
  (Fresh-snoc b ps a fb (λ e. ab (sym e)), Distinct-snoc ps a d fa),
  (zb, Fresh-snoc 0 ps a zs za),
)
