-- ===== src/Common/Effects.antt =====
-- What a C function of the kernel does: it returns, it stops in `panic` (util/util.c), or it does
-- something that C leaves undefined, such as a read through a null pointer.
use mathlib.Core.Path.{◌≡◌, refl}
use mathlib.Core.Bool.{Bool, true, false}

pub data Outcome {ℓ} (A : Type ℓ) : Type ℓ where
  ok : A → Outcome A
  panicked : Outcome A
  fault : Outcome A

infixl 5 ◌>>=◌ ◌>>◌
abbrev pub ◌>>=◌ {ℓ κ} : {A : Type ℓ} {B : Type κ} → Outcome A → (A → Outcome B) → Outcome B
ok a >>= f = f a
panicked >>= f = panicked
fault >>= f = fault

abbrev pub ◌>>◌ {ℓ} : {B : Type ℓ} → Outcome (Unit {0}) → Outcome B → Outcome B
m >> k = m >>= λ _. k

-- `assert` (util/util.c): a false condition ends in `panic`.
abbrev pub assert : Bool → Outcome (Unit {0})
assert true = ok tt
assert false = panicked

-- Total correctness: the function returns, and the result satisfies `P`.
abbrev pub Returns {ℓ} : {A : Type ℓ} → Outcome A → (A → Type 0) → Type 0
Returns (ok a) P = P a
Returns panicked P = ⊥
Returns fault P = ⊥

module _ {ℓ} {A : Type ℓ} where
  -- A returning call, by its result and what is known of it.
  pub Returns-ok : (m : Outcome A) (P : A → Type 0) → Returns m P → (a : A) × (m ≡ ok a) × P a
  Returns-ok (ok a) P h = (a, refl, h)
  Returns-ok panicked P h = absurd h
  Returns-ok fault P h = absurd h

  pub Returns-imp :
      (m : Outcome A) (P Q : A → Type 0) → Returns m P → ((a : A) → P a → Q a) → Returns m Q
  Returns-imp (ok a) P Q h f = f a h
  Returns-imp panicked P Q h f = h
  Returns-imp fault P Q h f = h

  -- The rule for a sequence of calls.
  pub Returns->>= {κ} :
      {B : Type κ} (m : Outcome A) (P : A → Type 0) (f : A → Outcome B) (Q : B → Type 0)
      → Returns m P
      → ((a : A) → P a → Returns (f a) Q)
      → Returns (m >>= f) Q
  Returns->>= (ok a) P f Q h k = k a h
  Returns->>= panicked P f Q h k = absurd h
  Returns->>= fault P f Q h k = absurd h

-- Partial correctness, to be joined to a `Returns`.
abbrev pub Ensures {ℓ} : {A : Type ℓ} → Outcome A → (A → Type 0) → Type 0
Ensures (ok a) P = P a
Ensures panicked P = Unit
Ensures fault P = Unit

module _ {ℓ} {A : Type ℓ} where
  pub Returns-and :
      (m : Outcome A) (P Q : A → Type 0) → Returns m P → Ensures m Q → Returns m (λ a. P a × Q a)
  Returns-and (ok a) P Q h k = (h, k)
  Returns-and panicked P Q h k = h
  Returns-and fault P Q h k = h

  pub Ensures->>= {κ} :
      {B : Type κ} (m : Outcome A) (P : A → Type 0) (f : A → Outcome B) (Q : B → Type 0)
      → Ensures m P
      → ((a : A) → P a → Ensures (f a) Q)
      → Ensures (m >>= f) Q
  Ensures->>= (ok a) P f Q h k = k a h
  Ensures->>= panicked P f Q h k = tt
  Ensures->>= fault P f Q h k = tt
