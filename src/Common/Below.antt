-- ===== src/Common/Below.antt =====
-- Facts that are checked at each number below a bound.
use Prim.Native.Nat.{ℕ, zero, suc, ◌<◌}
use mathlib.Core.Path.{◌≡◌}
use mathlib.Core.Logic.{inl, inr}
use mathlib.Core.Bool.{Bool, true, false, not, ◌&&◌}
use native.Mathlib.Omega.{arith}
use raw_os.Common.Tests.{eq_or_lt}

-- A test passes at each number below the bound.
unfoldable pub passes : (ℕ → Bool) → ℕ → Bool
passes test zero = true
passes test (suc bound) = passes test bound && test bound

pub passes-at :
    (test : ℕ → Bool) (bound n : ℕ) → n < bound → passes test bound ≡ true → test n ≡ true
unfolding passes
passes-at test zero n less every = elim less [ ]
passes-at test (suc bound) n less every = elim (eq_or_lt n bound (omega arith)) [
  | inl e ↦ rw e (ground arith)
  | inr below ↦ passes-at test bound n below (ground arith)
]

unfoldable pub same : Bool → Bool → Bool
same true b = b
same false b = not b

pub same_sound : (a b : Bool) → same a b ≡ true → a ≡ b
unfolding same
same_sound true b h = ground arith
same_sound false b h = ground arith
