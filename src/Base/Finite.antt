-- ===== src/Base/Finite.antt =====
-- Statements about all numbers below a bound, by computation.
use mathlib.Core.Path.{subst, ◌≡◌, sym}
use mathlib.Core.Bool.{Bool, true, ◌&&◌}
use mathlib.Core.Logic.{inl, inr}
use Prim.Native.Nat.{ℕ, zero, suc, ◌<◌}
use native.Mathlib.Omega.{arith}
use sebopesyslab.Base.Tests.{Bool-cases, ◌==◌, ==→eq}

unfoldable pub all_below : ℕ → (ℕ → Bool) → Bool
all_below zero test = true
all_below (suc n) test = test n && all_below n test

all_split :
    (n : ℕ) (test : ℕ → Bool)
    → all_below (suc n) test ≡ true
    → (test n ≡ true) × (all_below n test ≡ true)
unfolding all_below
all_split n test h = ground (arith, h)

pub below_of_all :
    (n : ℕ) (test : ℕ → Bool) → all_below n test ≡ true → (x : ℕ) → x < n → test x ≡ true
below_of_all zero test h x b = absurd (omega (arith, b))
below_of_all (suc n) test h x b = elim (Bool-cases (x == n)) [
  | inl y ↦ subst (λ z. test z ≡ true) (sym (==→eq x n y)) (all_split n test h).0
  | inr o ↦ below_of_all n test (all_split n test h).1 x (ground (arith, b, o))
]
