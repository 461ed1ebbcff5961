-- ===== src/Base/Pigeonhole.antt =====
-- A list of distinct numbers below `n` has at most `n` entries.
use Prim.Native.Nat.{ℕ, zero, suc, ◌≤◌, ◌<◌}
use mathlib.Core.Path.{◌≡◌}
use mathlib.Core.Logic.{inl, inr}
use mathlib.Core.Bool.{false}
use mathlib.Core.List.{List, [], ◌∷◌}
use native.Mathlib.Omega.{arith}
use sebopesyslab.Base.Tests.{◌==◌, Bool-cases}
use sebopesyslab.Base.Lists.{length, has, erase, not-has-erase, length-erase}

abbrev pub Distinct : List ℕ → Type 0
Distinct [] = Unit
Distinct (x ∷ xs) = (has x xs ≡ false) × Distinct xs

abbrev pub AllBelow : ℕ → List ℕ → Type 0
AllBelow n [] = Unit
AllBelow n (x ∷ xs) = (x < n) × AllBelow n xs

erase-Distinct : (a : ℕ) (xs : List ℕ) → Distinct xs → Distinct (erase a xs)
erase-Distinct a [] d = tt
erase-Distinct a (x ∷ xs) d = elim (Bool-cases (a == x)) [
  | inl e ↦ rw e d.1
  | inr e ↦ rw e (not-has-erase x a xs d.0, erase-Distinct a xs d.1)
]

AllBelow-pred : (n : ℕ) (xs : List ℕ) → has n xs ≡ false → AllBelow (suc n) xs → AllBelow n xs
AllBelow-pred n [] e b = tt
AllBelow-pred n (x ∷ xs) e b = (ground (arith, b.0), AllBelow-pred n xs (ground (arith, e)) b.1)

erase-AllBelow : (n : ℕ) (xs : List ℕ) → Distinct xs → AllBelow (suc n) xs → AllBelow n (erase n xs)
erase-AllBelow n [] d b = tt
erase-AllBelow n (x ∷ xs) d b = elim (Bool-cases (n == x)) [
  | inl e ↦ rw e (AllBelow-pred n xs (ground (arith, d.0)) b.1)
  | inr e ↦ rw e (ground (arith, b.0), erase-AllBelow n xs d.1 b.1)
]

pub length-le_of_Distinct : (n : ℕ) (xs : List ℕ) → Distinct xs → AllBelow n xs → length xs ≤ n
length-le_of_Distinct n [] d b = omega arith
length-le_of_Distinct zero (x ∷ xs) d b = absurd (omega (arith, b.0))
length-le_of_Distinct (suc n) (x ∷ xs) d b = elim (Bool-cases (has n (x ∷ xs))) [
  | inl e ↦ omega (
    arith,
    length-erase n (x ∷ xs) e,
    length-le_of_Distinct n (erase n (x ∷ xs)) (erase-Distinct n (x ∷ xs) d)
        (erase-AllBelow n (x ∷ xs) d b),
  )
  | inr e ↦ omega (arith, length-le_of_Distinct n (x ∷ xs) d (AllBelow-pred n (x ∷ xs) e b))
]
