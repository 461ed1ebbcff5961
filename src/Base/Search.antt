-- ===== src/Base/Search.antt =====
-- `for (i = lo; i < lo + n; i++) if (test(i)) break;`: the first index that passes, or the end.
use Prim.Native.Nat.{ℕ, zero, suc, ◌+◌, ◌≤◌, ◌<◌}
use mathlib.Core.Path.{◌≡◌}
use mathlib.Core.Logic.{inl, inr}
use mathlib.Core.Bool.{Bool, true, false}
use native.Mathlib.Omega.{arith}
use sebopesyslab.Base.Tests.{Bool-cases, ◌==◌, ==→eq}

unfoldable pub first_from : ℕ → ℕ → (ℕ → Bool) → ℕ
first_from zero i test = i
first_from (suc n) i test = elim (test i) [ true ↦ i | false ↦ first_from n (i + 1) test ]

-- What the search gives at the end `stop` of its range.
pub record IsFirst (lo stop : ℕ) (test : ℕ → Bool) (r : ℕ) : Type 0 where
  pub above : lo ≤ r
  pub inside : r ≤ stop
  pub passes : r < stop → test r ≡ true
  pub none_before : (j : ℕ) → lo ≤ j → j < r → test j ≡ false

first_from-suc-true : (n i : ℕ) (test : ℕ → Bool) → test i ≡ true → first_from (suc n) i test ≡ i
unfolding first_from
first_from-suc-true n i test e = rw (e, first_from)

first_from-suc-false :
    (n i : ℕ) (test : ℕ → Bool)
    → test i ≡ false
    → first_from (suc n) i test ≡ first_from n (i + 1) test
unfolding first_from
first_from-suc-false n i test e = rw (e, first_from)

pub first_from-IsFirst :
    (n lo stop : ℕ) (test : ℕ → Bool) → lo + n ≡ stop → IsFirst lo stop test (first_from n lo test)
first_from-IsFirst zero lo stop test e =
    unfold first_from in
    record {
      above = omega arith;
      inside = omega arith;
      passes = λ h. absurd (omega arith);
      none_before = λ j a b. absurd (omega arith);
    }
first_from-IsFirst (suc n) lo stop test e = elim (Bool-cases (test lo)) [
  | inl y ↦ rw (first_from-suc-true n lo test y) (record {
    above = omega arith;
    inside = omega arith;
    passes = λ h. y;
    none_before = λ j a b. absurd (omega arith);
  })
  | inr x ↦
      let rest = first_from-IsFirst n (lo + 1) stop test (omega arith) in
      rw (first_from-suc-false n lo test x) (record {
        above = omega (arith, rest.above);
        inside = rest.inside;
        passes = rest.passes;
        none_before = λ j a b. elim (Bool-cases (j == lo)) [
          | inl same ↦ rw (==→eq j lo same) x
          | inr later ↦ rest.none_before j (ground arith) b
        ];
      })
]
