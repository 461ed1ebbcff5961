-- ===== src/FileSystem/Alloc/Bits.antt =====
-- One bit of a byte, taken and tested. There are few bytes, so that all cases are computed.
use mathlib.Core.Path.{subst}
use sebopesyslab.Base.Finite.{all_below, below_of_all}
use sebopesyslab.FileSystem.{Bytes}
use sebopesyslab.FileSystem.Alloc.{is_free, take_bit, bit_in_byte}
use sebopesyslab.Base.{
  ◌>>>◌, ℕ, ◌%◌, ◌<◌, ◌≡◌, refl, sym, ap, ◌∙◌, Bool, true, false, ◌&&◌, ◌||◌, not, arith, ◌==◌,
  bit_and, bit_or, ◌<<<◌, Bool-cases, inl, inr, ==→eq, ne→==_false, eq→==, if◌then◌else◌,
}

abbrev takes_bit : ℕ → ℕ → Bool
takes_bit i x = not (bit_and (bit_or x (1 <<< i)) (1 <<< i) == 0)

abbrev same_bit : ℕ → ℕ → Bool
same_bit x y = (x == 0) && (y == 0) || not (x == 0) && not (y == 0)

abbrev leaves_bit : ℕ → ℕ → ℕ → Bool
leaves_bit i j x =
    (i == j) || same_bit (bit_and (bit_or x (1 <<< i)) (1 <<< j)) (bit_and x (1 <<< j))

bits_taken : all_below 8 (λ i. all_below 256 (takes_bit i)) ≡ true
unfolding all_below
bits_taken = refl

bits_left : all_below 8 (λ i. all_below 8 (λ j. all_below 256 (leaves_bit i j))) ≡ true
unfolding all_below
bits_left = refl

bit_taken : (i x : ℕ) → i < 8 → x < 256 → (bit_and (bit_or x (1 <<< i)) (1 <<< i) == 0) ≡ false
bit_taken i x h b = negated (
    below_of_all 256 (takes_bit i)
      (below_of_all 8 (λ i. all_below 256 (takes_bit i)) bits_taken i h) x b)
  where
    negated : {a : Bool} → not a ≡ true → a ≡ false
    negated {a} e = ground (arith, e)

bit_left :
    (i j x : ℕ)
    → i < 8
    → j < 8
    → x < 256
    → (i == j) ≡ false
    → (bit_and (bit_or x (1 <<< i)) (1 <<< j) == 0) ≡ (bit_and x (1 <<< j) == 0)
bit_left i j x h h' b ne = same (bit_and (bit_or x (1 <<< i)) (1 <<< j)) (bit_and x (1 <<< j)) (
    subst
      (λ z. (z || same_bit (bit_and (bit_or x (1 <<< i)) (1 <<< j)) (bit_and x (1 <<< j))) ≡ true)
      ne
      (below_of_all 256 (leaves_bit i j)
        (below_of_all 8 (λ j. all_below 256 (leaves_bit i j))
          (below_of_all 8 (λ i. all_below 8 (λ j. all_below 256 (leaves_bit i j))) bits_left i h) j
          h')
        x b))
  where
    same : (y z : ℕ) → same_bit y z ≡ true → (y == 0) ≡ (z == 0)
    same y z e = ground (arith, e)

-- A bit that is taken is no longer free; all others are as they were.
pub is_free-take_bit :
    (mask : Bytes) (s t : ℕ)
    → mask (s >>> 3) < 256
    → is_free (take_bit s mask) t ≡ (if t == s then false else is_free mask t)
is_free-take_bit mask s t b = elim (Bool-cases ((t >>> 3) == (s >>> 3))) [
  | inl y ↦
      let old = mask (s >>> 3) in
      let here : take_bit s mask (t >>> 3) ≡ bit_or old (bit_in_byte s) = rw y in
      let there : t >>> 3 ≡ s >>> 3 = ==→eq (t >>> 3) (s >>> 3) y in
      ap (λ z. bit_and z (bit_in_byte t) == 0) here ∙ elim (Bool-cases ((s % 8) == (t % 8))) [
        | inl e ↦
            let e' = ==→eq (s % 8) (t % 8) e in
            ap (λ z. bit_and (bit_or old (bit_in_byte s)) (1 <<< z) == 0) (sym e')
            ∙ bit_taken (s % 8) old (omega arith) b
            ∙ sym (
                ap (λ z. if z then false else is_free mask t)
                  (eq→== t s (omega (arith, e', there))))
        | inr n ↦
            bit_left (s % 8) (t % 8) old (omega arith) (omega arith) b n
            ∙ ap (λ z. bit_and (mask z) (bit_in_byte t) == 0) (sym there)
            ∙ sym (
                ap (λ z. if z then false else is_free mask t)
                  (ne→==_false t s (λ e. ground (arith, n, e))))
      ]
  | inr o ↦
      let here : take_bit s mask (t >>> 3) ≡ mask (t >>> 3) = rw o in
      ap (λ z. bit_and z (bit_in_byte t) == 0) here
      ∙ sym (
          ap (λ z. if z then false else is_free mask t)
            (ne→==_false t s (λ e. ground (arith, o, e))))
]
