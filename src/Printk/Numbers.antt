-- ===== src/Printk/Numbers.antt =====
-- A printed number, read again.
use mathlib.Core.Path.{subst}
use mathlib.Core.List.{append-nil}
use sebopesyslab.Base.{
  ℕ, zero, suc, ◌+◌, ◌-◌, ◌*◌, ◌/◌, ◌%◌, ◌^◌, ◌<◌, ◌≤◌, ◌≡◌, ◌≢◌, refl, sym, ap, ◌∙◌, false, ◌==◌,
  leb, if◌then◌else◌, List, [], ◌∷◌, ◌++◌, arith, length, has, has-append, ◌||◌, sub32, is_negative,
  ne→==_false, Bool-cases, inl, inr, ==→eq,
}
use sebopesyslab.Printk.{
  digit_char, digits, backwards, number, decimal, int_min_text, max_digits, vfprintf,
}

-- The value of a digit, and of a string of them.
abbrev pub digit_value : ℕ → ℕ
digit_value c = if leb 97 c then c - 87 else c - 48

abbrev pub read_digits : (base acc : ℕ) → List ℕ → ℕ
read_digits base acc [] = acc
read_digits base acc (c ∷ cs) = read_digits base (acc * base + digit_value c) cs

-- A '-' and digits, or digits, as the bit pattern of an int.
abbrev pub read_int : List ℕ → ℕ
read_int [] = 0
read_int (c ∷ cs) = if c == 45 then sub32 0 (read_digits 10 0 cs) else read_digits 10 0 (c ∷ cs)

digit_value-digit_char : (d : ℕ) → d < 16 → digit_value (digit_char d) ≡ d
digit_value-digit_char d h = ground (arith, h)

read_digits-append :
    (base acc : ℕ) (xs : List ℕ) (c : ℕ)
    → read_digits base acc (xs ++ c ∷ []) ≡ read_digits base acc xs * base + digit_value c
read_digits-append base acc [] c = refl
read_digits-append base acc (x ∷ xs) c = read_digits-append base (acc * base + digit_value x) xs c

abbrev pub power : (base n : ℕ) → ℕ
power base zero = 1
power base (suc n) = base * power base n

module _ (base : ℕ) (small : (x : ℕ) → x % base < 16)
    (div : (x m : ℕ) → x < base * m → x / base < m)
    (parts : (x : ℕ) → (x / base) * base + x % base ≡ x) where
  digits-none : (x : ℕ) → digits 0 base x ≡ []
  unfolding digits
  digits-none x = refl

  digits-zero : (n : ℕ) → digits n base 0 ≡ []
  digits-zero zero = unfold digits in refl
  digits-zero (suc n) = unfold digits in refl

  digits-suc :
      (n x : ℕ) → x ≢ 0 → digits (suc n) base x ≡ digit_char (x % base) ∷ digits n base (x / base)
  unfolding digits
  digits-suc n x h = rw (ne→==_false x 0 h)

  read_digits-digits :
      (n x : ℕ) → x < power base n → read_digits base 0 (backwards (digits n base x)) ≡ x
  read_digits-digits zero x h =
      ap (λ ds. read_digits base 0 (backwards ds)) (digits-none x) ∙ omega (arith, h)
  read_digits-digits (suc n) x h = elim (Bool-cases (x == 0)) [
    | inl e ↦
        subst (λ z. read_digits base 0 (backwards (digits (suc n) base z)) ≡ z) (sym (==→eq x 0 e))
          (ap (λ ds. read_digits base 0 (backwards ds)) (digits-zero (suc n)))
    | inr o ↦
        ap (λ ds. read_digits base 0 (backwards ds)) (digits-suc n x (λ e. ground (arith, o, e)))
        ∙ read_digits-append base 0 (backwards (digits n base (x / base))) (digit_char (x % base))
        ∙ ap (λ v. v * base + digit_value (digit_char (x % base)))
            (read_digits-digits n (x / base) (div x (power base n) h))
        ∙ ap (λ v. x / base * base + v) (digit_value-digit_char (x % base) (small x))
        ∙ parts x
  ]

  length-digits : (n m x : ℕ) → x < power base n → length (digits m base x) ≤ n
  length-digits zero m x h =
      subst (λ z. length (digits m base z) ≤ 0) {x = 0} (omega (arith, h))
        (subst (λ ds. length ds ≤ 0) (sym (digits-zero m)) (omega arith))
  length-digits (suc n) zero x h =
      subst (λ ds. length ds ≤ suc n) (sym (digits-none x)) (omega arith)
  length-digits (suc n) (suc m) x h = elim (Bool-cases (x == 0)) [
    | inl e ↦
        subst (λ z. length (digits (suc m) base z) ≤ suc n) (sym (==→eq x 0 e))
          (subst (λ ds. length ds ≤ suc n) (sym (digits-zero (suc m))) (omega arith))
    | inr o ↦
        subst (λ ds. length ds ≤ suc n) (sym (digits-suc m x (λ e. ground (arith, o, e))))
          (omega (arith, length-digits n m (x / base) (div x (power base n) h)))
  ]

  -- No '-' among the digits.
  no_sign : (n x : ℕ) → has 45 (backwards (digits n base x)) ≡ false
  no_sign zero x = ap (λ ds. has 45 (backwards ds)) (digits-none x)
  no_sign (suc n) x = elim (Bool-cases (x == 0)) [
    | inl e ↦
        subst (λ z. has 45 (backwards (digits (suc n) base z)) ≡ false) (sym (==→eq x 0 e))
          (ap (λ ds. has 45 (backwards ds)) (digits-zero (suc n)))
    | inr o ↦
        ap (λ ds. has 45 (backwards ds)) (digits-suc n x (λ e. ground (arith, o, e)))
        ∙ has-append 45 (backwards (digits n base (x / base))) (digit_char (x % base) ∷ [])
        ∙ ap (λ b. b || has 45 (digit_char (x % base) ∷ [])) (no_sign n (x / base))
        ∙ not_minus (x % base)
  ]
    where
      not_minus : (d : ℕ) → has 45 (digit_char d ∷ []) ≡ false
      not_minus d = ground arith

  read_digits-number : (x : ℕ) → x < power base max_digits → read_digits base 0 (number base x) ≡ x
  read_digits-number x h = elim (Bool-cases (x == 0)) [
    | inl e ↦
        subst
          (λ z.
            read_digits base 0 (if z then 48 ∷ [] else backwards (digits max_digits base x)) ≡ x)
          (sym e) (omega (arith, ==→eq x 0 e))
    | inr o ↦
        ap (λ z. read_digits base 0 (if z then 48 ∷ [] else backwards (digits max_digits base x))) o
        ∙ read_digits-digits max_digits x h
  ]

  no_sign_number : (x : ℕ) → has 45 (number base x) ≡ false
  no_sign_number x = elim (Bool-cases (x == 0)) [
    | inl e ↦ ap (λ z. has 45 (if z then 48 ∷ [] else backwards (digits max_digits base x))) e
    | inr o ↦
        ap (λ z. has 45 (if z then 48 ∷ [] else backwards (digits max_digits base x))) o
        ∙ no_sign max_digits x
  ]

read_int_lem : (cs : List ℕ) → has 45 cs ≡ false → read_int cs ≡ read_digits 10 0 cs
read_int_lem [] h = refl
read_int_lem (c ∷ cs) h =
    ap (λ z. if z then sub32 0 (read_digits 10 0 cs) else read_digits 10 0 (c ∷ cs)) (not_first h)
  where
    not_first : has 45 (c ∷ cs) ≡ false → (c == 45) ≡ false
    not_first e = ground (arith, e)

read_ten : (x : ℕ) → x < 2 ^ 32 → read_digits 10 0 (number 10 x) ≡ x
read_ten x h =
    read_digits-number 10 (λ x. omega arith) (λ x m h. omega (arith, h)) (λ x. omega arith) x
      (omega (arith, h))

read_int-decimal : (x : ℕ) → x < 2 ^ 32 → read_int (decimal x) ≡ x
read_int-decimal x h = elim (Bool-cases (x == 2 ^ 31)) [
  | inl e ↦
      subst (λ z. read_int (if z then int_min_text else other) ≡ x) (sym e)
        (sym (==→eq x (2 ^ 31) e))
  | inr o ↦
      subst (λ z. read_int (if z then int_min_text else other) ≡ x) (sym o)
        (elim (Bool-cases (is_negative x)) [
          | inl n ↦
              subst (λ z. read_int (if z then 45 ∷ number 10 (sub32 0 x) else number 10 x) ≡ x)
                (sym n) (ap (sub32 0) (read_ten (sub32 0 x) (omega arith)) ∙ ground (arith, h, n))
          | inr p ↦
              subst (λ z. read_int (if z then 45 ∷ number 10 (sub32 0 x) else number 10 x) ≡ x)
                (sym p)
                (read_int_lem (number 10 x) (
                    no_sign_number 10 (λ x. omega arith) (λ x m h. omega (arith, h))
                      (λ x. omega arith) x)
                  ∙ read_ten x h)
        ])
]
  where
    other : List ℕ
    other = if is_negative x then 45 ∷ number 10 (sub32 0 x) else number 10 x

-- What vfprintf prints for %d with a 32-bit argument, read as an optional minus sign and
-- decimal digits, is the bit pattern of the argument, the least int included.
pub vfprintf_decimal :
    (text : ℕ → List ℕ) (args : ℕ → ℕ)
    → args 0 < 2 ^ 32
    → read_int (vfprintf text (37 ∷ 100 ∷ []) args) ≡ args 0
vfprintf_decimal text args h =
    ap read_int (append-nil (decimal (args 0))) ∙ read_int-decimal (args 0) h

-- What vfprintf prints for %x with a 32-bit argument, read as hexadecimal digits, is the
-- argument.
pub vfprintf_hex :
    (text : ℕ → List ℕ) (args : ℕ → ℕ)
    → args 0 < 2 ^ 32
    → read_digits 16 0 (vfprintf text (37 ∷ 120 ∷ []) args) ≡ args 0
vfprintf_hex text args h =
    ap (read_digits 16 0) (append-nil (number 16 (args 0)))
    ∙ read_digits-number 16 (λ x. omega arith) (λ x m h. omega (arith, h)) (λ x. omega arith)
        (args 0) (omega (arith, h))

-- A number below 2^32 has at most 10 decimal and at most 8 hexadecimal digits, so that
-- digits[15] is never overrun.
pub length-digits_fit :
    (x : ℕ)
    → x < 2 ^ 32
    → (length (digits max_digits 10 x) ≤ 10) × (length (digits max_digits 16 x) ≤ 8)
length-digits_fit x h = (
  length-digits 10 (λ x. omega arith) (λ x m h. omega (arith, h)) (λ x. omega arith) 10 max_digits x
      (omega (arith, h)),
  length-digits 16 (λ x. omega arith) (λ x m h. omega (arith, h)) (λ x. omega arith) 8 max_digits x
      (omega (arith, h)),
)
