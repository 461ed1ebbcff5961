-- ===== src/Keyboard/Codes/Letters.antt =====
-- The keys of the letters, with each state of the shift keys, and the keys behind 0xe0.
use mathlib.Core.Path.{subst}
use sebopesyslab.Base.{
  get_or, ap, ◌∙◌, ℕ, ◌+◌, ◌*◌, ◌/◌, ◌%◌, ◌<◌, ◌≡◌, refl, arith, Bool, true, ◌&&◌, ◌==◌,
  if◌then◌else◌, List, [], ◌∷◌,
}
use sebopesyslab.Base.Finite.{all_below, below_of_all}
use sebopesyslab.Keyboard.{letter}
use sebopesyslab.Keyboard.Codes.{
  key_up, key_pgup, key_lf, key_rt, key_end, key_dn, key_pgdn, key_ins, key_del, key_home,
  e0_escape, poll_key, tests_bit, shift_bit, ctl_bit, capslock_bit, shiftcode, togglecode,
  normalmap, shiftmap, ctlmap,
}

-- The character of letter `i`: a control code with CTL; else a capital one when exactly one of
-- SHIFT and CAPSLOCK is on.
abbrev pub letter_char : (i shift : ℕ) → ℕ
letter_char i shift =
    if tests_bit shift ctl_bit
    then i + 1
    else if tests_bit shift shift_bit
    then (if tests_bit shift capslock_bit then b'a' + i else b'A' + i)
    else if tests_bit shift capslock_bit
    then b'A' + i
    else b'a' + i

-- The two components, compared.
abbrev pub is_pair : ℕ × ℕ → (a b : ℕ) → Bool
is_pair r a b = (r.0 == a) && (r.1 == b)

pub is_pair→eq : (r : ℕ × ℕ) (a b : ℕ) → is_pair r a b ≡ true → r ≡ (a, b)
is_pair→eq (x, y) a b h =
    let e : x ≡ a = ground (arith, h) in
    let f : y ≡ b = ground (arith, h) in ap (λ z. (z, y)) e ∙ ap (λ z. (a, z)) f

letter_test : (i shift : ℕ) → Bool
letter_test i shift = is_pair (poll_key (letter i) shift) (letter_char i shift) shift

-- Two numbers in one, the second below 64.
pub unpack :
    (k : ℕ) (test : ℕ → ℕ → Bool)
    → all_below (k * 64) (λ n. test (n / 64) (n % 64)) ≡ true
    → (i j : ℕ) → i < k
    → j < 64
    → test i j ≡ true
unpack k test h i j b c =
    let n = i * 64 + j in
    let t : test (n / 64) (n % 64) ≡ true =
      below_of_all (k * 64) (λ x. test (x / 64) (x % 64)) h n (omega (arith, b, c)) in
    let hi : n / 64 ≡ i = omega (arith, c) in
    let lo : n % 64 ≡ j = omega (arith, c) in
    subst (λ x. test x j ≡ true) hi (subst (λ x. test (n / 64) x ≡ true) lo t)

letter_tests : all_below (26 * 64) (λ n. letter_test (n / 64) (n % 64)) ≡ true
unfolding all_below letter_test poll_key shiftcode togglecode normalmap shiftmap ctlmap
letter_tests = refl

-- Without a pending 0xe0, the code of a letter in the table of press_key makes poll_key give
-- that letter: with CTL its control code, else the capital one exactly when one of SHIFT and
-- CAPSLOCK is on; the shift stays.
pub poll_key-letter :
    (i shift : ℕ) → i < 26 → shift < 64 → poll_key (letter i) shift ≡ (letter_char i shift, shift)
unfolding letter_test
poll_key-letter i shift b s =
    is_pair→eq (poll_key (letter i) shift) (letter_char i shift) shift
      (unpack 26 letter_test letter_tests i shift b s)

-- The keys behind 0xe0: their codes, and the characters that they stand for.
abbrev extended_keys : List (ℕ × ℕ)
extended_keys =
    (0x48, key_up)
    ∷ (0x49, key_pgup)
    ∷ (0x4b, key_lf)
    ∷ (0x4d, key_rt)
    ∷ (0x4f, key_end)
    ∷ (0x50, key_dn)
    ∷ (0x51, key_pgdn)
    ∷ (0x52, key_ins)
    ∷ (0x53, key_del)
    ∷ (0x47, key_home)
    ∷ []

abbrev pub extended_key : ℕ → ℕ × ℕ
extended_key i = get_or extended_keys i (0, 0)

-- With CTL, Home is lost.
abbrev pub extended_char : (i shift : ℕ) → ℕ
extended_char i shift = if (i == 9) && tests_bit shift ctl_bit then 0 else (extended_key i).1

extended_test : (i shift : ℕ) → Bool
extended_test i shift =
    let e0 = shift + e0_escape in
    is_pair (poll_key 0xe0 shift) 0 e0
    && (is_pair (poll_key (extended_key i).0 e0) (extended_char i shift) shift
        && is_pair (poll_key ((extended_key i).0 + 0x80) e0) 0 shift)

extended_tests : all_below (10 * 64) (λ n. extended_test (n / 64) (n % 64)) ≡ true
unfolding all_below extended_test poll_key shiftcode togglecode normalmap shiftmap ctlmap
extended_tests = refl

-- What an extended key gives when it is pressed, and then when it is released.
pub record Extended (i shift : ℕ) : Type 0 where
  pub prefix : poll_key 0xe0 shift ≡ (0, shift + e0_escape)
  pub press : poll_key (extended_key i).0 (shift + e0_escape) ≡ (extended_char i shift, shift)
  pub release : poll_key ((extended_key i).0 + 0x80) (shift + e0_escape) ≡ (0, shift)

and_parts : (a b c : Bool) → (a && (b && c)) ≡ true → (a ≡ true) × (b ≡ true) × (c ≡ true)
and_parts a b c h = (ground (arith, h), ground (arith, h), ground (arith, h))

-- Without a pending 0xe0, 0xe0 and the code of one of the ten keys KEY_HOME to KEY_DEL give 0
-- and then the code of the key, or 0 for Home with CTL; when the key goes up both give 0; and
-- the shift is as before in the end.
pub poll_key-Extended : (i shift : ℕ) → i < 10 → shift < 64 → Extended i shift
unfolding extended_test
poll_key-Extended i shift b s =
    let e0 = shift + e0_escape in
    let t : extended_test i shift ≡ true = unpack 10 extended_test extended_tests i shift b s in
    let first = is_pair (poll_key 0xe0 shift) 0 e0 in
    let second = is_pair (poll_key (extended_key i).0 e0) (extended_char i shift) shift in
    let third = is_pair (poll_key ((extended_key i).0 + 0x80) e0) 0 shift in
    let p = and_parts first second third t in
    record {
      prefix = is_pair→eq (poll_key 0xe0 shift) 0 e0 p.0;
      press = is_pair→eq (poll_key (extended_key i).0 e0) (extended_char i shift) shift p.1;
      release = is_pair→eq (poll_key ((extended_key i).0 + 0x80) e0) 0 shift p.2;
    }
