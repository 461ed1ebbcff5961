-- ===== src/Keyboard/Lines/Keys.antt =====
-- The keys of letters and backspace: their codes, and what read_char does with their characters.
use sebopesyslab.Base.{
  ltb→lt, ℕ, zero, suc, ◌+◌, ◌-◌, ◌*◌, ◌/◌, ◌%◌, ◌≤◌, ◌<◌, ◌≡◌, refl, ap, Bool, true, false, not,
  ◌&&◌, ◌||◌, arith, ◌==◌, leb, ltb, List, [], ◌∷◌, some, ne→==_false, lt→ltb, le→leb,
}
use sebopesyslab.Base.Finite.{all_below}
use sebopesyslab.Base.Action.{ok}
use sebopesyslab.Kernel.{update}
use sebopesyslab.Keyboard.{letter}
use sebopesyslab.Keyboard.Codes.{
  poll_key, tests_bit, ctl_bit, shiftcode, togglecode, normalmap, shiftmap, ctlmap,
}
use sebopesyslab.Keyboard.Codes.Letters.{letter_char, is_pair, is_pair→eq, unpack}
use sebopesyslab.Keyboard.Lines.{Console, read_char, rub_out, buf_len}

pub data Key : Type 0 where
  character : ℕ → Key
  backspace : Key

-- The codes of the key, which goes down and up.
abbrev pub codes : List Key → List ℕ
codes [] = []
codes (character i ∷ ks) = letter i ∷ (letter i + 0x80) ∷ codes ks
codes (backspace ∷ ks) = 0x0e ∷ 0x8e ∷ codes ks

abbrev pub AreKeys : List Key → Type 0
AreKeys [] = Unit {0}
AreKeys (character i ∷ ks) = (i < 26) × AreKeys ks
AreKeys (backspace ∷ ks) = AreKeys ks

abbrev pub tail : List ℕ → List ℕ
tail [] = []
tail (c ∷ r) = r

-- The text after the keys, its last character first.
abbrev pub edit : (shift : ℕ) → List Key → List ℕ → List ℕ
edit s [] r = r
edit s (character i ∷ ks) r = edit s ks (letter_char i s ∷ r)
edit s (backspace ∷ ks) r = edit s ks (tail r)

-- The shift keys without CTL and without a pending 0xe0.
abbrev pub IsPlain : ℕ → Type 0
IsPlain s = (s < 64) × (tests_bit s ctl_bit ≡ false)

-- What the keys give with each shift: a printable character for a letter, nothing when a key goes up.
key_test : (i s : ℕ) → Bool
key_test i s =
    tests_bit s ctl_bit
    || ((leb 0x20 (letter_char i s) && ltb (letter_char i s) 0x7f)
        && (is_pair (poll_key (letter i + 0x80) s) 0 s
            && (not (letter i == 8) && not (letter i + 0x80 == 8))))

key_tests : all_below (26 * 64) (λ n. key_test (n / 64) (n % 64)) ≡ true
unfolding all_below key_test poll_key shiftcode togglecode normalmap shiftmap ctlmap
key_tests = refl

pub record KeyFacts (i s : ℕ) : Type 0 where
  pub char_low : 0x20 ≤ letter_char i s
  pub char_high : letter_char i s < 0x7f
  pub release : poll_key (letter i + 0x80) s ≡ (0, s)
  pub press_code : (letter i == 8) ≡ false
  pub release_code : (letter i + 0x80 == 8) ≡ false

leb→le : (a b : ℕ) → leb a b ≡ true → a ≤ b
leb→le a b h = ground (arith, h)

five_parts :
    (a b c d e f : Bool)
    → a ≡ false
    → (a || ((b && c) && (d && (not e && not f)))) ≡ true
    → (b ≡ true) × (c ≡ true) × (d ≡ true) × (e ≡ false) × (f ≡ false)
five_parts a b c d e f n h = (
  ground (arith, n, h),
  ground (arith, n, h),
  ground (arith, n, h),
  ground (arith, n, h),
  ground (arith, n, h),
)

three_parts :
    (a b c d : Bool)
    → a ≡ false
    → (a || (b && (c && d))) ≡ true
    → (b ≡ true) × (c ≡ true) × (d ≡ true)
three_parts a b c d n h = (ground (arith, n, h), ground (arith, n, h), ground (arith, n, h))

pub KeyFacts-letter : (i s : ℕ) → i < 26 → IsPlain s → KeyFacts i s
unfolding key_test
KeyFacts-letter i s b p =
    let c = letter_char i s in
    let t : key_test i s ≡ true = unpack 26 key_test key_tests i s b p.0 in
    let q =
      five_parts (tests_bit s ctl_bit) (leb 0x20 c) (ltb c 0x7f)
        (is_pair (poll_key (letter i + 0x80) s) 0 s) (letter i == 8) (letter i + 0x80 == 8) p.1 t in
    let low = q.0 in
    let high = q.1 in
    record {
      char_low = leb→le 0x20 c low;
      char_high = ltb→lt c 0x7f high;
      release = is_pair→eq (poll_key (letter i + 0x80) s) 0 s q.2;
      press_code = q.3;
      release_code = q.4;
    }

other_test : (i s : ℕ) → Bool
other_test i s =
    tests_bit s ctl_bit
    || (is_pair (poll_key 0x0e s) 8 s
        && (is_pair (poll_key 0x8e s) 0 s && is_pair (poll_key 0x1c s) 10 s))

other_tests : all_below (1 * 64) (λ n. other_test (n / 64) (n % 64)) ≡ true
unfolding all_below other_test poll_key shiftcode togglecode normalmap shiftmap ctlmap
other_tests = refl

pub record OtherFacts (s : ℕ) : Type 0 where
  pub press : poll_key 0x0e s ≡ (8, s)
  pub release : poll_key 0x8e s ≡ (0, s)
  pub enter : poll_key 0x1c s ≡ (10, s)

pub OtherFacts-plain : (s : ℕ) → IsPlain s → OtherFacts s
unfolding other_test
OtherFacts-plain s p =
    let t : other_test 0 s ≡ true = unpack 1 other_test other_tests 0 s (omega arith) p.0 in
    let q =
      three_parts (tests_bit s ctl_bit) (is_pair (poll_key 0x0e s) 8 s)
        (is_pair (poll_key 0x8e s) 0 s) (is_pair (poll_key 0x1c s) 10 s) p.1 t in
    record {
      press = is_pair→eq (poll_key 0x0e s) 8 s q.0;
      release = is_pair→eq (poll_key 0x8e s) 0 s q.1;
      enter = is_pair→eq (poll_key 0x1c s) 10 s q.2;
    }

-- read_char on the characters that these keys give.
pub read_char-none : (i : ℕ) (k : Console) → read_char 0 i k ≡ ok (some i) k
unfolding read_char
read_char-none i k = refl

abbrev pub put : (c n : ℕ) → Console → Console
put c n k = record k { printed = c ∷ k.printed; buf = update k.buf n c }

pub read_char-put :
    (c n : ℕ) (k : Console)
    → 0x20 ≤ c
    → c < 0x7f
    → n < buf_len - 1
    → read_char c n k ≡ ok (some (n + 1)) (put c n k)
unfolding read_char
read_char-put c n k l h b =
    rw
      (
        ne→==_false c 0xe2 (omega (arith, h)),
        ne→==_false c 0xe3 (omega (arith, h)),
        ne→==_false c 8 (omega (arith, l)),
        ne→==_false c 0x7f (omega (arith, h)),
        le→leb 0x20 c l,
        lt→ltb n (buf_len - 1) b,
      )
      refl

abbrev pub rubbed : ℕ → Console → Console
rubbed zero k = k
rubbed (suc n) k = record k { printed = 8 ∷ b' ' ∷ 8 ∷ k.printed }

pub read_char-backspace : (n : ℕ) (k : Console) → read_char 8 n k ≡ ok (some (n - 1)) (rubbed n k)
unfolding read_char rub_out
read_char-backspace zero k = refl
read_char-backspace (suc n) k =
    rw (lt→ltb 0 (suc n) (omega arith)) (ap (λ i. ok (some i) (rubbed (suc n) k)) (omega arith))
