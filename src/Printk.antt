-- ===== src/Printk.antt =====
-- vfprintf of lib/printk.c, as the list of the characters that it gives to `printer`.
pub mod Numbers
use sebopesyslab.Base.{
  ℕ, zero, suc, ◌+◌, ◌/◌, ◌%◌, ◌^◌, Bool, true, false, not, ◌&&◌, ◌||◌, ◌==◌, ltb, leb,
  if◌then◌else◌, List, [], ◌∷◌, ◌++◌, u8, sub32, is_negative,
}

-- `char digits[15]`
abbrev pub max_digits : ℕ
max_digits = 15

-- A digit below 16 as a character: '0' + d, and 'a' + d - 10 from ten on
abbrev pub digit_char : ℕ → ℕ
digit_char d = if leb 10 d then 48 + (d + 39) else 48 + d

-- `while(x>=1)`: the digits of `x`, the last one first.
unfoldable pub digits : (n base x : ℕ) → List ℕ
digits zero base x = []
digits (suc n) base x = if x == 0 then [] else digit_char (x % base) ∷ digits n base (x / base)

-- `for(;di>=0;di--)`
abbrev pub backwards : List ℕ → List ℕ
backwards [] = []
backwards (c ∷ cs) = backwards cs ++ c ∷ []

abbrev pub number : (base x : ℕ) → List ℕ
number base x = if x == 0 then 48 ∷ [] else backwards (digits max_digits base x)

-- "-2147483648"
abbrev pub int_min_text : List ℕ
int_min_text = 45 ∷ 50 ∷ 49 ∷ 52 ∷ 55 ∷ 52 ∷ 56 ∷ 51 ∷ 54 ∷ 52 ∷ 56 ∷ []

-- %d of an int, by its bit pattern
abbrev pub decimal : ℕ → List ℕ
decimal x =
    if x == 2 ^ 31
    then int_min_text
    else if is_negative x
    then 45 ∷ number 10 (sub32 0 x)
    else number 10 x

-- What the character `c` behind a '%' prints of the argument `a`; `text` gives the string at an address.
abbrev pub conversion : (text : ℕ → List ℕ) (c a : ℕ) → List ℕ
conversion text c a =
    if c == 115
    then text a
    else if c == 120
    then number 16 a
    else if c == 100
    then decimal a
    else if c == 99
    then u8 a ∷ []
    else []

-- 's', 'x', 'd' and 'c' take an argument.
abbrev pub takes_argument : ℕ → Bool
takes_argument c = (c == 115 || c == 120) || (c == 100 || c == 99)

-- `read` is `type == READ`, `p` the number of arguments taken.
abbrev pub vfprintf_loop :
    (text : ℕ → List ℕ) (args : ℕ → ℕ) → List ℕ → (read : Bool) (p : ℕ) → List ℕ
vfprintf_loop text args [] read p = []
vfprintf_loop text args (c ∷ cs) read p =
    let is_percent = c == 37 in
    let converts = not is_percent && read in
    let rest =
      vfprintf_loop text args cs is_percent (if converts && takes_argument c then p + 1 else p) in
    if is_percent then rest else if read then conversion text c (args p) ++ rest else c ∷ rest

abbrev pub vfprintf : (text : ℕ → List ℕ) (ctl : List ℕ) (args : ℕ → ℕ) → List ℕ
vfprintf text ctl args = vfprintf_loop text args ctl false 0
