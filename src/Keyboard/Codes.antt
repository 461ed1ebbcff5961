-- ===== src/Keyboard/Codes.antt =====
-- The scan codes of kernel/src/keyboard.c: the tables of codes, poll_key and getchar. Bits of `shift`:
-- 1 SHIFT, 2 CTL, 4 ALT, 8 CAPSLOCK, 16 NUMLOCK, 32 SCROLLLOCK, 64 E0ESC.
pub mod Letters
use sebopesyslab.Base.{
  ℕ, ◌+◌, ◌-◌, ◌*◌, ◌%◌, ◌^◌, Bool, not, ◌&&◌, ◌==◌, if◌then◌else◌, List, [], ◌∷◌, get_or, bit_and,
  bit_or, bit_xor, leb,
}

-- NO, and the KEY_ codes of kernel/include/keyboard.h
abbrev pub no_key : ℕ
no_key = 0

abbrev pub key_home : ℕ
key_home = 0xe0

abbrev pub key_end : ℕ
key_end = 0xe1

abbrev pub key_up : ℕ
key_up = 0xe2

abbrev pub key_dn : ℕ
key_dn = 0xe3

abbrev pub key_lf : ℕ
key_lf = 0xe4

abbrev pub key_rt : ℕ
key_rt = 0xe5

abbrev pub key_pgup : ℕ
key_pgup = 0xe6

abbrev pub key_pgdn : ℕ
key_pgdn = 0xe7

abbrev pub key_ins : ℕ
key_ins = 0xe8

abbrev pub key_del : ℕ
key_del = 0xe9

abbrev pub shift_bit : ℕ
shift_bit = 1

abbrev pub ctl_bit : ℕ
ctl_bit = 2

abbrev pub alt_bit : ℕ
alt_bit = 4

abbrev pub capslock_bit : ℕ
capslock_bit = 8

abbrev pub e0_escape : ℕ
e0_escape = 64

-- An array with the first elements `xs`, and further ones by index; the others are 0.
abbrev pub table : (xs : List ℕ) → List (ℕ × ℕ) → ℕ → ℕ
table xs [] i = get_or xs i 0
table xs ((j, e) ∷ rest) i = if i == j then e else table xs rest i

unfoldable pub shiftcode : ℕ → ℕ
shiftcode = table ([]) (
    (0x1d, ctl_bit)
    ∷ (0x2a, shift_bit)
    ∷ (0x36, shift_bit)
    ∷ (0x38, alt_bit)
    ∷ (0x9d, ctl_bit)
    ∷ (0xb8, alt_bit)
    ∷ [])

unfoldable pub togglecode : ℕ → ℕ
togglecode = table ([]) ((0x3a, capslock_bit) ∷ (0x45, 16) ∷ (0x46, 32) ∷ [])

unfoldable pub normalmap : ℕ → ℕ
normalmap =
    table
      (no_key ∷ 0x1b ∷ b'1' ∷ b'2' ∷ b'3' ∷ b'4' ∷ b'5' ∷ b'6' ∷ b'7' ∷ b'8' ∷ b'9' ∷ b'0' ∷ b'-'
        ∷ b'=' ∷ 0x08 ∷ 0x09 ∷ b'q' ∷ b'w' ∷ b'e' ∷ b'r' ∷ b't' ∷ b'y' ∷ b'u' ∷ b'i' ∷ b'o' ∷ b'p'
        ∷ b'[' ∷ b']' ∷ 0x0a ∷ no_key ∷ b'a' ∷ b's' ∷ b'd' ∷ b'f' ∷ b'g' ∷ b'h' ∷ b'j' ∷ b'k' ∷ b'l'
        ∷ b';' ∷ 0x27 ∷ b'`' ∷ no_key ∷ 0x5c ∷ b'z' ∷ b'x' ∷ b'c' ∷ b'v' ∷ b'b' ∷ b'n' ∷ b'm' ∷ b','
        ∷ b'.' ∷ b'/' ∷ no_key ∷ b'*' ∷ no_key ∷ 0x20 ∷ no_key ∷ no_key ∷ no_key ∷ no_key ∷ no_key
        ∷ no_key ∷ no_key ∷ no_key ∷ no_key ∷ no_key ∷ no_key ∷ no_key ∷ no_key ∷ b'7' ∷ b'8' ∷ b'9'
        ∷ b'-' ∷ b'4' ∷ b'5' ∷ b'6' ∷ b'+' ∷ b'1' ∷ b'2' ∷ b'3' ∷ b'0' ∷ b'.' ∷ no_key ∷ no_key
        ∷ no_key ∷ no_key ∷ [])
      ((0xc7, key_home)
        ∷ (0x9c, 0x0a)
        ∷ (0xb5, b'/')
        ∷ (0xc8, key_up)
        ∷ (0xc9, key_pgup)
        ∷ (0xcb, key_lf)
        ∷ (0xcd, key_rt)
        ∷ (0xcf, key_end)
        ∷ (0xd0, key_dn)
        ∷ (0xd1, key_pgdn)
        ∷ (0xd2, key_ins)
        ∷ (0xd3, key_del)
        ∷ [])

unfoldable pub shiftmap : ℕ → ℕ
shiftmap =
    table
      (no_key ∷ 0x1b ∷ b'!' ∷ b'@' ∷ b'#' ∷ b'$' ∷ b'%' ∷ b'^' ∷ b'&' ∷ b'*' ∷ b'(' ∷ b')' ∷ b'_'
        ∷ b'+' ∷ 0x08 ∷ 0x09 ∷ b'Q' ∷ b'W' ∷ b'E' ∷ b'R' ∷ b'T' ∷ b'Y' ∷ b'U' ∷ b'I' ∷ b'O' ∷ b'P'
        ∷ b'{' ∷ b'}' ∷ 0x0a ∷ no_key ∷ b'A' ∷ b'S' ∷ b'D' ∷ b'F' ∷ b'G' ∷ b'H' ∷ b'J' ∷ b'K' ∷ b'L'
        ∷ b':' ∷ b'"' ∷ b'~' ∷ no_key ∷ b'|' ∷ b'Z' ∷ b'X' ∷ b'C' ∷ b'V' ∷ b'B' ∷ b'N' ∷ b'M' ∷ b'<'
        ∷ b'>' ∷ b'?' ∷ no_key ∷ b'*' ∷ no_key ∷ 0x20 ∷ no_key ∷ no_key ∷ no_key ∷ no_key ∷ no_key
        ∷ no_key ∷ no_key ∷ no_key ∷ no_key ∷ no_key ∷ no_key ∷ no_key ∷ no_key ∷ b'7' ∷ b'8' ∷ b'9'
        ∷ b'-' ∷ b'4' ∷ b'5' ∷ b'6' ∷ b'+' ∷ b'1' ∷ b'2' ∷ b'3' ∷ b'0' ∷ b'.' ∷ no_key ∷ no_key
        ∷ no_key ∷ no_key ∷ [])
      ((0xc7, key_home)
        ∷ (0x9c, 0x0a)
        ∷ (0xb5, b'/')
        ∷ (0xc8, key_up)
        ∷ (0xc9, key_pgup)
        ∷ (0xcb, key_lf)
        ∷ (0xcd, key_rt)
        ∷ (0xcf, key_end)
        ∷ (0xd0, key_dn)
        ∷ (0xd1, key_pgdn)
        ∷ (0xd2, key_ins)
        ∷ (0xd3, key_del)
        ∷ [])

unfoldable pub ctlmap : ℕ → ℕ
ctlmap =
    table
      (no_key ∷ no_key ∷ no_key ∷ no_key ∷ no_key ∷ no_key ∷ no_key ∷ no_key ∷ no_key ∷ no_key
        ∷ no_key ∷ no_key ∷ no_key ∷ no_key ∷ no_key ∷ no_key ∷ 0x11 ∷ 0x17 ∷ 0x5 ∷ 0x12 ∷ 0x14
        ∷ 0x19 ∷ 0x15 ∷ 0x09 ∷ 0xf ∷ 0x10 ∷ no_key ∷ no_key ∷ 0x0d ∷ no_key ∷ 0x1 ∷ 0x13 ∷ 0x4 ∷ 0x6
        ∷ 0x7 ∷ 0x08 ∷ 0x0a ∷ 0xb ∷ 0xc ∷ no_key ∷ no_key ∷ no_key ∷ no_key ∷ 0x1c ∷ 0x1a ∷ 0x18
        ∷ 0x3 ∷ 0x16 ∷ 0x2 ∷ 0xe ∷ 0x0d ∷ no_key ∷ no_key ∷ 0xef ∷ no_key ∷ no_key ∷ [])
      ((0x97, key_home)
        ∷ (0xb5, 0xef)
        ∷ (0xc8, key_up)
        ∷ (0xc9, key_pgup)
        ∷ (0xcb, key_lf)
        ∷ (0xcd, key_rt)
        ∷ (0xcf, key_end)
        ∷ (0xd0, key_dn)
        ∷ (0xd1, key_pgdn)
        ∷ (0xd2, key_ins)
        ∷ (0xd3, key_del)
        ∷ [])

-- `charcode[shift & (CTL | SHIFT)][code]`
abbrev pub charcode : (shift code : ℕ) → ℕ
charcode shift code =
    let i = bit_and shift (bit_or ctl_bit shift_bit) in
    if i == 0 then normalmap code else if i == 1 then shiftmap code else ctlmap code

-- Small and capital letters change places.
abbrev pub swap_case : ℕ → ℕ
swap_case c =
    if leb b'a' c && leb c b'z' then c - 32 else if leb b'A' c && leb c b'Z' then c + 32 else c

abbrev pub tests_bit : (shift bit : ℕ) → Bool
tests_bit shift bit = not (bit_and shift bit == 0)

-- `shift & ~bits`
abbrev pub clear_bits : (shift bits : ℕ) → ℕ
clear_bits shift bits = bit_and shift (bit_xor bits 0xffff_ffff)

-- A key goes down: its character, 0 for none, and the new shift.
abbrev pub pressed : (code shift : ℕ) → ℕ × ℕ
pressed code shift =
    let s = bit_xor (bit_or shift (shiftcode code)) (togglecode code) in
    let c = charcode s code in (if tests_bit s capslock_bit then swap_case c else c, s)

-- poll_key for the byte that port 0x60 gives, which is not 0x08: the result, and the new shift.
unfoldable pub poll_key : (code shift : ℕ) → ℕ × ℕ
poll_key code shift =
    if code == 0xe0
    then (0, bit_or shift e0_escape)
    else if tests_bit code 0x80
    then (let key = if tests_bit shift e0_escape then code else bit_and code 0x7f in
        (0, clear_bits shift (bit_or (shiftcode key) e0_escape)))
    else if tests_bit shift e0_escape
    then pressed (bit_or code 0x80) (clear_bits shift e0_escape)
    else pressed code shift
