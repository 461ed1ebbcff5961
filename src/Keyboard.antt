-- ===== src/Keyboard.antt =====
-- The keys of kernel/src/keyboard.c that are held down: press_key, get_key, get_lastkey, ctrl_c.
pub mod Held
pub mod Codes
pub mod Lines
use sebopesyslab.Base.{
  ℕ, ◌+◌, ◌-◌, ◌%◌, ◌^◌, Bool, not, ◌&&◌, ◌==◌, if◌then◌else◌, List, [], ◌∷◌, get_or, bit_and,
  sub32, u8,
}
use sebopesyslab.Base.Search.{first_from}
use sebopesyslab.Kernel.{update}

abbrev letters : List ℕ
letters =
    30 ∷ 48 ∷ 46 ∷ 32 ∷ 18 ∷ 33 ∷ 34 ∷ 35 ∷ 23 ∷ 36 ∷ 37 ∷ 38 ∷ 50 ∷ 49 ∷ 24 ∷ 25 ∷ 16 ∷ 19 ∷ 31
    ∷ 20 ∷ 22 ∷ 47 ∷ 17 ∷ 45 ∷ 21 ∷ 44 ∷ []

-- The scan code of the letter number `i`.
abbrev pub letter : ℕ → ℕ
letter i = get_or letters i 0

pub record Keys : Type 0 where
  pub keydown : ℕ → ℕ
  pub lastkey : ℕ
  pub ctrl : ℕ

-- `for(;i<26;i++) if(letter[i]==code)`
unfoldable pub find_letter : ℕ → ℕ
find_letter code = first_from 26 0 (λ i. letter i == code)

-- The key with that scan code goes down, or up.
abbrev pub key_down : ℕ → Keys → Keys
key_down code k =
    let i = find_letter code in
    let c = if code == 0x1d then 1 else k.ctrl in
    if i == 26
    then record k { ctrl = c }
    else record { keydown = update k.keydown i 1; lastkey = i; ctrl = c }

abbrev pub key_up : ℕ → Keys → Keys
key_up code k =
    let i = find_letter code in
    let c = if code == 0x1d then 0 else k.ctrl in
    if i == 26 then record k { ctrl = c } else record k { keydown = update k.keydown i 0; ctrl = c }

pub press_key : ℕ → Keys → Keys
press_key code k = if bit_and code 0x80 == 0 then key_down code k else key_up (bit_and code 0x7f) k

abbrev pub get_key : ℕ → Keys → ℕ
get_key s k = k.keydown (s - 97)

abbrev pub get_lastkey : Keys → ℕ
get_lastkey k = u8 (k.lastkey + 97)

-- The result, and the state that is left.
pub ctrl_c : Keys → ℕ × Keys
ctrl_c k =
    if not (k.ctrl == 0) && not (k.keydown 2 == 0)
    then (1, record k { ctrl = 0; keydown = update k.keydown 2 0 })
    else (0, k)
