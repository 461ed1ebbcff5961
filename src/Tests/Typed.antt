-- ===== src/Tests/Typed.antt =====
-- The theorems on scan codes and readline at concrete keys, and a line that is typed.
use sebopesyslab.Base.{◌≡◌, refl, arith, List, [], ◌∷◌, ◌++◌}
use sebopesyslab.Keyboard.Codes.Letters.{Extended, poll_key-Extended}
use sebopesyslab.Keyboard.Lines.{Console}
use sebopesyslab.Keyboard.Lines.Strings.{reverse}
use sebopesyslab.Keyboard.Lines.Keys.{Key, character, backspace, codes, edit}
use sebopesyslab.Keyboard.Lines.Editing.{Returns, readline-Enters}

poll_key-Extended_example : Extended 9 2
poll_key-Extended_example = poll_key-Extended 9 2 (omega arith) (omega arith)

abbrev blank : Console
blank = record { shift = 0; buf = λ i. 0; history = λ i. 0; history_id = 3; printed = [] }

abbrev some_keys : List Key
some_keys = character 0 ∷ character 1 ∷ backspace ∷ character 2 ∷ []

readline-Enters_example :
    Returns 0
      (reverse (edit 0 some_keys []))
      (b'$' ∷ [])
      (codes some_keys ++ (0x1c ∷ 0x9c ∷ []))
      (0x9c ∷ [])
      blank
readline-Enters_example =
    readline-Enters (b'$' ∷ []) some_keys 0 (0x9c ∷ []) blank
      (omega arith, (omega arith, (omega arith, tt))) (omega arith, refl) refl (omega arith)
      (omega arith)

typed : reverse (edit 0 some_keys []) ≡ b'a' ∷ b'c' ∷ []
typed = refl
