-- ===== src/Tests/Keys.antt =====
-- The theorem on held keys at a concrete sequence of scan codes.
use sebopesyslab.Base.{◌≡◌, [], ◌∷◌, arith}
use sebopesyslab.Keyboard.{Keys}
use sebopesyslab.Keyboard.Held.{press_all, held, press_all-held}

abbrev no_keys : Keys
no_keys = record { keydown = λ i. 0; lastkey = 0; ctrl = 0 }

-- 'a' and 'b' go down, 'a' goes up, and down again.
press_all-held_example :
    (press_all (30 ∷ 48 ∷ 158 ∷ 30 ∷ []) no_keys).keydown 0 ≡ held 0 (30 ∷ 48 ∷ 158 ∷ 30 ∷ []) 0
press_all-held_example =
    press_all-held 0 (omega arith) (30 ∷ 48 ∷ 158 ∷ 30 ∷ []) no_keys
      (omega arith, (omega arith, (omega arith, (omega arith, tt))))
