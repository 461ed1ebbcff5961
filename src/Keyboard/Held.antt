-- ===== src/Keyboard/Held.antt =====
-- After any sequence of scan codes, a letter is down if and only if the last code of its key was a press.
use mathlib.Core.Path.{subst}
use sebopesyslab.Base.{
  ℕ, ◌%◌, ◌<◌, ◌≡◌, refl, sym, ap, ◌∙◌, Bool, true, false, not, ◌&&◌, arith, ltb, ◌==◌,
  if◌then◌else◌, List, [], ◌∷◌, bit_and, ltb→lt, Bool-cases, inl, inr, ==→eq, eq→==, ne→==_false,
}
use sebopesyslab.Base.Finite.{all_below, below_of_all}
use sebopesyslab.Base.Search.{first_from}
use sebopesyslab.Kernel.{update}
use sebopesyslab.Keyboard.{letter, find_letter, Keys, key_down, key_up, press_key}

abbrev pub press_all : List ℕ → Keys → Keys
press_all [] k = k
press_all (c ∷ cs) k = press_all cs (press_key c k)

-- Letter `i` after these codes, when it was `d` before: a code below 128 is a press of the key with that
-- code, one from 128 on the release of the key with the code 128 less.
abbrev pub held : (i : ℕ) → List ℕ → (d : ℕ) → ℕ
held i [] d = d
held i (c ∷ cs) d = held i cs (if c % 128 == letter i then (if ltb c 128 then 1 else 0) else d)

abbrev pub AllBytes : List ℕ → Type 0
AllBytes [] = Unit
AllBytes (c ∷ cs) = (c < 256) × AllBytes cs

-- The bytes, split as press_key splits them, and the table, searched as it searches it.
abbrev byte_parts : ℕ → Bool
byte_parts c =
    if ltb c 128
    then bit_and c 0x80 == 0
    else not (bit_and c 0x80 == 0) && (bit_and c 0x7f == c % 128)

abbrev found_only : ℕ → ℕ → Bool
found_only i code = if code == letter i then find_letter code == i else not (find_letter code == i)

bytes_parted : all_below 256 byte_parts ≡ true
unfolding all_below
bytes_parted = refl

letters_found : all_below 26 (λ i. all_below 128 (found_only i)) ≡ true
unfolding all_below find_letter first_from
letters_found = refl

if_of : (x y b : Bool) → (if b then x else y) ≡ true → b ≡ true → x ≡ true
if_of x y b h e = subst (λ z. (if z then x else y) ≡ true) e h

if_not_of : (x y b : Bool) → (if b then x else y) ≡ true → b ≡ false → y ≡ true
if_not_of x y b h e = subst (λ z. (if z then x else y) ≡ true) e h

negated : {a : Bool} → not a ≡ true → a ≡ false
negated {a} e = ground (arith, e)

module _ (i : ℕ) (b : i < 26) (code : ℕ) (low : code < 128) where
  found : found_only i code ≡ true
  found =
      below_of_all 128 (found_only i)
        (below_of_all 26 (λ i. all_below 128 (found_only i)) letters_found i b) code low

  -- Both branches of press_key change the key with that code and no other.
  changed :
      (v l c : ℕ) (k : Keys)
      → (if find_letter code == 26 then record k { ctrl = c } else record {
        keydown = update k.keydown (find_letter code) v;
        lastkey = l;
        ctrl = c;
      }).keydown
          i
        ≡ (if code == letter i then v else k.keydown i)
  changed v l c k =
      let j = find_letter code in
      let other : Keys = record { keydown = update k.keydown j v; lastkey = l; ctrl = c } in
      elim (Bool-cases (code == letter i)) [
        | inl y ↦
            let e : j ≡ i = ==→eq j i (
              if_of (find_letter code == i) (not (find_letter code == i)) (code == letter i) found
                y) in
            subst
              (λ z.
                (if z then record k { ctrl = c } else other).keydown i
                ≡ (if code == letter i then v else k.keydown i))
              (sym (ne→==_false j 26 (omega (arith, e, b))))
              (ap (λ z. if z then v else k.keydown i) (eq→== i j (sym e))
                ∙ sym (ap (λ z. if z then v else k.keydown i) y))
        | inr n ↦
            let ne : (j == i) ≡ false = negated (
              if_not_of (find_letter code == i) (not (find_letter code == i)) (code == letter i)
                found n) in
            elim (Bool-cases (j == 26)) [
              | inl y ↦
                  subst
                    (λ z.
                      (if z then record k { ctrl = c } else other).keydown i
                      ≡ (if code == letter i then v else k.keydown i))
                    (sym y) (sym (ap (λ z. if z then v else k.keydown i) n))
              | inr o ↦
                  subst
                    (λ z.
                      (if z then record k { ctrl = c } else other).keydown i
                      ≡ (if code == letter i then v else k.keydown i))
                    (sym o)
                    (ap (λ z. if z then v else k.keydown i)
                        (ne→==_false i j (λ e. ground (arith, e, ne)))
                      ∙ sym (ap (λ z. if z then v else k.keydown i) n))
            ]
      ]

module _ (i : ℕ) (b : i < 26) where
  press_key-keydown :
      (c : ℕ) (k : Keys)
      → c < 256
      → (press_key c k).keydown i
        ≡ (if c % 128 == letter i then (if ltb c 128 then 1 else 0) else k.keydown i)
  unfolding press_key
  press_key-keydown c k byte =
      let parts = below_of_all 256 byte_parts bytes_parted c byte in
      elim (Bool-cases (ltb c 128)) [
        | inl y ↦
            let low = ltb→lt c 128 y in
            let press : (bit_and c 0x80 == 0) ≡ true =
              if_of _ (not (bit_and c 0x80 == 0) && (bit_and c 0x7f == c % 128)) (ltb c 128) parts
                y in
            ap (λ z. (if z then key_down c k else key_up (bit_and c 0x7f) k).keydown i) press
            ∙ changed i b c low 1 (find_letter c) (if c == 0x1d then 1 else k.ctrl) k
            ∙ ap (λ m. if m == letter i then 1 else k.keydown i) {x = c} {y = c % 128}
                (omega (arith, low))
            ∙ ap (λ z. if c % 128 == letter i then (if z then 1 else 0) else k.keydown i) (sym y)
        | inr n ↦
            let both : (not (bit_and c 0x80 == 0) && (bit_and c 0x7f == c % 128)) ≡ true =
              if_not_of (bit_and c 0x80 == 0) _ (ltb c 128) parts n in
            let release : (bit_and c 0x80 == 0) ≡ false = ground (arith, both) in
            let rest : bit_and c 0x7f ≡ c % 128 = ==→eq _ _ (ground (arith, both)) in
            ap (λ z. (if z then key_down c k else key_up (bit_and c 0x7f) k).keydown i) release
            ∙ ap (λ m. (key_up m k).keydown i) rest
            ∙ changed i b (c % 128) (omega arith) 0 k.lastkey
                (if c % 128 == 0x1d then 0 else k.ctrl) k
            ∙ ap (λ z. if c % 128 == letter i then (if z then 1 else 0) else k.keydown i) (sym n)
      ]

  -- For each of the 26 letters and any sequence of scan codes below 256, keydown of the letter
  -- after press_key of them all is decided by the last code of its key: 1 for a press, 0 for a
  -- release, the old value when there is none.
  pub press_all-held :
      (cs : List ℕ) (k : Keys) → AllBytes cs → (press_all cs k).keydown i ≡ held i cs (k.keydown i)
  press_all-held [] k h = refl
  press_all-held (c ∷ cs) k h =
      press_all-held cs (press_key c k) h.1 ∙ ap (held i cs) (press_key-keydown c k h.0)
