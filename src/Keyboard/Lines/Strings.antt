-- ===== src/Keyboard/Lines/Strings.antt =====
-- Strings in arrays of characters: the text that is typed so far, and its copy in the history.
use mathlib.Core.Path.{subst}
use sebopesyslab.Base.{
  ℕ, zero, suc, ◌+◌, ◌-◌, ◌≤◌, ◌<◌, ◌≡◌, ◌≢◌, refl, sym, ap, ◌∙◌, arith, List, [], ◌∷◌, length,
  Option, none, some, eq→==, ne→==_false,
}
use sebopesyslab.Kernel.{update}
use sebopesyslab.Keyboard.Lines.{string_at, put_string}

-- `r`, the last character first, before `acc`
abbrev pub reverse_onto : List ℕ → List ℕ → List ℕ
reverse_onto [] acc = acc
reverse_onto (c ∷ r) acc = reverse_onto r (c ∷ acc)

abbrev pub reverse : List ℕ → List ℕ
reverse r = reverse_onto r []

abbrev pub IsText : List ℕ → Type 0
IsText [] = Unit {0}
IsText (c ∷ cs) = (c ≢ 0) × IsText cs

-- The array starts with `r`, the last character first.
abbrev pub Holds : (ℕ → ℕ) → List ℕ → Type 0
Holds mem [] = Unit {0}
Holds mem (c ∷ r) = (mem (length r) ≡ c) × Holds mem r

abbrev before : List ℕ → Option (List ℕ) → Option (List ℕ)
before r none = none
before r (some cs) = some (reverse_onto r cs)

elim_before :
    (c : ℕ) (o : Option (List ℕ))
    → elim o [ none ↦ none | some cs ↦ some (c ∷ cs) ] ≡ before (c ∷ []) o
elim_before c none = refl
elim_before c (some cs) = refl

string_at-step :
    (n : ℕ) (mem : ℕ → ℕ) (i c : ℕ)
    → mem i ≡ c
    → c ≢ 0
    → string_at (suc n) mem i ≡ before (c ∷ []) (string_at n mem (i + 1))
unfolding string_at
string_at-step n mem i c e =
    subst (λ x. x ≢ 0 → string_at (suc n) mem i ≡ before (x ∷ []) (string_at n mem (i + 1))) e
      (λ o. rw (ne→==_false (mem i) 0 o) (elim_before (mem i) (string_at n mem (i + 1))))

before_none : (o : Option (List ℕ)) → before [] o ≡ o
before_none none = refl
before_none (some cs) = refl

next : (n : ℕ) → n + 1 ≡ suc n
next n = omega arith

before-step :
    (c : ℕ) (r : List ℕ) (o : Option (List ℕ)) → before r (before (c ∷ []) o) ≡ before (c ∷ r) o
before-step c r none = refl
before-step c r (some cs) = refl

string_at-Holds :
    (r : List ℕ) (n : ℕ) (mem : ℕ → ℕ)
    → Holds mem r
    → IsText r
    → string_at (length r + n) mem 0 ≡ before r (string_at n mem (length r))
string_at-Holds [] n mem h t =
    let same : 0 + n ≡ n = omega arith in
    ap (λ k. string_at k mem 0) same ∙ sym (before_none (string_at n mem 0))
string_at-Holds (c ∷ r) n mem h t =
    let same : suc (length r) + n ≡ length r + suc n = omega arith in
    ap (λ k. string_at k mem 0) same
    ∙ string_at-Holds r (suc n) mem h.1 t.1
    ∙ ap (before r) (string_at-step n mem (length r) c h.0 t.0)
    ∙ before-step c r (string_at n mem (length r + 1))
    ∙ ap (λ k. before (c ∷ r) (string_at n mem k)) (next (length r))

string_at-end : (n : ℕ) (mem : ℕ → ℕ) (i : ℕ) → mem i ≡ 0 → string_at (suc n) mem i ≡ some []
unfolding string_at
string_at-end n mem i z = rw z refl

-- The text, when a 0 is behind it.
pub string_at-reverse :
    (r : List ℕ) (n : ℕ) (mem : ℕ → ℕ)
    → Holds mem r
    → IsText r
    → mem (length r) ≡ 0
    → length r < n
    → string_at n mem 0 ≡ some (reverse r)
string_at-reverse r n mem h t z b =
    let rest = n - suc (length r) in
    let all : n ≡ length r + suc rest = omega (arith, b) in
    ap (λ k. string_at k mem 0) all
    ∙ string_at-Holds r (suc rest) mem h t
    ∙ ap (before r) (string_at-end rest mem (length r) z)

pub Holds-update :
    (r : List ℕ) (n c : ℕ) (mem : ℕ → ℕ) → length r ≤ n → Holds mem r → Holds (update mem n c) r
Holds-update [] n c mem b h = tt
Holds-update (x ∷ r) n c mem b h = (
  rw (ne→==_false (length r) n (omega (arith, b))) h.0,
  Holds-update r n c mem (omega (arith, b)) h.1,
)

put_string-below : (cs : List ℕ) (i k : ℕ) (mem : ℕ → ℕ) → k < i → put_string i cs mem k ≡ mem k
unfolding put_string
put_string-below [] i k mem b = rw (ne→==_false k i (omega (arith, b))) refl
put_string-below (c ∷ cs) i k mem b =
    put_string-below cs (i + 1) k (update mem i c) (omega (arith, b))
    ∙ rw (ne→==_false k i (omega (arith, b))) refl

pub string_at-put_string :
    (cs : List ℕ) (i n : ℕ) (mem : ℕ → ℕ)
    → IsText cs
    → length cs < n
    → string_at n (put_string i cs mem) i ≡ some cs
unfolding put_string string_at
string_at-put_string cs i zero mem t b = absurd (omega (arith, b))
string_at-put_string [] i (suc n) mem t b = rw (eq→== i i refl) refl
string_at-put_string (c ∷ cs) i (suc n) mem t b =
    let there : put_string (i + 1) cs (update mem i c) i ≡ c =
      put_string-below cs (i + 1) i (update mem i c) (omega arith) ∙ rw (eq→== i i refl) refl in
    string_at-step n (put_string (i + 1) cs (update mem i c)) i c there t.0
    ∙ ap (before (c ∷ []))
        (string_at-put_string cs (i + 1) n (update mem i c) t.1 (omega (arith, b)))

pub IsText-reverse_onto : (r acc : List ℕ) → IsText r → IsText acc → IsText (reverse_onto r acc)
IsText-reverse_onto [] acc t u = u
IsText-reverse_onto (c ∷ r) acc t u = IsText-reverse_onto r (c ∷ acc) t.1 (t.0, u)

pub length-reverse_onto : (r acc : List ℕ) → length (reverse_onto r acc) ≡ length r + length acc
length-reverse_onto [] acc = omega arith
length-reverse_onto (c ∷ r) acc = omega (arith, length-reverse_onto r (c ∷ acc))
