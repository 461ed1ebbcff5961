-- ===== src/FileSystem/Copying.antt =====
-- Copies of stretches of bytes.
use mathlib.Core.Path.{subst}
use sebopesyslab.Base.{
  ℕ, ◌+◌, ◌-◌, ◌<◌, ◌≤◌, ◌≡◌, ◌⊎◌, refl, sym, ap, ◌∙◌, Bool, true, false, ◌&&◌, arith, ltb, leb,
  if◌then◌else◌, lt→ltb, le→leb, le→ltb_false, lt→leb_false, Bool-cases, inl, inr,
}
use sebopesyslab.FileSystem.{Bytes, copy}

-- The same bytes are copied.
pub copy_ext :
    (n : ℕ) (to : Bytes) (p : ℕ) (f g : Bytes) (i j a : ℕ)
    → ((x : ℕ) → x < n → f (i + x) ≡ g (j + x))
    → copy n to p f i a ≡ copy n to p g j a
copy_ext n to p f g i j a same = elim (Bool-cases (leb p a && ltb a (p + n))) [
  | inl y ↦
      subst (λ z. (if z then f (i + (a - p)) else to a) ≡ (if z then g (j + (a - p)) else to a))
        (sym y) (same (a - p) (ground (arith, y)))
  | inr o ↦
      subst (λ z. (if z then f (i + (a - p)) else to a) ≡ (if z then g (j + (a - p)) else to a))
        (sym o) refl
]

module _ (n : ℕ) (to : Bytes) (p : ℕ) (f : Bytes) (i a : ℕ) where
  pub copy_inside : p ≤ a → a < p + n → copy n to p f i a ≡ f (i + (a - p))
  copy_inside h h' = rw (le→leb p a h, lt→ltb a (p + n) h')

  pub copy_before : a < p → copy n to p f i a ≡ to a
  copy_before h = rw (lt→leb_false p a h)

  pub copy_behind : p + n ≤ a → copy n to p f i a ≡ to a
  copy_behind h =
      subst (λ z. (if leb p a && z then f (i + (a - p)) else to a) ≡ to a)
        (sym (le→ltb_false a (p + n) h))
        (subst (λ z. (if z && false then f (i + (a - p)) else to a) ≡ to a)
          (sym (le→leb p a (omega (arith, h)))) refl)

-- Where a byte stands: before a stretch, in it, or behind it.
pub stretch-cases : (p n a : ℕ) → (a < p) ⊎ (((p ≤ a) × (a < p + n)) ⊎ (p + n ≤ a))
stretch-cases p n a = elim (Bool-cases (ltb a p)) [
  | inl y ↦ inl (ground (arith, y))
  | inr o ↦ elim (Bool-cases (ltb a (p + n))) [
    | inl y ↦ inr (inl (ground (arith, o), ground (arith, y)))
    | inr o' ↦ inr (inr (ground (arith, o')))
  ]
]

-- One copy behind another is one copy.
pub copy-append :
    (n m : ℕ) (to mid : Bytes) (p : ℕ) (f : Bytes) (i a : ℕ)
    → mid a ≡ copy n to p f i a
    → copy m mid (p + n) f (i + n) a ≡ copy (n + m) to p f i a
copy-append n m to mid p f i a e = elim (stretch-cases p n a) [
  | inl before ↦
      copy_before m mid (p + n) f (i + n) a (omega (arith, before))
      ∙ e
      ∙ copy_before n to p f i a before
      ∙ sym (copy_before (n + m) to p f i a before)
  | inr (inl (from, to_end)) ↦
      copy_before m mid (p + n) f (i + n) a to_end
      ∙ e
      ∙ copy_inside n to p f i a from to_end
      ∙ sym (copy_inside (n + m) to p f i a from (omega (arith, to_end)))
  | inr (inr behind) ↦ elim (stretch-cases (p + n) m a) [
    | inl before ↦ absurd (omega (arith, before, behind))
    | inr (inl (from, to_end)) ↦
        copy_inside m mid (p + n) f (i + n) a from to_end
        ∙ ap f (omega (arith, from))
        ∙ sym (copy_inside (n + m) to p f i a (omega (arith, from)) (omega (arith, to_end)))
    | inr (inr far) ↦
        copy_behind m mid (p + n) f (i + n) a far
        ∙ e
        ∙ copy_behind n to p f i a behind
        ∙ sym (copy_behind (n + m) to p f i a (omega (arith, far)))
  ]
]

-- A copy over the same byte.
pub copy_to_ext :
    (n : ℕ) (to to' : Bytes) (p : ℕ) (f : Bytes) (i a : ℕ)
    → to a ≡ to' a
    → copy n to p f i a ≡ copy n to' p f i a
copy_to_ext n to to' p f i a e = ap (λ z. if leb p a && ltb a (p + n) then f (i + (a - p)) else z) e

-- The same copy again.
pub copy_twice :
    (n : ℕ) (to : Bytes) (p : ℕ) (f : Bytes) (i a : ℕ)
    → copy n (copy n to p f i) p f i a ≡ copy n to p f i a
copy_twice n to p f i a = by_case (leb p a && ltb a (p + n))
  where
    by_case :
        (b : Bool)
        → ◌≡◌ {A = ℕ}
            (if b then f (i + (a - p)) else (if b then f (i + (a - p)) else to a))
            (if b then f (i + (a - p)) else to a)
    by_case true = refl
    by_case false = refl
