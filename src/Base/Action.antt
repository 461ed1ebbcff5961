-- ===== src/Base/Action.antt =====
-- Commands over a state: a run ends with a result, or at an access that the hardware refuses.

pub data Outcome (S A : Type 0) : Type 0 where
  ok : A → S → Outcome S A
  fault : Outcome S A

abbrev pub Action : Type 0 → Type 0 → Type 0
Action S A = S → Outcome S A

module _ {S : Type 0} where
  abbrev pub pure : {A : Type 0} → A → Action S A
  pure a s = ok a s

  abbrev pub get : Action S S
  get s = ok s s

  abbrev pub modify : (S → S) → Action S (Unit {0})
  modify f s = ok tt (f s)

  abbrev pub refuse : {A : Type 0} → Action S A
  refuse s = fault

module _ {S A B : Type 0} where
  abbrev pub and_then : Outcome S A → (A → Action S B) → Outcome S B
  and_then (ok a s) f = f a s
  and_then fault f = fault

  infixl 5 ◌>>=◌ ◌>>◌
  abbrev pub ◌>>=◌ : Action S A → (A → Action S B) → Action S B
  m >>= f = λ s. and_then (m s) f

  abbrev pub ◌>>◌ : Action S A → Action S B → Action S B
  m >> n = m >>= λ _. n
