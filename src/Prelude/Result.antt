-- ===== src/Prelude/Result.antt =====
-- Code that may raise: a result, and for methods of an object a result beside the object's state.
-- What was written before an exception stays written.
use mathlib.Core.Path.{◌≡◌, refl}
use mathlib.Core.Logic.{◌⊎◌, inl, inr}
use mathlib.Core.Bool.{Bool, true, false}

pub data Result {ℓ κ} (E : Type ℓ) (A : Type κ) : Type (ℓ ⊔ κ) where
  ok : A → Result E A
  err : E → Result E A

-- A method over the state `S`.
abbrev pub Exec : Type 0 → Type 0 → Type 0 → Type 0
Exec S E A = S → Result E A × S

module _ {S E A B : Type 0} where
  -- What follows a call that has come back.
  abbrev pub after : Result E A → S → (A → Exec S E B) → Result E B × S
  after (ok a) s f = f a s
  after (err e) s f = (err e, s)

-- The exceptions that `unless`-style guards raise: `if c: raise e`.
abbrev pub raise_if {ℓ κ} : {E : Type ℓ} {A : Type κ} → Bool → E → Result E A → Result E A
raise_if true e rest = err e
raise_if false e rest = rest

pub Result-cases {ℓ κ} :
    {E : Type ℓ} {A : Type κ} (r : Result E A) → ((a : A) × (r ≡ ok a)) ⊎ ((e : E) × (r ≡ err e))
Result-cases (ok a) = inl (a, refl)
Result-cases (err e) = inr (e, refl)

-- What holds of the value of a result, or of its exception.
pub data Judged {E A : Type 0} (P : A → Type 0) (N : E → Type 0) : Result E A → Type 0 where
  passed : (a : A) → P a → Judged P N (ok a)
  failed : (e : E) → N e → Judged P N (err e)

module _ {E A : Type 0} {P : A → Type 0} {N : E → Type 0} where
  -- A guard: its exception is judged where the test holds, and what follows it where not.
  pub raise_if-Judged :
      (c : Bool) (e : E) (rest : Result E A)
      → (c ≡ true → N e)
      → (c ≡ false → Judged P N rest)
      → Judged P N (raise_if c e rest)
  raise_if-Judged true e rest bad good = failed e (bad refl)
  raise_if-Judged false e rest bad good = good refl
