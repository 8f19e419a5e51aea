-- ===== src/Base/Results.antt =====
-- What a call of the program ends in: a value, an exception of the standard library, or behaviour
-- that the language leaves undefined (a read past the end of a container or of an array, a
-- dereferenced null pointer).

use mathlib.Core.Path.{◌≡◌, refl}
use mathlib.Core.Logic.{◌⊎◌, inl, inr}

pub data Exception : Type 0 where
  out_of_range invalid_argument : Exception

pub data Outcome {ℓ} (A : Type ℓ) : Type ℓ where
  ok : A → Outcome A
  throws : Exception → Outcome A
  undefined : Outcome A

-- The rest of a computation runs on a value only.
infixl 5 ◌>>=◌
abbrev pub ◌>>=◌ {ℓ κ} : {A : Type ℓ} {B : Type κ} → Outcome A → (A → Outcome B) → Outcome B
undefined >>= rest = undefined
throws thrown >>= rest = throws thrown
ok value >>= rest = rest value

-- Where the whole gives a value, so did its first part.
pub ok_of_bind {ℓ κ} :
    {A : Type ℓ} {B : Type κ} {end : B} (first : Outcome A) (rest : A → Outcome B)
    → (first >>= rest) ≡ ok end
    → (value : A) × (first ≡ ok value) × (rest value ≡ ok end)
ok_of_bind undefined rest e = cc
ok_of_bind (throws thrown) rest e = cc
ok_of_bind (ok value) rest e = (value, refl, e)

-- What holds of the value of one equal outcome holds of that of the other.
pub of_ok {ℓ κ} : {A : Type ℓ} (P : A → Type κ) {a b : A} → ok a ≡ ok b → P a → P b
of_ok P {a} {b} e p = let same_value : a ≡ b = cc e in rw (← same_value) p

pub Outcome-cases {ℓ} :
    {A : Type ℓ} (o : Outcome A)
    → ((a : A) × (o ≡ ok a)) ⊎ ((x : Exception) × (o ≡ throws x)) ⊎ (o ≡ undefined)
Outcome-cases (ok a) = inl (a, refl)
Outcome-cases (throws x) = inr (inl (x, refl))
Outcome-cases undefined = inr (inr refl)
