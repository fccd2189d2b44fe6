-- ===== src/Base/Errors.antt =====
-- Go errors as values, and results of fallible functions.
use if_sos_beacon.Base.Texts.{Text}
use mathlib.Core.Path.{◌≡◌, refl}
use mathlib.Core.Logic.{◌⊎◌, inl, inr}

-- `wrap` is fmt.Errorf with %w: the text in front, and the error behind it. `detail` has the text behind
-- the error.
pub data Error : Type 0 where
  message : Text → Error
  wrap : Text → Error → Error
  detail : Error → Text → Error

-- The error that a chain of %w ends in.
unfoldable pub root_cause : Error → Error
root_cause (message t) = message t
root_cause (wrap t e) = root_cause e
root_cause (detail e t) = root_cause e

pub data Result {ℓ} (A : Type ℓ) : Type ℓ where
  ok : A → Result A
  err : Error → Result A

infixl 5 ◌>>=◌
abbrev pub ◌>>=◌ {ℓ κ} : {A : Type ℓ} {B : Type κ} → Result A → (A → Result B) → Result B
ok a >>= f = f a
err e >>= f = err e

pub Result-cases {ℓ} :
    {A : Type ℓ} (r : Result A) → ((a : A) × (r ≡ ok a)) ⊎ ((e : Error) × (r ≡ err e))
Result-cases (ok a) = inl (a, refl)
Result-cases (err e) = inr (e, refl)
