-- ===== src/Base/Codes.antt =====
-- include/public/ingenialink/err.h: the negative return codes of the library, and the outcome of a
-- call, a value or a code.
use mathlib.Core.Logic.{◌⊎◌, inl, inr}
use mathlib.Core.Path.{◌≡◌, refl}

-- The `IL_E*` codes, each standing for its negative number.
pub data Error : Type 0 where
  efail einval etimedout enomem ealready edisconn eaccess : Error
  estate eio enotsup ewrongreg ewrongcrc enack regnotfound : Error

-- `ok` is a return of 0 or more.
pub data Result {ℓ} (A : Type ℓ) : Type ℓ where
  ok : A → Result A
  err : Error → Result A

infixl 5 ◌>>=◌ ◌>>◌
abbrev pub ◌>>=◌ {ℓ κ} : {A : Type ℓ} {B : Type κ} → Result A → (A → Result B) → Result B
ok a >>= f = f a
err e >>= f = err e

abbrev pub ◌>>◌ {ℓ κ} : {A : Type ℓ} {B : Type κ} → Result A → Result B → Result B
m >> k = m >>= λ _. k

pub Result-cases {ℓ} :
    {A : Type ℓ} (r : Result A) → ((a : A) × (r ≡ ok a)) ⊎ ((e : Error) × (r ≡ err e))
Result-cases (ok a) = inl (a, refl)
Result-cases (err e) = inr (e, refl)
