-- ===== src/Base/Outcome.antt =====
-- What a kernel routine does: it returns a value, or it calls panic() and never returns.
use mathlib.Core.Path.{◌≡◌, refl}

pub data Outcome {ℓ} (A : Type ℓ) : Type ℓ where
  ret : A → Outcome A
  panic : Outcome A

infixl 5 ◌>>=◌
abbrev pub ◌>>=◌ {ℓ κ} : {B : Type κ} {A : Type ℓ} → Outcome A → (A → Outcome B) → Outcome B
ret a >>= f = f a
panic >>= f = panic

-- Inversion of a bind that returns.
pub >>=-eq-ret {ℓ κ} :
    {A : Type ℓ} {B : Type κ} (m : Outcome A) (f : A → Outcome B) {b : B}
    → (m >>= f) ≡ ret b
    → (a : A) × (m ≡ ret a) × (f a ≡ ret b)
>>=-eq-ret (ret a) f h = (a, refl, h)
>>=-eq-ret panic f h = cc
