-- ===== src/Prelude/Results.antt =====
-- What a call of the source does: it returns, an `assert` stops the process, or the behaviour is
-- undefined. The C++ has no other way to end but the exceptions, which Deferred models itself.
use mathlib.Core.Path.{◌≡◌, refl}
use mathlib.Core.Logic.{◌⊎◌, inl, inr}

pub data Outcome {ℓ} (A : Type ℓ) : Type ℓ where
  done : A → Outcome A
  aborted : Outcome A  -- an assertion failed, std::terminate and the like
  undefined : Outcome A  -- undefined behaviour: nothing is promised from here on

infixl 5 ◌>>=◌
abbrev pub ◌>>=◌ {ℓ κ} : {A : Type ℓ} {B : Type κ} → Outcome A → (A → Outcome B) → Outcome B
done a >>= f = f a
aborted >>= f = aborted
undefined >>= f = undefined

pub >>=-eq-done {ℓ κ} :
    {A : Type ℓ} {B : Type κ} (m : Outcome A) (f : A → Outcome B) {b : B}
    → (m >>= f) ≡ done b
    → (a : A) × (m ≡ done a) × (f a ≡ done b)
>>=-eq-done (done a) f h = (a, refl, h)
>>=-eq-done aborted f h = cc
>>=-eq-done undefined f h = cc

pub Outcome-cases {ℓ} :
    {A : Type ℓ} (o : Outcome A) → ((a : A) × (o ≡ done a)) ⊎ ((o ≡ aborted) ⊎ (o ≡ undefined))
Outcome-cases (done a) = inl (a, refl)
Outcome-cases aborted = inr (inl refl)
Outcome-cases undefined = inr (inr refl)
