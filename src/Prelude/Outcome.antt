-- ===== src/Prelude/Outcome.antt =====
-- What a piece of the program comes to. `fault` is an access out of bounds, which C++ leaves
-- undefined; `stuck` is no behaviour of the program: a loop of the model used up its fuel.
use mathlib.Core.Path.{◌≡◌, refl}
use mathlib.Core.Logic.{◌⊎◌, inl, inr}

pub data Run {ℓ} (A : Type ℓ) : Type ℓ where
  done : A → Run A
  fault : Run A
  stuck : Run A

infixl 5 ◌>>=◌
abbrev pub ◌>>=◌ {ℓ κ} : {A : Type ℓ} {B : Type κ} → Run A → (A → Run B) → Run B
done a >>= f = f a
fault >>= f = fault
stuck >>= f = stuck

-- A run that ends in `done` had its first part end so.
pub >>=-eq-done {ℓ κ} :
    {A : Type ℓ} {B : Type κ} (m : Run A) (f : A → Run B) {b : B}
    → (m >>= f) ≡ done b
    → (a : A) × (m ≡ done a) × (f a ≡ done b)
>>=-eq-done (done a) f h = (a, refl, h)
>>=-eq-done fault f h = cc
>>=-eq-done stuck f h = cc

pub Run-cases {ℓ} :
    {A : Type ℓ} (m : Run A) → ((a : A) × (m ≡ done a)) ⊎ ((m ≡ fault) ⊎ (m ≡ stuck))
Run-cases (done a) = inl (a, refl)
Run-cases fault = inr (inl refl)
Run-cases stuck = inr (inr refl)
