-- ===== src/Base/Run.antt =====
-- Code that touches memory: it is done with a value, or it goes outside the allocated block.
use mathlib.Core.Path.{◌≡◌, refl}
use mathlib.Core.Logic.{◌⊎◌, inl, inr}

pub data Run {ℓ} (A : Type ℓ) : Type ℓ where
  done : A → Run A
  fault : Run A

infixl 5 ◌>>=◌
abbrev pub ◌>>=◌ {ℓ κ} : {A : Type ℓ} {B : Type κ} → Run A → (A → Run B) → Run B
done a >>= f = f a
fault >>= f = fault

-- The run goes nowhere outside its block and ends in a value that satisfies `P`.
abbrev pub Returns {ℓ κ} : {A : Type ℓ} → Run A → (A → Type κ) → Type (ℓ ⊔ κ)
Returns {A} r P = (a : A) × (r ≡ done a) × P a

-- A chain that is done was done with its first part.
pub bind-done {ℓ κ} :
    {A : Type ℓ} {B : Type κ} (r : Run A) (f : A → Run B) (b : B)
    → (r >>= f) ≡ done b
    → (a : A) × (r ≡ done a) × (f a ≡ done b)
bind-done (done a) f b e = (a, refl, e)
bind-done fault f b e = absurd cc

pub Run-cases {ℓ} : {A : Type ℓ} (r : Run A) → (r ≡ fault) ⊎ ((a : A) × (r ≡ done a))
Run-cases fault = inl refl
Run-cases (done a) = inr (a, refl)
