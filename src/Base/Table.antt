-- ===== src/Base/Table.antt =====
-- Arrays whose places no index can leave, as functions of the index.
use Prim.Native.Nat.{ℕ}
use mathlib.Core.Path.{◌≡◌, refl}
use mathlib.Core.Bool.{false}
use gearkit.Base.Tests.{◌==◌, if◌then◌else◌, eq_refl}

unfoldable pub put {ℓ} : {A : Type ℓ} → ℕ → A → (ℕ → A) → ℕ → A
put i v f k = if k == i then v else f k

pub put_self {ℓ} : {A : Type ℓ} (i : ℕ) (v : A) (f : ℕ → A) → put i v f i ≡ v
unfolding put
put_self i v f = rw (put, eq_refl i) refl

pub put_other {ℓ} :
    {A : Type ℓ} (i : ℕ) (v : A) (f : ℕ → A) (k : ℕ) → (k == i) ≡ false → put i v f k ≡ f k
unfolding put
put_other i v f k e = rw (put, e) refl
