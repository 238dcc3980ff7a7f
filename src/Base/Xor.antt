-- ===== src/Base/Xor.antt =====
-- Exclusive or with no bit or with all of them.
use Prim.Native.Nat.{
  ℕ, zero, suc, ◌+◌, ◌-◌, ◌*◌, ◌/◌, ◌%◌, ◌^◌, ◌<◌, differ, bit_xor, bit_xor-bitwise,
}
use mathlib.Core.Path.{◌≡◌, refl, ap}
use native.Mathlib.Nat.{pow-suc}
use native.Mathlib.Omega.{arith}
use gearkit.Base.Bits.{same_digits}

xor_digit : (a b : ℕ) → bit_xor a b ≡ bit_xor (a / 2) (b / 2) * 2 + differ (a % 2) (b % 2)
xor_digit zero b = omega (arith, bit_xor-bitwise 0 b, bit_xor-bitwise 0 (b / 2))
xor_digit (suc a) b = omega (
  arith,
  bit_xor-bitwise (suc a) b,
  bit_xor-bitwise (suc a / 2) (b / 2),
  same_digits (λ n. n) differ (suc a / 2) (b / 2) a (suc a / 2) (omega arith) (omega arith),
)

differ_zero : (x : ℕ) → differ x 0 ≡ x
differ_zero zero = refl
differ_zero (suc x) = refl

differ_one : (x : ℕ) → x < 2 → differ x 1 ≡ 1 - x
differ_one zero h = refl
differ_one (suc zero) h = refl
differ_one (suc (suc x)) h = absurd (omega arith)

pub xor-zero : (s a : ℕ) → a < 2 ^ s → bit_xor a 0 ≡ a
xor-zero zero a h = let none_set : a ≡ 0 = omega arith in rw none_set (bit_xor-bitwise 0 0)
xor-zero (suc s) a h =
    omega
      (arith, xor_digit a 0, differ_zero (a % 2), xor-zero s (a / 2) (omega (arith, pow-suc 2 s)))

-- All ones turn every bit round.
pub xor_ones : (s a : ℕ) → a < 2 ^ s → bit_xor a (2 ^ s - 1) ≡ 2 ^ s - 1 - a
xor_ones zero a h = let none_set : a ≡ 0 = omega arith in rw none_set (bit_xor-bitwise 0 0)
xor_ones (suc s) a h =
    let ones = 2 ^ suc s - 1 in
    let half : ones / 2 ≡ 2 ^ s - 1 = omega (arith, pow-suc 2 s) in
    let odd : ones % 2 ≡ 1 = omega (arith, pow-suc 2 s) in
    omega (
      arith,
      xor_digit a ones,
      ap (bit_xor (a / 2)) half,
      ap (differ (a % 2)) odd,
      differ_one (a % 2) (omega arith),
      xor_ones s (a / 2) (omega (arith, pow-suc 2 s)),
      pow-suc 2 s,
    )
