-- ===== src/Base/Bits.antt =====
-- Masks and disjoint fields as arithmetic. The native operations stand for recursions on binary
-- digits, from which the equations for the lowest digit come.
use Prim.Native.Nat.{
  ℕ, zero, suc, ◌+◌, ◌*◌, ◌/◌, ◌%◌, ◌^◌, ◌≤◌, ◌<◌, min, max, digits, bit_and, bit_or,
  bit_and-bitwise, bit_or-bitwise,
}
use mathlib.Core.Path.{◌≡◌, refl, ap, ◌∙◌}
use mathlib.Core.Bool.{Bool, true, false}
use mathlib.Core.Logic.{ite}
use native.Mathlib.Decide.{ℕ_discrete}
use native.Mathlib.Nat.{pow-suc}
use native.Mathlib.Omega.{arith}

-- Both fuels are enough, so it does not matter which is used.
pub same_digits :
    (z : ℕ → ℕ) (f : ℕ → ℕ → ℕ) (a b k l : ℕ) → a ≤ k → a ≤ l → digits z f k a b ≡ digits z f l a b
same_digits z f zero b zero zero hk hl = refl
same_digits z f zero b zero (suc l) hk hl = refl
same_digits z f zero b (suc k) zero hk hl = refl
same_digits z f zero b (suc k) (suc l) hk hl = refl
same_digits z f (suc a) b zero l hk hl = elim hk [ ]
same_digits z f (suc a) b (suc k) zero hk hl = elim hl [ ]
same_digits z f (suc a) b (suc k) (suc l) hk hl =
    ap (λ n. n * 2 + f (suc a % 2) (b % 2))
      (same_digits z f (suc a / 2) (b / 2) k l (omega arith) (omega arith))

or_digit : (a b : ℕ) → bit_or a b ≡ bit_or (a / 2) (b / 2) * 2 + max (a % 2) (b % 2)
or_digit zero b = omega (arith, bit_or-bitwise 0 b, bit_or-bitwise 0 (b / 2))
or_digit (suc a) b = omega (
  arith,
  bit_or-bitwise (suc a) b,
  bit_or-bitwise (suc a / 2) (b / 2),
  same_digits (λ n. n) max (suc a / 2) (b / 2) a (suc a / 2) (omega arith) (omega arith),
)

and_digit : (a b : ℕ) → bit_and a b ≡ bit_and (a / 2) (b / 2) * 2 + min (a % 2) (b % 2)
and_digit zero b = omega (arith, bit_and-bitwise 0 b, bit_and-bitwise 0 (b / 2))
and_digit (suc a) b = omega (
  arith,
  bit_and-bitwise (suc a) b,
  bit_and-bitwise (suc a / 2) (b / 2),
  same_digits (λ n. 0) min (suc a / 2) (b / 2) a (suc a / 2) (omega arith) (omega arith),
)

-- A value below `2 ^ s` and one shifted to bit `s` share no bit.
pub or_shifted : (s acc g : ℕ) → acc < 2 ^ s → bit_or acc (g * 2 ^ s) ≡ acc + g * 2 ^ s
or_shifted zero acc g h =
    let none_set : acc ≡ 0 = omega arith in rw none_set (bit_or-bitwise 0 (g * 2 ^ 0) ∙ omega arith)
or_shifted (suc s) acc g h =
    let wide : g * 2 ^ suc s ≡ 2 * (g * 2 ^ s) =
      omega (arith, ap (λ (t : ℕ). g * t) (pow-suc 2 s)) in
    omega (
      arith,
      wide,
      or_digit acc (g * 2 ^ suc s),
      ap (bit_or (acc / 2)) {x = g * 2 ^ suc s / 2} {y = g * 2 ^ s} (omega (arith, wide)),
      or_shifted s (acc / 2) g (omega (arith, pow-suc 2 s)),
    )

and-zero : (k a : ℕ) → a ≤ k → bit_and a 0 ≡ 0
and-zero k zero h = refl
and-zero zero (suc a) h = elim h [ ]
and-zero (suc k) (suc a) h =
    omega (arith, and_digit (suc a) 0, and-zero k (suc a / 2) (omega arith))

-- Seven ones keep seven digits.
and_low3 : (a : ℕ) → bit_and a 7 ≡ a % 8
and_low3 a = omega (
  arith,
  and_digit a 7,
  and_digit (a / 2) 3,
  and_digit (a / 2 / 2) 1,
  and-zero (a / 2 / 2 / 2) (a / 2 / 2 / 2) (omega arith),
)

pub and_low7 : (a : ℕ) → bit_and a 0x7f ≡ a % 128
and_low7 a = omega (
  arith,
  and_digit a 127,
  and_digit (a / 2) 63,
  and_digit (a / 2 / 2) 31,
  and_digit (a / 2 / 2 / 2) 15,
  and_low3 (a / 2 / 2 / 2 / 2),
)

-- On one byte, by a table.
module _ (f g : ℕ → ℕ) where
  agree_below : ℕ → Bool
  unfolding ℕ_discrete
  agree_below zero = true
  agree_below (suc n) = ite (ℕ_discrete (f n) (g n)) (agree_below n) false

  agree_below→eq : (n : ℕ) → agree_below n ≡ true → (i : ℕ) → i < n → f i ≡ g i
  unfolding agree_below
  agree_below→eq zero e i h = absurd (omega arith)
  agree_below→eq (suc n) e i h = ground (arith, agree_below→eq n (ground arith) i)

pub top_bit : (b : ℕ) → b < 256 → bit_and b 0x80 ≡ b / 128 * 128
unfolding agree_below
top_bit = agree_below→eq _ _ 256 refl

pub set_top_bit : (b : ℕ) → b < 128 → bit_or b 0x80 ≡ b + 128
unfolding agree_below
set_top_bit = agree_below→eq _ _ 128 refl

pub and_low1 : (a : ℕ) → bit_and a 1 ≡ a % 2
and_low1 a = omega (arith, and_digit a 1, and-zero (a / 2) (a / 2) (omega arith))
