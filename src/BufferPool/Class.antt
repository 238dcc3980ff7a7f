-- ===== src/BufferPool/Class.antt =====
-- The size classes of `createBuffer` and `destroyBuffer`.
use gearkit.Base.{
  ℕ, zero, suc, ◌+◌, ◌*◌, ◌/◌, ◌%◌, ◌^◌, ◌≤◌, ◌<◌, ◌≡◌, ◌≢◌, ap, ◌∙◌, arith, some, false, ◌==◌,
  lt→ltb, le→ltb_false, ne_false,
}
use native.Mathlib.Nat.{pow-suc, one-le-pow, mul-le-mul_left, mod-eq_of_lt}
use gearkit.Base.Words.{size_mod}
use gearkit.BufferPool.{grow_class, shrink_class, rounds}

double_shift : (fix d : ℕ) → fix * 2 ^ suc d ≡ fix * 2 * 2 ^ d
double_shift fix d = omega (arith, ap (λ (t : ℕ). fix * t) (pow-suc 2 d))

-- The loop doubles until the size fits, and that is the first time it does.
grow_class_doubles :
    (d fuel size fix index : ℕ)
    → d < fuel
    → size ≤ fix * 2 ^ d
    → (d ≢ 0 → fix * 2 ^ d < 2 * size)
    → fix * 2 ^ d < size_mod
    → grow_class fuel size fix index ≡ some (fix * 2 ^ d, index + d)
unfolding grow_class
grow_class_doubles d zero size fix index h fits first small = elim h [ ]
grow_class_doubles zero (suc fuel) size fix index h fits first small =
    let same : fix * 2 ^ 0 ≡ fix = omega arith in
    let here : index + 0 ≡ index = omega arith in
    rw (le→ltb_false fix size (omega arith), same, here)
grow_class_doubles (suc d) (suc fuel) size fix index h fits first small =
    let twice = double_shift fix d in
    let grows : fix * 2 * 1 ≤ fix * 2 * 2 ^ d =
      mul-le-mul_left (fix * 2) (one-le-pow d 2 (omega arith)) in
    let bound : fix * 2 ^ suc d < 2 * size = first (λ e. omega arith) in
    let below : fix < size = omega arith in
    let whole : fix * 2 % size_mod ≡ fix * 2 = mod-eq_of_lt (omega arith) in
    let next : index + 1 + d ≡ index + suc d = omega arith in
    let rest =
      grow_class_doubles d fuel size (fix * 2) (index + 1) (omega arith) (omega arith)
        (λ _. omega arith) (omega arith) in
    rw (lt→ltb _ _ below, whole, rest, twice, next)

pow_mono : (d e : ℕ) → d ≤ e → 2 ^ d ≤ 2 ^ e
pow_mono zero e h = one-le-pow e 2 (omega arith)
pow_mono (suc d) zero h = elim h [ ]
pow_mono (suc d) (suc e) h = omega (arith, pow-suc 2 d, pow-suc 2 e, pow_mono d e (omega arith))

-- `createBuffer` ends its loop in 64 rounds for any size up to 2 ^ 63, in the queue `3 + d` for the
-- least power of two `8 * 2 ^ d` that holds the size.
pub grow_class_lem :
    (d size : ℕ)
    → d < 61
    → size ≤ 8 * 2 ^ d
    → (d ≢ 0 → 8 * 2 ^ d < 2 * size)
    → grow_class rounds size 8 3 ≡ some (8 * 2 ^ d, 3 + d)
grow_class_lem d size h fits first =
    grow_class_doubles d rounds size 8 3 (omega arith) fits first
      (omega (arith, pow_mono d 60 (omega arith)))

shrink_class_halves :
    (k fuel index : ℕ) → k < fuel → shrink_class fuel (2 ^ k) index ≡ some (index + k + 1)
unfolding shrink_class
shrink_class_halves k zero index h = elim h [ ]
shrink_class_halves zero (suc fuel) index h =
    let here : index + 0 + 1 ≡ index + 1 = omega arith in rw here
shrink_class_halves (suc k) (suc fuel) index h =
    let half : 2 ^ suc k / 2 ≡ 2 ^ k = omega (arith, pow-suc 2 k) in
    let more : (2 ^ k == 0) ≡ false =
      ne_false (λ e. omega (arith, e, one-le-pow k 2 (omega arith))) in
    let next : index + 1 + k + 1 ≡ index + suc k + 1 = omega arith in
    rw (half, more, shrink_class_halves k fuel (index + 1) (omega arith), next)

-- `destroyBuffer` finds the queue `k + 4` for a buffer of capacity `2 ^ k`.
pub shrink_class_lem : (k : ℕ) → k < 64 → shrink_class rounds (2 ^ k) 3 ≡ some (k + 4)
shrink_class_lem k h = shrink_class_halves k rounds 3 h ∙ ap some (omega arith)
