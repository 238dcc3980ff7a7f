-- ===== src/Base/Slices.antt =====
-- `take` and `drop`, as the pieces of a block are cut.
use Prim.Native.Nat.{ℕ, zero, suc, ◌+◌, ◌-◌, ◌≤◌}
use mathlib.Core.Path.{◌≡◌, refl, sym, ap, ◌∙◌}
use mathlib.Core.List.{List, [], ◌∷◌, ◌++◌, append_assoc}
use native.Mathlib.Omega.{arith}
use gearkit.Base.Lists.{length, take, drop, length-take, length-drop, length-append}

module _ {ℓ} {A : Type ℓ} where
  pub drop-nil : (n : ℕ) → drop {A = A} n [] ≡ []
  drop-nil zero = refl
  drop-nil (suc n) = refl

  pub take-nil : (n : ℕ) → take {A = A} n [] ≡ []
  take-nil zero = refl
  take-nil (suc n) = refl

  pub take-append-drop : (n : ℕ) (xs : List A) → take n xs ++ drop n xs ≡ xs
  take-append-drop zero xs = refl
  take-append-drop (suc n) [] = refl
  take-append-drop (suc n) (x ∷ xs) = ap (λ l. x ∷ l) (take-append-drop n xs)

  pub take-append_length : (xs ys : List A) → take (length xs) (xs ++ ys) ≡ xs
  take-append_length [] ys = refl
  take-append_length (x ∷ xs) ys = ap (λ l. x ∷ l) (take-append_length xs ys)

  pub drop-append_length : (xs ys : List A) → drop (length xs) (xs ++ ys) ≡ ys
  drop-append_length [] ys = refl
  drop-append_length (x ∷ xs) ys = drop-append_length xs ys

  pub drop-append_le :
      (n : ℕ) (xs ys : List A) → n ≤ length xs → drop n (xs ++ ys) ≡ drop n xs ++ ys
  drop-append_le zero xs ys h = refl
  drop-append_le (suc n) [] ys h = elim h [ ]
  drop-append_le (suc n) (x ∷ xs) ys h = drop-append_le n xs ys (omega arith)

  pub drop-take : (n m : ℕ) (xs : List A) → drop n (take m xs) ≡ take (m - n) (drop n xs)
  drop-take zero m xs = ap (λ k. take k xs) (omega arith)
  drop-take (suc n) zero xs = let none_left : 0 - suc n ≡ 0 = omega arith in rw none_left
  drop-take (suc n) (suc m) [] = sym (take-nil (suc m - suc n))
  drop-take (suc n) (suc m) (x ∷ xs) = drop-take n m xs ∙ ap (λ k. take k (drop n xs)) (omega arith)

  pub take-take : (n m : ℕ) (xs : List A) → n ≤ m → take n (take m xs) ≡ take n xs
  take-take zero m xs h = refl
  take-take (suc n) zero xs h = elim h [ ]
  take-take (suc n) (suc m) [] h = refl
  take-take (suc n) (suc m) (x ∷ xs) h = ap (λ l. x ∷ l) (take-take n m xs (omega arith))

  pub drop-drop : (n m : ℕ) (xs : List A) → drop n (drop m xs) ≡ drop (m + n) xs
  drop-drop n zero xs = ap (λ k. drop k xs) (omega arith)
  drop-drop n (suc m) [] = drop-nil n ∙ sym (drop-nil (suc m + n))
  drop-drop n (suc m) (x ∷ xs) =
      drop-drop n m xs ∙ (let next : suc m + n ≡ suc (m + n) = omega arith in rw next)

  -- `k` elements from place `a` on.
  abbrev pub slice : ℕ → ℕ → List A → List A
  slice a k xs = take k (drop a xs)

  pub length-slice : (a k : ℕ) (xs : List A) → a + k ≤ length xs → length (slice a k xs) ≡ k
  length-slice a k xs h = length-take k (drop a xs) ∙ omega (arith, length-drop a xs)

  -- Two lists with a common front have the slices inside it in common.
  pub slice_congr :
      (n a k : ℕ) (xs ys : List A) → take n xs ≡ take n ys → a + k ≤ n → slice a k xs ≡ slice a k ys
  slice_congr n a k xs ys e h = sym (within xs) ∙ ap (slice a k) e ∙ within ys
    where
      within : (zs : List A) → slice a k (take n zs) ≡ slice a k zs
      within zs = ap (take k) (drop-take a n zs) ∙ take-take k (n - a) (drop a zs) (omega arith)

  -- The slice from `a` up to the end of what was put at `w`.
  pub slice_written :
      (a w : ℕ) (xs ys rest : List A)
      → a ≤ w
      → w ≤ length xs
      → slice a (w + length ys - a) (take w xs ++ (ys ++ rest)) ≡ slice a (w - a) xs ++ ys
  slice_written a w xs ys rest ha hw =
      ap (take (w + length ys - a)) front
      ∙ ap (λ k. take k ((slice a (w - a) xs ++ ys) ++ rest)) size
      ∙ take-append_length (slice a (w - a) xs ++ ys) rest
    where
      front : drop a (take w xs ++ (ys ++ rest)) ≡ (slice a (w - a) xs ++ ys) ++ rest
      front =
          drop-append_le a (take w xs) (ys ++ rest) (omega (arith, length-take w xs))
          ∙ ap (λ l. l ++ (ys ++ rest)) (drop-take a w xs)
          ∙ sym (append_assoc (slice a (w - a) xs) ys rest)

      size : w + length ys - a ≡ length (slice a (w - a) xs ++ ys)
      size =
          omega
            (arith, length-append (slice a (w - a) xs) ys, length-slice a (w - a) xs (omega arith))
