-- ===== src/Queue/Inv.antt =====
-- The representation invariant of the ring.
use gearkit.Base.{
  ℕ, ◌+◌, ◌-◌, ◌%◌, ◌≤◌, ◌<◌, ◌≡◌, List, arith, length, ◌==◌, Bool-cases, ◌↔◌, refl, true, inl, inr,
  length-set,
}
use native.Mathlib.Nat.{mod-add-mod, add_assoc}
use gearkit.Queue.{Queue, new, pop, push, rest}

pub record IsValid {ℓ} {A : Type ℓ} (len : ℕ) (q : Queue A) : Type 0 where
  pub storage : length q.que ≡ len
  pub head_in : q.head < len
  pub count_in : q.count ≤ len
  pub tail_at : q.tail ≡ (q.head + q.count) % len

pop_shift : (h n : ℕ) → 0 < n → h + 1 + (n - 1) ≡ h + n
pop_shift h n pos = omega arith

module _ {ℓ} {A : Type ℓ} {len : ℕ} where
  pub new-IsValid : (slots : List A) → 0 < len → length slots ≡ len → IsValid len (new slots)
  unfolding new
  new-IsValid slots pos e = grind arith

  pub tail-lt : {q : Queue A} → IsValid len q → q.tail < length q.que
  tail-lt v = omega arith

  pub push-IsValid : {q : Queue A} (x : A) → IsValid len q → IsValid len (push len x q).1
  unfolding push
  push-IsValid {q} x v = elim (Bool-cases (q.count == len)) [
    | inl full ↦ rw full v
    | inr more ↦ rw more (
        ground (
          arith,
          length-set q.que q.tail x,
          mod-add-mod (q.head + q.count) len 1,
          add_assoc q.head q.count 1,
        ))
  ]

  -- What `pop` does to a ring that is not empty.
  pub advance-IsValid :
      {q : Queue A}
      → IsValid len q
      → 0 < q.count
      → IsValid len (record q { head = (q.head + 1) % len; count = q.count - 1 })
  advance-IsValid {q} v pos =
      ground (arith, mod-add-mod (q.head + 1) len (q.count - 1), pop_shift q.head q.count)

  pub pop-IsValid : {q : Queue A} → IsValid len q → IsValid len (pop len q).2
  unfolding pop
  pop-IsValid {q} v = elim (Bool-cases (q.count == 0)) [
    | inl empty ↦ rw empty v
    | inr more ↦ rw more (advance-IsValid v (ground arith))
  ]

  -- In a valid ring `rest` is what is left of the capacity, and is positive exactly when the next
  -- `push` succeeds.
  rest-push :
      {q : Queue A} (x : A)
      → IsValid len q
      → (rest len q + q.count ≡ len) × ((0 < rest len q) ↔ ((push len x q).0 ≡ true))
  unfolding rest push
  rest-push {q} x v = elim (Bool-cases (q.count == len)) [
    | inl full ↦ rw full (omega arith, ((λ h. absurd (ground arith)), λ e. cc))
    | inr more ↦ rw more (omega arith, ((λ h. refl), λ e. ground arith))
  ]
