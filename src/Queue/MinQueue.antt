-- ===== src/Queue/MinQueue.antt =====
-- base/Queue.h, classes MinQueue and MaxQueue: a heap in an array whose place 0 is not used.
pub mod Slots
pub mod Order
pub mod Down
pub mod Sift
pub mod Up
pub mod Refine
mod Tests
use gearkit.Base.{
  ℕ, zero, suc, ◌+◌, ◌-◌, ◌*◌, ◌/◌, List, Option, none, some, Bool, true, false, ltb, leb, ◌==◌,
  if◌then◌else◌, get_elem?, set,
}
use gearkit.Base.Run.{Run, done, fault, ◌>>=◌}

-- The members; `que_` has `Length + 1` places, and `Length` is an argument of `push`.
pub record MinQueue {ℓ} (A : Type ℓ) : Type ℓ where
  pub count : ℕ
  pub que : List A

-- `compare`, for numbers: of MinQueue, and of MaxQueue.
abbrev pub min_compare : ℕ → ℕ → Bool
min_compare a b = ltb b a

abbrev pub max_compare : ℕ → ℕ → Bool
max_compare a b = ltb a b

-- `int` subtraction, of a count that is at most the length.
unfoldable pub rest {ℓ} : {A : Type ℓ} → ℕ → MinQueue A → ℕ
rest len q = len + 1 - q.count

module _ {ℓ} {A : Type ℓ} where
  pub new : List A → MinQueue A
  new slots = record { count = 0; que = slots }

  -- `que_[index]`; outside the array it is a fault.
  unfoldable pub load : List A → ℕ → Run A
  load que index = elim (get_elem? que index) [ none ↦ fault | some v ↦ done v ]

  unfoldable pub exchange : ℕ → ℕ → List A → Run (List A)
  unfolding load
  exchange index1 index2 que = load que index1 >>= λ tmp.
      load que index2 >>= λ other. done (set (set que index1 other) index2 tmp)

  module _ (gt : A → A → Bool) where
    -- `target`, for the left child and `right` behind it.
    unfoldable pub target_of : ℕ → ℕ → List A → Run ℕ
    unfolding load
    target_of count left que =
        if leb (left + 1) count
        then (load que left >>= λ x.
            load que (left + 1) >>= λ y. done (if gt x y then left + 1 else left))
        else done left

    -- `target <= count_ && compare(que_[index], que_[target])`
    unfoldable pub is_below : ℕ → ℕ → ℕ → List A → Run Bool
    unfolding load
    is_below count index target que =
        if leb target count
        then (load que index >>= λ x. load que target >>= λ y. done (gt x y))
        else done false

    -- The loop of `adjustDown`. Out of fuel is a fault too; `int` does not overflow for a `Length` below
    -- 2 ^ 30.
    unfoldable pub adjust_loop : ℕ → ℕ → ℕ → Bool → List A → Run (Bool × List A)
    unfolding exchange target_of is_below
    adjust_loop zero count index changed que = fault
    adjust_loop (suc fuel) count index changed que = elim (ltb index count) [
      | false ↦ done (changed, que)
      | true ↦ target_of count (index * 2) que >>= λ target.
          is_below count index target que >>= λ below. elim below [
            | false ↦ done (changed, que)
            | true ↦ exchange index target que >>= λ que'. adjust_loop fuel count target true que'
          ]
    ]

    unfoldable pub adjust_down : ℕ → ℕ → List A → Run (Bool × List A)
    unfolding adjust_loop
    adjust_down count index que = adjust_loop (suc count) count index false que

    -- The loop of `adjust`, on fuel as well.
    unfoldable pub adjust : ℕ → ℕ → ℕ → List A → Run (List A)
    unfolding adjust_down
    adjust zero count index que = fault
    adjust (suc fuel) count index que = elim (ltb 0 (index / 2)) [
      | false ↦ done que
      | true ↦ adjust_down count (index / 2) que >>= λ r. elim r.0 [
        | false ↦ done r.1
        | true ↦ adjust fuel count (index / 2) r.1
      ]
    ]

    -- The result, and what the code puts in `value`.
    unfoldable pub pop : MinQueue A → Run (Bool × Option A × MinQueue A)
    unfolding adjust_down load
    pop q = elim (q.count == 0) [
      | true ↦ done (false, none, q)
      | false ↦ load q.que 1 >>= λ value. load q.que q.count >>= λ last.
          adjust_down (q.count - 1) 1 (set q.que 1 last) >>= λ r.
          done (true, some value, record { count = q.count - 1; que = r.1 })
    ]

    -- `que_[count_] = value` is inside the array, since `count_` was below `Length`.
    unfoldable pub push : ℕ → A → MinQueue A → Run (Bool × MinQueue A)
    unfolding adjust
    push len value q = elim (q.count == len) [
      | true ↦ done (false, q)
      | false ↦
          adjust (suc (suc q.count)) (suc q.count) (suc q.count) (set q.que (suc q.count) value)
          >>= λ que. done (true, record { count = suc q.count; que = que })
    ]
