-- ===== src/Queue.antt =====
-- base/Queue.h, class Queue: a ring of `Length` slots that both the event queues and the packet
-- queues stand on.
pub mod Fifo
pub mod Inv
pub mod Refine
pub mod MinQueue
mod Tests
use Fifo.{Op, put, get, peek, Reply}
use gearkit.Base.{
  ℕ, List, [], ◌∷◌, ◌+◌, ◌-◌, ◌%◌, Option, none, some, Bool, true, false, ◌==◌, if◌then◌else◌,
  get_elem?, set,
}

-- The four members. `que` is the array `que_`; the template parameter `Length` is an argument of
-- the operations that use it.
pub record Queue {ℓ} (A : Type ℓ) : Type ℓ where
  pub count : ℕ
  pub head : ℕ
  pub tail : ℕ
  pub que : List A

module _ {ℓ} {A : Type ℓ} where
  -- The constructor: the array holds what its elements' own initialisation leaves there.
  pub new : List A → Queue A
  new slots = record { count = 0; head = 0; tail = 0; que = slots }

  module _ (len : ℕ) where
    -- The result, and what the code puts in `value`: `none` where it writes nothing or where the
    -- read is out of range.
    unfoldable pub pop : Queue A → Bool × Option A × Queue A
    pop q = if q.count == 0 then (false, none, q) else (
      true,
      get_elem? q.que q.head,
      record q { head = (q.head + 1) % len; count = q.count - 1 },
    )

    pub push : A → Queue A → Bool × Queue A
    push v q = if q.count == len then (false, q) else (
      true,
      record q { que = set q.que q.tail v; tail = (q.tail + 1) % len; count = q.count + 1 },
    )

    pub front : Queue A → Bool × Option A
    front q = if q.count == 0 then (false, none) else (true, get_elem? q.que q.head)

    -- `int` subtraction, of a count that is at most the length.
    pub rest : Queue A → ℕ
    rest q = len - q.count

    -- A client's calls in order, with what it sees of each.
    pub run : Queue A → List (Op A) → List (Reply A)
    run q [] = []
    run q (put x ∷ ops) = let (ok, q') = push x q in (ok, none) ∷ run q' ops
    run q (get ∷ ops) = let (ok, out, q') = pop q in (ok, out) ∷ run q' ops
    run q (peek ∷ ops) = front q ∷ run q ops
