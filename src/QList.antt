-- ===== src/QList.antt =====
-- base/QList.h, class QList: a ring, and behind it a linked list for what does not fit.
pub mod Refine
mod Tests
use gearkit.Base.{
  ℕ, ◌+◌, ◌-◌, List, [], ◌∷◌, Option, none, some, Bool, true, false, ltb, if◌then◌else◌,
}
use gearkit.Base.Run.{Run, done, fault, ◌>>=◌}
use gearkit.LinkedList.{LinkedList, count_up}
use gearkit.LinkedList
use gearkit.Queue.{Queue}
use gearkit.Queue
use gearkit.Queue.Fifo.{Op, put, get, peek, Reply}

pub record QList {ℓ} (A : Type ℓ) : Type ℓ where
  pub count : ℕ
  pub que : Queue A
  pub list : LinkedList A

module _ {ℓ} {A : Type ℓ} where
  pub new : List A → LinkedList.Heap A → QList A
  new slots heap = record { count = 0; que = Queue.new slots; list = LinkedList.new heap }

  module _ (len : ℕ) where
    -- `que_.pop(value) || list_.pop(value)`
    unfoldable pub pop_list :
        ℕ → Bool × Option A × Queue A → LinkedList A → Run (Bool × Option A × QList A)
    pop_list count (true, out, que) list =
        done (true, out, record { count = count - 1; que = que; list = list })
    pop_list count (false, out, que) list = LinkedList.pop list >>= λ r.
        done (r.0, r.1, record { count = if r.0 then count - 1 else count; que = que; list = r.2 })

    unfoldable pub pop : QList A → Run (Bool × Option A × QList A)
    unfolding pop_list
    pop q = pop_list q.count (Queue.pop len q.que) q.list

    unfoldable pub push_list : A → QList A → Run (QList A)
    unfolding count_up
    push_list v q = LinkedList.push v q.list >>= λ list.
        count_up q.count >>= λ count. done (record q { count = count; list = list })

    -- `if (list_.count() > 0 || !que_.push(value)) list_.push(value)`; the result is
    -- always `true`. `count_` is an `int`.
    unfoldable pub push_que : A → Bool × Queue A → QList A → Run (QList A)
    unfolding push_list count_up
    push_que v (true, que) q =
        count_up q.count >>= λ count. done (record q { count = count; que = que })
    push_que v (false, que) q = push_list v (record q { que = que })

    unfoldable pub push : A → QList A → Run (QList A)
    unfolding push_que
    push v q = if ltb 0 q.list.count then push_list v q else push_que v (Queue.push len v q.que) q

    -- `que_.front(value) || list_.front(value)`
    unfoldable pub front_list : Bool × Option A → LinkedList A → Run (Bool × Option A)
    front_list (true, out) list = done (true, out)
    front_list (false, out) list = LinkedList.front list

    unfoldable pub front : QList A → Run (Bool × Option A)
    unfolding front_list
    front q = front_list (Queue.front len q.que) q.list

    -- A client's calls in order, with what it sees of each.
    unfoldable pub run : QList A → List (Op A) → Run (List (Reply A))
    run q [] = done []
    run q (put x ∷ ops) = push x q >>= λ q'. run q' ops >>= λ rest. done ((true, none) ∷ rest)
    run q (get ∷ ops) = pop q >>= λ r. run r.2 ops >>= λ rest. done ((r.0, r.1) ∷ rest)
    run q (peek ∷ ops) = front q >>= λ r. run q ops >>= λ rest. done (r ∷ rest)
