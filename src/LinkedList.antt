-- ===== src/LinkedList.antt =====
-- base/List.h, class List: nodes on a heap, linked both ways.
pub mod Nodes
pub mod Refine
pub mod Clear
pub mod Each
mod Tests
use gearkit.Base.{
  ltb, ◌^◌, ℕ, zero, suc, ◌+◌, ◌-◌, List, [], ◌∷◌, ◌++◌, Option, none, some, Bool, true, false,
  ◌==◌, if◌then◌else◌, length, get_elem?, set,
}
use gearkit.Base.Run.{Run, done, fault, ◌>>=◌}
use gearkit.Array.{Item, or_index}

-- `else tail_ = 0`
abbrev pub tail_after : Option ℕ → Option ℕ → Option ℕ
tail_after none tail = none
tail_after (some nxt) tail = tail

-- The nodes by address, `none` after `delete`. A node has the members of an item of `Array`, with
-- addresses for indices, and `none` is the null pointer.
abbrev pub Heap {ℓ} : Type ℓ → Type ℓ
Heap A = List (Option (Item A))

-- `++count_` of an `int`, which is undefined at the greatest one.
unfoldable pub count_up : ℕ → Run ℕ
count_up n = if ltb (suc n) (2 ^ 31) then done (n + 1) else fault

-- The members, with the heap that the nodes stand in.
pub record LinkedList {ℓ} (A : Type ℓ) : Type ℓ where
  pub head : Option ℕ
  pub tail : Option ℕ
  pub count : ℕ
  pub heap : Heap A

module _ {ℓ} {A : Type ℓ} where
  -- A read through a pointer to no node is a fault.
  abbrev pub load : Option (Option (Item A)) → Run (Item A)
  load (some (some item)) = done item
  load (some none) = fault
  load none = fault

  unfoldable pub new : Heap A → LinkedList A
  new heap = record { head = none; tail = none; count = 0; heap = heap }

  -- The result, and what is put in `value`.
  unfoldable pub front : LinkedList A → Run (Bool × Option A)
  front l = elim l.head [
    | none ↦ done (false, none)
    | some p ↦
        if l.count == 0
        then done (false, none)
        else load (get_elem? l.heap p) >>= λ item. done (true, some item.value)
  ]

  -- `if (nxt) nxt->prev = 0`
  unfoldable pub cut_prev : Option ℕ → Heap A → Run (Heap A)
  cut_prev none heap = done heap
  cut_prev (some nxt) heap =
      load (get_elem? heap nxt) >>= λ item. done (set heap nxt (some (record item { prev = none })))

  -- `pop` after its guard, with `head_` at `p`.
  unfoldable pub pop_node : ℕ → LinkedList A → Run (Bool × Option A × LinkedList A)
  unfolding cut_prev
  pop_node p l = load (get_elem? l.heap p) >>= λ item. cut_prev item.next l.heap >>= λ heap. done (
    true,
    some item.value,
    record {
      head = item.next;
      tail = tail_after item.next l.tail;
      count = l.count - 1;
      heap = set heap p none;
    },
  )

  unfoldable pub pop : LinkedList A → Run (Bool × Option A × LinkedList A)
  unfolding pop_node
  pop l = elim l.head [
    | none ↦ done (false, none, l)
    | some p ↦ if l.count == 0 then done (false, none, l) else pop_node p l
  ]

  -- `if (tail_) tail_->next = p`
  unfoldable pub link_tail : Option ℕ → ℕ → Heap A → Run (Heap A)
  link_tail none p heap = done heap
  link_tail (some t) p heap =
      load (get_elem? heap t) >>= λ item. done (set heap t (some (record item { next = some p })))

  -- `new` takes the first address behind the heap. The result is always `true`.
  unfoldable pub push : A → LinkedList A → Run (LinkedList A)
  unfolding link_tail count_up
  push v l =
      let p = length l.heap in
      let heap = l.heap ++ (some (record { next = none; prev = l.tail; value = v }) ∷ []) in
      link_tail l.tail p heap >>= λ heap'. count_up l.count >>= λ count.
      done (record { head = or_index l.head p; tail = some p; count = count; heap = heap' })

  -- The loop of `clear`, which deletes the nodes from `p` on; out of fuel is a fault too.
  unfoldable pub delete_from : ℕ → Option ℕ → Heap A → Run (Heap A)
  delete_from fuel none heap = done heap
  delete_from zero (some p) heap = fault
  delete_from (suc fuel) (some p) heap =
      load (get_elem? heap p) >>= λ item. delete_from fuel item.next (set heap p none)

  -- `head_`, `tail_` and `count_` stay as they are.
  unfoldable pub clear : ℕ → LinkedList A → Run (LinkedList A)
  clear fuel l = delete_from fuel l.head l.heap >>= λ heap. done (record l { heap = heap })

  -- A loop over the iterators from the one at `p` up to `end()`, with the values that `*` gives; out of
  -- fuel is a fault too.
  unfoldable pub visit : ℕ → Option ℕ → Heap A → Run (List A)
  visit fuel none heap = done []
  visit zero (some p) heap = fault
  visit (suc fuel) (some p) heap = load (get_elem? heap p) >>= λ item.
      visit fuel item.next heap >>= λ rest. done (item.value ∷ rest)

  -- From `begin()`.
  unfoldable pub visit_all : ℕ → LinkedList A → Run (List A)
  unfolding visit
  visit_all fuel l = visit fuel l.head l.heap
