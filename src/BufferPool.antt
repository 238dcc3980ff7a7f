-- ===== src/BufferPool.antt =====
-- kit/BufferPool.h and kit/BufferPool.cpp, class BufferPool: queues of buffers that are kept for
-- later, one for each power of two.
pub mod Class
pub mod Reuse
mod Tests
use gearkit.Base.{
  ℕ, zero, suc, ◌+◌, ◌*◌, ◌/◌, ◌%◌, List, [], ◌∷◌, Option, none, some, Bool, true, false, ltb, leb,
  ◌==◌, if◌then◌else◌, get_elem?, set,
}
use gearkit.Base.Words.{size_mod}
use gearkit.Buffer.{Buffer, create, reset, set_size}
use gearkit.Buffer.Memory.{Allocator}
use gearkit.Queue.{Queue, pop, push}

-- BUFFER_POOL_SIZE and BUFFER_QUEUE_CNT
abbrev pub buffer_pool_size : ℕ
buffer_pool_size = 200

abbrev pub buffer_queue_cnt : ℕ
buffer_queue_cnt = 10

-- `ques_`. A buffer that stands in a queue has no other reference, so it is kept by value.
pub record BufferPool : Type 0 where
  pub ques : List (Queue Buffer)

-- The loop of `createBuffer`: `fix_size` and `index` at its end; `none` where the fuel runs out.
unfoldable pub grow_class : ℕ → ℕ → ℕ → ℕ → Option (ℕ × ℕ)
grow_class zero size fix_size index = none
grow_class (suc fuel) size fix_size index =
    let rest = grow_class fuel size (fix_size * 2 % size_mod) (index + 1) in
    if ltb fix_size size then rest else some (fix_size, index)

-- The loop of `destroyBuffer`: `index` at its end.
unfoldable pub shrink_class : ℕ → ℕ → ℕ → Option ℕ
shrink_class zero size index = none
shrink_class (suc fuel) size index =
    let rest = shrink_class fuel (size / 2) (index + 1) in
    if size / 2 == 0 then some (index + 1) else rest

-- One round for each bit of a `size_t`.
abbrev pub rounds : ℕ
rounds = 64

-- `ques_[index].pop(buf)`; `none` is the result `false`.
unfoldable pub pop_popped :
    List (Queue Buffer) → ℕ → Bool × Option Buffer × Queue Buffer → Option Buffer × BufferPool
pop_popped ques index (false, out, q) = (none, record { ques = set ques index q })
pop_popped ques index (true, out, q) = (out, record { ques = set ques index q })

unfoldable pub pop_from : Option (Queue Buffer) → ℕ → BufferPool → Option Buffer × BufferPool
unfolding pop_popped
pop_from none index pool = (none, pool)
pop_from (some q) index pool = pop_popped pool.ques index (pop buffer_pool_size q)

unfoldable pub take_from : ℕ → BufferPool → Option Buffer × BufferPool
unfolding pop_from
take_from index pool =
    if leb buffer_queue_cnt index
    then (none, pool)
    else pop_from (get_elem? pool.ques index) index pool

module _ (alloc : Allocator) where
  -- `Buffer::create` and `init` where no buffer came out of the queue.
  unfoldable pub popped_or_new : ℕ → Option Buffer → Buffer
  popped_or_new fix_size none = (create alloc fix_size).1
  popped_or_new fix_size (some b) = b

  unfoldable pub hand_out : ℕ → ℕ × ℕ → BufferPool → Buffer × BufferPool
  unfolding popped_or_new
  hand_out size (fix_size, index) pool =
      let (popped, pool') = take_from index pool in
      (set_size size (reset (popped_or_new fix_size popped)), pool')

  -- `none` where the loop does not end in 64 rounds.
  unfoldable pub create_buffer : ℕ → BufferPool → Option (Buffer × BufferPool)
  create_buffer size pool = elim (grow_class rounds size 8 3) [
    | none ↦ none
    | some class ↦ some (hand_out size class pool)
  ]

-- `ques_[index].push(buffer)`
unfoldable pub push_to : Option (Queue Buffer) → ℕ → Buffer → BufferPool → Bool × BufferPool
push_to none index b pool = (false, pool)
push_to (some q) index b pool =
    let (ok, q') = push buffer_pool_size b q in (ok, record { ques = set pool.ques index q' })

-- Whether the pool keeps the buffer; otherwise it is released.
unfoldable pub keep_at : ℕ → Buffer → BufferPool → Bool × BufferPool
unfolding push_to
keep_at index b pool =
    if leb buffer_queue_cnt index
    then (false, pool)
    else push_to (get_elem? pool.ques index) index b pool

unfoldable pub destroy_buffer : Buffer → BufferPool → Option (Bool × BufferPool)
destroy_buffer b pool = elim (shrink_class rounds b.capacity 3) [
  | none ↦ none
  | some index ↦ some (keep_at index b pool)
]
