-- ===== src/BufferPool/Reuse.antt =====
-- A buffer that goes back to the pool and comes out again.
use gearkit.Base.{
  ℕ, ◌+◌, ◌*◌, ◌^◌, ◌≤◌, ◌<◌, ◌≡◌, refl, ap, ◌∙◌, arith, List, [], ◌∷◌, some, true, length,
  get_elem?, set, lt→leb_false, get_elem?-set_self, lt_of_get_elem?,
}
use native.Mathlib.Numerals.{towards_suc}
use gearkit.Base.Run.{fault}
use gearkit.Buffer.{Buffer, reset, set_size, write_buffer}
use gearkit.Buffer.Write.{write_buffer_oversized}
use gearkit.Buffer.Inv.{IsValid}
use gearkit.Buffer.Memory.{Allocator}
use gearkit.Queue.{Queue, push, pop}
use gearkit.Queue.Fifo
use gearkit.Queue.Refine.{Holds, push_refines, pop_refines}
use gearkit.BufferPool.{
  BufferPool, buffer_pool_size, buffer_queue_cnt, destroy_buffer, create_buffer, keep_at, take_from,
  hand_out, rounds, shrink_class,
}
use gearkit.BufferPool.Class.{grow_class_lem, shrink_class_lem}

-- An empty queue keeps the buffer.
keep_empty :
    (pool : BufferPool) (i : ℕ) (q : Queue Buffer) (b : Buffer)
    → i < buffer_queue_cnt
    → get_elem? pool.ques i ≡ some q
    → Holds buffer_pool_size q []
    → keep_at i b pool ≡ (true, record { ques = set pool.ques i (push buffer_pool_size b q).1 })
unfolding keep_at
keep_empty pool i q b lt there empty =
    let (ok, _) = push_refines {len = buffer_pool_size} b empty in
    let answer : (push buffer_pool_size b q).0 ≡ true = ok ∙ unfold Fifo.push in refl in
    rw (lt→leb_false _ _ lt, there, answer)

-- A queue with one buffer hands it out.
take_one :
    (pool : BufferPool) (i : ℕ) (q : Queue Buffer) (b : Buffer)
    → i < buffer_queue_cnt
    → get_elem? pool.ques i ≡ some q
    → Holds buffer_pool_size q (b ∷ [])
    → (take_from i pool).0 ≡ some b
unfolding take_from
take_one pool i q b lt there one =
    let (ok, out, _) = pop_refines {len = buffer_pool_size} (b ∷ []) one in
    let answer : (pop buffer_pool_size q).0 ≡ true = ok ∙ unfold Fifo.pop in refl in
    rw (lt→leb_false _ _ lt, there, answer) (out ∙ unfold Fifo.pop in refl)

create_one :
    (alloc : Allocator) (d size : ℕ) (pool : BufferPool) (q : Queue Buffer) (b : Buffer)
    → 3 + d < buffer_queue_cnt
    → size ≤ 8 * 2 ^ d
    → 8 * 2 ^ d < 2 * size
    → get_elem? pool.ques (3 + d) ≡ some q
    → Holds buffer_pool_size q (b ∷ [])
    → (later : BufferPool) × (create_buffer alloc size pool ≡ some (set_size size (reset b), later))
unfolding create_buffer hand_out
create_one alloc d size pool q b lt fits first there one =
    let class = grow_class_lem d size (omega arith) fits (λ _. first) in
    let out = take_one pool (3 + d) q b lt there one in
    ((take_from (3 + d) pool).1, rw (class, create_buffer, out))

-- A valid buffer of 2 ^ k bytes, k up to 5, is given back to a pool whose queue `k + 4` is empty,
-- and the pool keeps it. The next `createBuffer` of any size above 2 ^ (k + 3) and up to
-- 2 ^ (k + 4) hands it out with that size, more than 8 times the bytes that it has,
-- and writing as many bytes as the size goes outside the block.
pub create_after_destroy :
    (alloc : Allocator) (k size : ℕ) (pool : BufferPool) (q : Queue Buffer) (b : Buffer)
    → IsValid b
    → b.capacity ≡ 2 ^ k
    → k ≤ 5
    → get_elem? pool.ques (k + 4) ≡ some q
    → Holds buffer_pool_size q []
    → size ≤ 2 ^ (k + 4)
    → 2 ^ (k + 4) < 2 * size
    → (kept later : BufferPool) × (destroy_buffer b pool ≡ some (true, kept))
      × (create_buffer alloc size kept ≡ some (set_size size (reset b), later))
      × ((bytes : List ℕ)
          → length bytes ≡ size
          → write_buffer alloc bytes (set_size size (reset b)) ≡ fault)
unfolding destroy_buffer reset set_size
create_after_destroy alloc k size pool q b valid fit hi there empty fits first =
    let i = k + 4 in
    let q' = (push buffer_pool_size b q).1 in
    let kept : BufferPool = record { ques = set pool.ques i q' } in
    let one : Holds buffer_pool_size q' (b ∷ []) =
      unfold Fifo.push in (push_refines {len = buffer_pool_size} b empty).1 in
    let place : k + 4 ≡ 3 + (k + 1) = omega arith in
    let class : shrink_class rounds b.capacity 3 ≡ some (k + 4) =
      ap (λ c. shrink_class rounds c 3) fit ∙ shrink_class_lem k (omega arith) in
    let power : 2 ^ (k + 4) ≡ 8 * 2 ^ (k + 1) = simp towards_suc (omega arith) in
    let back : get_elem? kept.ques (3 + (k + 1)) ≡ some q' =
      rw (← place) (get_elem?-set_self pool.ques i q' (lt_of_get_elem? pool.ques i there)) in
    let wide : 2 ^ (k + 4) ≡ 16 * 2 ^ k = simp towards_suc (omega arith) in
    let far : (bytes : List ℕ) → length bytes ≡ size → length b.mem < 0 + length bytes =
      λ bytes len. omega (arith, valid.block, fit, len, first, wide) in
    let (later, made) =
      create_one alloc (k + 1) size kept q' b (omega arith) (omega (arith, power))
        (omega (arith, power)) back one in
    (
      kept,
      later,
      rw (class, destroy_buffer) (ap some (keep_empty pool i q b (omega arith) there empty)),
      made,
      λ bytes len. write_buffer_oversized alloc bytes _ (far bytes len) (omega (arith, len)),
    )
