-- ===== src/BufferPool/Tests.antt =====
-- A pool with empty queues, and the theorems at concrete inputs.
use gearkit.Base.{ℕ, ◌≡◌, refl, arith, List, [], some, true, replicate, length, length-replicate}
use gearkit.Base.Run.{fault}
use gearkit.Buffer.{Buffer, reset, set_size, write_buffer}
use gearkit.Buffer.Fixtures.{refusing}
use gearkit.Buffer.Inv.{IsValid}
use gearkit.Queue.{Queue, new}
use gearkit.Queue.Refine.{Holds, new-Holds}
use gearkit.BufferPool.{BufferPool, rounds, grow_class, shrink_class, destroy_buffer, create_buffer}
use gearkit.BufferPool.Reuse.{create_after_destroy}

grow_100 : grow_class rounds 100 8 3 ≡ some (128, 7)
unfolding grow_class
grow_100 = refl

shrink_100 : shrink_class rounds 128 3 ≡ some 11
unfolding shrink_class
shrink_100 = refl

abbrev eight : Buffer
eight = record { mem = replicate 8 0; capacity = 8; tail = 8; write_cur = 0; read_cur = 0 }

eight-IsValid : IsValid eight
eight-IsValid = record {
  read_in = omega arith;
  write_in = omega arith;
  tail_in = omega arith;
  block = refl;
  small = omega arith;
}

abbrev idle_queue : Queue Buffer
idle_queue = new (replicate 200 eight)

abbrev idle_pool : BufferPool
idle_pool = record { ques = replicate 10 idle_queue }

idle_queue-Holds : Holds 200 idle_queue []
idle_queue-Holds =
    new-Holds (replicate 200 eight) (omega arith) (length-replicate {A = Buffer} 200 eight)

create_after_destroy_example :
    (kept later : BufferPool) × (destroy_buffer eight idle_pool ≡ some (true, kept))
    × (create_buffer refusing 100 kept ≡ some (set_size 100 (reset eight), later))
    × ((bytes : List ℕ)
        → length bytes ≡ 100
        → write_buffer refusing bytes (set_size 100 (reset eight)) ≡ fault)
create_after_destroy_example =
    create_after_destroy refusing 3 100 idle_pool idle_queue eight eight-IsValid refl (omega arith)
      refl idle_queue-Holds (omega arith) (omega arith)
