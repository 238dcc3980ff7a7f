-- ===== src/Socket/Tests.antt =====
-- A packet of three bytes that arrives in two pieces, and the theorems at concrete inputs.
use gearkit.Base.{
  ℕ, ◌-◌, ◌≡◌, inl, refl, arith, List, [], ◌∷◌, ◌++◌, none, replicate, length, length-replicate,
}
use gearkit.Base.Run.{Returns}
use gearkit.Buffer.{Buffer, reset, set_size}
use gearkit.Buffer.Fixtures.{refusing}
use gearkit.Buffer.Inv.{IsValid}
use gearkit.BufferPool.{
  BufferPool, create_buffer, grow_class, hand_out, take_from, pop_from, pop_popped, popped_or_new,
}
use gearkit.LinkedList.{Heap}
use gearkit.Packet.{PacketHeader, Packet}
use gearkit.QList
use gearkit.QList.Refine.{new-Holds}
use gearkit.Queue
use gearkit.Socket.{Socket, count, do_recv}
use gearkit.Socket.Body.{Delivered}
use gearkit.Socket.Open.{IsHeader, Supplies}
use gearkit.Socket.Receive.{Arrived, Blocked}
use gearkit.Socket.Stream.{do_recv-Blocked}
use gearkit.Socket.Deliver.{do_recv-Delivered}

abbrev header : PacketHeader
header = record { pid = 7; seed = 0; length = 3 }

abbrev blank : PacketHeader
blank = record { pid = 0; seed = 0; length = 0 }

abbrev blank_packet : Packet
blank_packet = record { header = blank; buf = none }

abbrev heap : Heap Packet
heap = []

abbrev head_buf : Buffer
head_buf = record { mem = replicate 8 0; capacity = 8; tail = 8; write_cur = 0; read_cur = 0 }

head_buf-IsValid : IsValid head_buf
head_buf-IsValid = record {
  read_in = omega arith;
  write_in = omega arith;
  tail_in = omega arith;
  block = refl;
  small = omega arith;
}

-- A pool that holds a buffer of eight bytes.
abbrev pool : BufferPool
pool = record {
  ques =
      replicate 10
        (record { count = 1; head = 0; tail = 1; que = head_buf ∷ replicate 199 head_buf });
}

-- A buffer in which these bytes have arrived.
abbrev arrived : List ℕ → List ℕ → Buffer
arrived bytes more = record {
  mem = bytes ++ more;
  capacity = length (bytes ++ more);
  tail = length (bytes ++ more);
  write_cur = length bytes;
  read_cur = 0;
}

abbrev pieces : List ℕ
pieces = 0 ∷ 0 ∷ 3 ∷ 0 ∷ 7 ∷ 0 ∷ 0 ∷ 0 ∷ 11 ∷ 12 ∷ []

abbrev whole : List ℕ
whole = 0 ∷ 0 ∷ 3 ∷ 0 ∷ 7 ∷ 0 ∷ 0 ∷ 0 ∷ 11 ∷ 12 ∷ 13 ∷ 0 ∷ []

abbrev between : Buffer → Socket
between bufs = record {
  packet_seed = 0;
  recv_head_buf = head_buf;
  recv_buf = none;
  recv_bufs = bufs;
  recv_packet = none;
  recv_que = QList.new (replicate 200 blank_packet) heap;
  pool = pool;
}

between-Arrived : (b : Buffer) → Arrived header [] (between b)
between-Arrived b = inl (
  record { head_valid = head_buf-IsValid; head_size = refl; no_packet = refl; no_body = refl },
  refl,
)

between-Supplies : (b : Buffer) → Supplies refusing header (between b)
unfolding create_buffer grow_class hand_out take_from pop_from pop_popped popped_or_new Queue.pop
    reset set_size
between-Supplies b = (
  _,
  _,
  refl,
  record {
    valid = record {
      read_in = omega arith;
      write_in = omega arith;
      tail_in = omega arith;
      block = refl;
      small = omega arith;
    };
    size = refl;
    start = refl;
    written = refl;
    waiting = refl;
  },
)

between-IsHeader : (b : Buffer) → IsHeader header (between b)
between-IsHeader b = record {
  pid = omega arith;
  short = omega arith;
  seed = omega arith;
  trusted = refl;
}

do_recv-Blocked_example :
    Returns
      (do_recv refusing blank (between (arrived pieces [])))
      (Blocked header pieces (between (arrived pieces [])))
do_recv-Blocked_example =
    do_recv-Blocked refusing blank header (11 ∷ 12 ∷ 13 ∷ []) refl [] pieces (13 ∷ [])
      (between (arrived pieces [])) (between-IsHeader _) (λ _. between-Supplies (arrived pieces []))
      (between-Arrived _)
      (record {
        read_in = omega arith;
        write_in = omega arith;
        tail_in = omega arith;
        block = refl;
        small = omega arith;
      })
      refl (omega arith) refl (omega arith)

do_recv-Delivered_example : Returns (do_recv refusing blank (between (arrived whole []))) λ r.
    (r.0 ≡ count (12 - 1))
    × Delivered header (11 ∷ 12 ∷ 13 ∷ []) (0 ∷ []) [] r.1
    × (r.1.packet_seed ≡ 0)
do_recv-Delivered_example =
    do_recv-Delivered refusing blank header (11 ∷ 12 ∷ 13 ∷ []) refl [] whole (0 ∷ []) []
      (between (arrived whole [])) (between-IsHeader _) (λ _. between-Supplies (arrived whole []))
      (between-Arrived _)
      (record {
        read_in = omega arith;
        write_in = omega arith;
        tail_in = omega arith;
        block = refl;
        small = omega arith;
      })
      refl (omega arith) refl
      (
        (new-Holds 200 (replicate 200 blank_packet) heap (omega arith)
            (length-replicate {A = Packet} 200 blank_packet)),
        omega arith,
      )
