-- ===== src/Socket/Flush.antt =====
-- network/Socket.h and network/Socket.cpp, class ISocket: sendBuffer, flushSend and sendPacket, over
-- the system's `send`.
pub mod Wire
pub mod Through
pub mod Whole
mod Tests
use gearkit.Base.{
  ℕ, zero, suc, ◌+◌, ◌-◌, List, ◌++◌, Option, none, some, Bool, true, false, ltb, ◌==◌, ◌&&◌, ◌||◌,
  if◌then◌else◌, take,
}
use gearkit.Base.Run.{Run, done, fault, ◌>>=◌}
use gearkit.Buffer.{Buffer, skip_read, get_readable_size, get_writable_size}
use gearkit.Buffer.Memory.{Allocator, copy_out}
use gearkit.BufferPool.{BufferPool, create_buffer, destroy_buffer}
use gearkit.Packet.{Packet}
use gearkit.QList
use gearkit.Socket.{to_u32, packet_queue_length}
use gearkit.Socket.Send.{Sender, Sent, send_clear, count, do_send}

-- PACKET_SIZE
abbrev pub packet_size : ℕ
packet_size = 512

-- What `::send` returns: how many bytes it took, or -1 with `errno` EWOULDBLOCK or another.
pub data Answer : Type 0 where
  took : ℕ → Answer
  would_block failed : Answer

-- The system, in a state of type `W`.
abbrev pub System : Type 0 → Type 0
System W = W → List ℕ → Answer × W

-- The system's state, and the bytes that it has taken so far.
pub record Line (W : Type 0) : Type 0 where
  pub system : W
  pub wire : List ℕ

-- What `flushSend` returns: SOCKET_SEND_ERROR, or what the last `doSend` did.
pub data Flushed : Type 0 where
  send_error : Flushed
  flushed : Sent → Flushed

-- `ret == SOCKET_SP_CLEAR || ret == SOCKET_SP_BLOCK`
unfoldable pub stopped : Sent → Bool
stopped send_clear = true
stopped (count n) = n == 0

-- The body of the loop of `sendBuffer` behind `send`: `none` is SOCKET_SEND_ERROR, and `again` are the
-- rounds that follow.
unfoldable pub after_send :
    {W : Type 0}
    → (ℕ → Buffer → Line W → Run (Option ℕ × Buffer × Line W))
    → ℕ
    → List ℕ
    → Buffer
    → Line W
    → Answer × W
    → Run (Option ℕ × Buffer × Line W)
after_send again nsend bytes b line (failed, w) = done (none, b, record line { system = w })
after_send again nsend bytes b line (would_block, w) =
    done (some nsend, b, record line { system = w })
after_send again nsend bytes b line (took zero, w) =
    done (some nsend, b, record line { system = w })
after_send again nsend bytes b line (took (suc n), w) =
    again (nsend + suc n) (skip_read (suc n) b)
      (record { system = w; wire = line.wire ++ take (suc n) bytes })

-- The test in the loop of `flushSend`.
unfoldable pub is_due : Sent → Buffer → Bool
unfolding stopped
is_due ret b = (get_writable_size b == 0) || (stopped ret && ltb 0 (get_readable_size b))

unfoldable pub is_error : Flushed → Bool
is_error send_error = true
is_error (flushed ret) = false

-- `KIT_DESTROY_BUFFER(send_bufs_)`, where it is called: the buffer afterwards.
unfoldable pub destroy_bufs : Flushed → Sender → Run (Option Buffer × Sender)
unfolding is_error
destroy_bufs ret s = elim (is_error ret || (get_readable_size s.send_bufs == 0)) [
  | false ↦ done (some s.send_bufs, s)
  | true ↦ elim (destroy_buffer s.send_bufs s.pool) [
    | none ↦ fault
    | some (kept, pool) ↦ done (none, record s { pool = pool })
  ]
]

-- `send_bufs_`, which stands beside the other members since it may be NULL; a loop without an end in
-- the pool is a fault.
unfoldable pub open_bufs : Allocator → Option Buffer → Sender → Run Sender
open_bufs alloc (some b) s = done (record s { send_bufs = b })
open_bufs alloc none s = elim (create_buffer alloc packet_size s.pool) [
  | none ↦ fault
  | some (b, pool) ↦ done (record s { send_bufs = b; pool = pool })
]

module _ {W : Type 0} (send : System W) where
  -- The loop of `sendBuffer`. Out of fuel is a fault too.
  unfoldable pub send_loop : ℕ → ℕ → ℕ → Buffer → Line W → Run (Option ℕ × Buffer × Line W)
  unfolding after_send
  send_loop zero nsize nsend b line = fault
  send_loop (suc fuel) nsize nsend b line = elim (ltb nsend nsize) [
    | false ↦ done (some nsend, b, line)
    | true ↦ copy_out b.mem b.read_cur (nsize - nsend) >>= λ bytes.
        after_send (send_loop fuel nsize) nsend bytes b line (send line.system bytes)
  ]

  unfoldable pub send_buffer : Buffer → Line W → Run (Option ℕ × Buffer × Line W)
  unfolding send_loop
  send_buffer b line =
      let nsize = to_u32 (get_readable_size b) in send_loop (suc nsize) nsize 0 b line

  -- `sendBuffer`, where it is due; `false` for an error.
  unfoldable pub send_due : Sent → Sender → Line W → Run (Bool × Sender × Line W)
  unfolding is_due send_buffer
  send_due ret s line = elim (is_due ret s.send_bufs) [
    | false ↦ done (true, s, line)
    | true ↦ send_buffer s.send_bufs line >>= λ r. elim r.0 [
      | none ↦ done (false, record s { send_bufs = r.1 }, r.2)
      | some n ↦ done (true, record s { send_bufs = r.1 }, r.2)
    ]
  ]

  -- The loop of `flushSend`; `doSend` never returns SOCKET_SEND_ERROR. Out of fuel is a fault too.
  unfoldable pub flush_loop : Allocator → ℕ → Sender → Line W → Run (Flushed × Sender × Line W)
  unfolding send_due
  flush_loop alloc zero s line = fault
  flush_loop alloc (suc fuel) s line = do_send alloc s >>= λ r. send_due r.0 r.1 line >>= λ t.
      elim t.0 [
        | false ↦ done (send_error, t.1, t.2)
        | true ↦ elim (stopped r.0) [
          | true ↦ done (flushed r.0, t.1, t.2)
          | false ↦ flush_loop alloc fuel t.1 t.2
        ]
      ]

  unfoldable pub flush_send :
      Allocator
      → ℕ
      → Option Buffer
      → Sender
      → Line W
      → Run (Flushed × Option Buffer × Sender × Line W)
  unfolding open_bufs flush_loop destroy_bufs
  flush_send alloc fuel bufs s line = open_bufs alloc bufs s >>= λ t.
      flush_loop alloc fuel t line >>= λ r. destroy_bufs r.0 r.1 >>= λ d. done (r.0, d.0, d.1, r.2)

  -- `sendPacket`: `ready_out` is the member; without it the packet waits, and the result is 0.
  unfoldable pub send_packet :
      Allocator
      → ℕ
      → Bool
      → Packet
      → Option Buffer
      → Sender
      → Line W
      → Run (Flushed × Option Buffer × Sender × Line W)
  unfolding flush_send
  send_packet alloc fuel ready_out p bufs s line =
      QList.push packet_queue_length p s.send_que >>= λ que. elim ready_out [
        | true ↦ flush_send alloc fuel bufs (record s { send_que = que }) line
        | false ↦ done (flushed (count 0), bufs, record s { send_que = que }, line)
      ]
