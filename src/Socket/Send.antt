-- ===== src/Socket/Send.antt =====
-- network/Socket.h and network/Socket.cpp, class ISocket: packets into the bytes that are sent.
pub mod Pending
pub mod Stream
pub mod Call
pub mod Order
pub mod Whole
pub mod Waiting
pub mod Conserve
mod Tests
use Prim.Native.Nat.{min}
use gearkit.Base.{ℕ, ◌+◌, ◌-◌, Option, none, some, Bool, true, false, ltb, ◌==◌, if◌then◌else◌}
use gearkit.Base.Run.{Run, done, fault, ◌>>=◌}
use gearkit.Buffer.{Buffer, reset, skip_read, write_buffer, get_readable_size, get_writable_size}
use gearkit.Buffer.Memory.{Allocator, copy_out}
use gearkit.BufferPool.{BufferPool, destroy_buffer}
use gearkit.Packet.{Packet, set_seed, del_buffer, pack_header}
use gearkit.QList.{QList}
use gearkit.QList
use gearkit.Socket.{to_u32, transfer, packet_queue_length}

-- The members for what is sent, and the pool behind `g_BufPool`. The buffers have one reference.
pub record Sender : Type 0 where
  pub packet_seed : ℕ
  pub send_head_buf : Buffer
  pub send_buf : Option Buffer
  pub send_bufs : Buffer
  pub send_packet : Option Packet
  pub send_que : QList Packet
  pub pool : BufferPool

-- What `doSend` returns: SOCKET_SP_CLEAR or a number of bytes, where 0 is SOCKET_SP_BLOCK.
pub data Sent : Type 0 where
  send_clear : Sent
  count : ℕ → Sent

-- `KIT_DESTROY_BUFFER(send_buf_)`; a loop without an end is a fault.
unfoldable pub destroy_send_buf : Sender → Run Sender
destroy_send_buf s = elim s.send_buf [
  | none ↦ done s
  | some buf ↦ elim (destroy_buffer buf s.pool) [
    | none ↦ fault
    | some (kept, pool) ↦ done (record s { send_buf = none; pool = pool })
  ]
]

-- A packet out of the queue: its header is written, and its body taken out of it.
unfoldable pub open_packet : Allocator → Packet → Sender → Run Sender
unfolding destroy_send_buf
open_packet alloc p s =
    pack_header alloc (set_seed s.packet_seed p) (reset s.send_head_buf) >>= λ head.
    destroy_send_buf (record s { send_head_buf = head }) >>= λ t.
    done (record t { send_packet = some (del_buffer (set_seed s.packet_seed p)); send_buf = p.buf })

-- The header: `rest_header_size` and `rest_size` afterwards.
unfoldable pub send_header : Allocator → ℕ → Sender → Run (ℕ × ℕ × Sender)
send_header alloc rest_size s =
    let rest_header_size = to_u32 (get_readable_size s.send_head_buf) in
    if ltb 0 rest_header_size
    then (let nsize = min rest_header_size rest_size in
        transfer alloc nsize s.send_bufs s.send_head_buf >>= λ r. done (
          rest_header_size - nsize,
          rest_size - nsize,
          record s { send_bufs = r.0; send_head_buf = r.1 },
        ))
    else done (rest_header_size, rest_size, s)

-- The body has gone: the packet and its buffer are released.
unfoldable pub send_done : ℕ → ℕ → Sender → Run (Sent × Sender)
unfolding destroy_send_buf
send_done total rest_size s = destroy_send_buf (record s { send_packet = none }) >>= λ t.
    done (if rest_size == 0 then count 0 else count (total - rest_size), t)

-- The body, out of `buf`.
unfoldable pub send_body : Allocator → ℕ → ℕ → Buffer → Sender → Run (Sent × Sender)
unfolding send_done
send_body alloc total rest_size buf s =
    let rest_buffer_size = to_u32 (get_readable_size buf) in
    let nsize = min rest_size rest_buffer_size in
    if ltb 0 rest_buffer_size
    then (transfer alloc nsize s.send_bufs buf >>= λ r.
        let t = record s { send_bufs = r.0; send_buf = some r.1 } in
        if ltb 0 (rest_buffer_size - nsize)
        then done (count 0, t)
        else send_done total (rest_size - nsize) t)
    else send_done total rest_size s

-- From `if (! send_buf_)` on.
unfoldable pub send_rest : Allocator → ℕ → ℕ → Sender → Run (Sent × Sender)
unfolding send_body
send_rest alloc total rest_size s = elim s.send_buf [
  | none ↦ done (count (total - rest_size), record s { send_packet = none })
  | some buf ↦ if rest_size == 0 then done (count 0, s) else send_body alloc total rest_size buf s
]

-- From the header on.
unfoldable pub send_opened : Allocator → ℕ → Sender → Run (Sent × Sender)
unfolding send_header send_rest
send_opened alloc total s = send_header alloc total s >>= λ r.
    if ltb 0 r.0 then done (count 0, r.2) else send_rest alloc total r.1 r.2

-- What `send_que_.pop` hands out, if it does.
unfoldable pub send_popped :
    Allocator → ℕ → Bool × Option Packet × QList Packet → Sender → Run (Sent × Sender)
unfolding open_packet send_opened
send_popped alloc total (true, some p, que) s =
    open_packet alloc p (record s { send_que = que }) >>= send_opened alloc total
send_popped alloc total (true, none, que) s = fault
send_popped alloc total (false, out, que) s = done (send_clear, record s { send_que = que })

unfoldable pub do_send : Allocator → Sender → Run (Sent × Sender)
unfolding send_popped send_opened
do_send alloc s =
    let total = to_u32 (get_writable_size s.send_bufs) in
    elim s.send_packet [
      | some p ↦ send_opened alloc total s
      | none ↦ QList.pop packet_queue_length s.send_que >>= λ r. send_popped alloc total r s
    ]
