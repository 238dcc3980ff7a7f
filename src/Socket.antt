-- ===== src/Socket.antt =====
-- network/Socket.h and network/Socket.cpp, class ISocket: packets out of the bytes that arrive.
pub mod Copy
pub mod Partial
pub mod Body
pub mod Open
pub mod Receive
pub mod Stream
pub mod Deliver
pub mod Send
pub mod Flush
pub mod Fixtures
mod Tests
use Prim.Native.Nat.{min}
use gearkit.Base.{
  ℕ, ◌+◌, ◌-◌, ◌%◌, ◌^◌, Option, none, some, Bool, true, false, ltb, ◌==◌, if◌then◌else◌,
}
use gearkit.Base.Run.{Run, done, fault, ◌>>=◌}
use gearkit.Buffer.{Buffer, reset, skip_read, write_buffer, get_readable_size, get_writable_size}
use gearkit.Buffer.Memory.{Allocator, copy_out}
use gearkit.BufferPool.{BufferPool, create_buffer}
use gearkit.Packet.{PacketHeader, Packet, set_buffer, unpack_header}
use gearkit.QList.{QList, push}

-- PACKET_QUEUE_LENGTH
abbrev pub packet_queue_length : ℕ
packet_queue_length = 200

-- The members for what arrives, and the pool behind `g_BufPool`. A buffer or a packet has one
-- reference that is used, so it is kept by value.
pub record Socket : Type 0 where
  pub packet_seed : ℕ
  pub recv_head_buf : Buffer
  pub recv_buf : Option Buffer
  pub recv_bufs : Buffer
  pub recv_packet : Option Packet
  pub recv_que : QList Packet
  pub pool : BufferPool

-- What `doRecv` returns: SOCKET_RECV_ERROR or a number of bytes, where 0 is SOCKET_RP_BLOCK.
pub data Received : Type 0 where
  recv_error : Received
  count : ℕ → Received

-- `uint32_t` of a size
abbrev pub to_u32 : ℕ → ℕ
to_u32 n = n % 2 ^ 32

-- `dst->writeBuffer(src->readCur(), nsize)` and `src->skipRead(nsize)`
unfoldable pub transfer : Allocator → ℕ → Buffer → Buffer → Run (Buffer × Buffer)
transfer alloc nsize dst src = copy_out src.mem src.read_cur nsize >>= λ bytes.
    write_buffer alloc bytes dst >>= λ r. done (r.1, skip_read nsize src)

-- `recvPacket(recv_packet_)` and its release.
unfoldable pub recv_packet : Packet → Socket → Run Socket
recv_packet p s = push packet_queue_length p s.recv_que >>= λ que.
    done (record s { recv_que = que; recv_packet = none })

-- A packet, if there is none; `fresh` is the header that `create` leaves unset.
unfoldable pub start_packet : PacketHeader → Socket → Packet × Socket
start_packet fresh s = elim s.recv_packet [
  | some p ↦ (p, s)
  | none ↦
      let p : Packet = record { header = fresh; buf = none } in
      (p, record s { recv_packet = some p; recv_head_buf = reset s.recv_head_buf })
]

-- The header: `rest_header_size` and `rest_size` afterwards.
unfoldable pub recv_header : Allocator → ℕ → Socket → Run (ℕ × ℕ × Socket)
recv_header alloc rest_size s =
    let rest_header_size = to_u32 (get_writable_size s.recv_head_buf) in
    if ltb 0 rest_header_size
    then (let nsize = min rest_header_size rest_size in
        transfer alloc nsize s.recv_head_buf s.recv_bufs >>= λ r. done (
          rest_header_size - nsize,
          rest_size - nsize,
          record s { recv_head_buf = r.0; recv_bufs = r.1 },
        ))
    else done (rest_header_size, rest_size, s)

-- `recv_buf_ = KIT_CREATE_BUFFER(nsize)`; a loop without an end is a fault.
unfoldable pub create_recv_buf : Allocator → ℕ → Socket → Run Socket
create_recv_buf alloc nsize s = elim (create_buffer alloc nsize s.pool) [
  | none ↦ fault
  | some (buf, pool) ↦ done (record s { recv_buf = some buf; pool = pool })
]

-- The header is unpacked, and a buffer made for the body; `false` where the seed is wrong. What
-- `recvClear` drops stands behind a system call.
unfoldable pub open_packet : Allocator → Packet → Socket → Run (Bool × Packet × Socket)
unfolding create_recv_buf
open_packet alloc p s = unpack_header p s.recv_head_buf >>= λ r.
    let s' = record s { recv_packet = some r.0; recv_head_buf = r.1 } in
    if r.0.header.seed == s.packet_seed
    then (if ltb 0 r.0.header.length
        then (create_recv_buf alloc r.0.header.length s' >>= λ t. done (true, r.0, t))
        else done (true, r.0, s'))
    else done (false, r.0, record s' { recv_packet = none })

-- The body, into `buf`.
unfoldable pub recv_body : Allocator → ℕ → ℕ → Packet → Buffer → Socket → Run (Received × Socket)
unfolding recv_packet
recv_body alloc total rest_size p buf s =
    let rest_buffer_size = to_u32 (get_writable_size buf) in
    let nsize = min rest_size rest_buffer_size in
    if ltb 0 rest_buffer_size
    then (transfer alloc nsize buf s.recv_bufs >>= λ r.
        if ltb 0 (rest_buffer_size - nsize)
        then done (count 0, record s { recv_buf = some r.0; recv_bufs = r.1 })
        else (recv_packet (set_buffer (some r.0) p) (record s { recv_buf = none; recv_bufs = r.1 })
            >>= λ t. done (count (total - (rest_size - nsize)), t)))
    else (recv_packet (set_buffer (some buf) p) (record s { recv_buf = none }) >>= λ t.
        done (count (total - rest_size), t))

-- From `if (! recv_buf_)` on, the second time.
unfoldable pub recv_rest : Allocator → ℕ → ℕ → Packet → Socket → Run (Received × Socket)
unfolding recv_packet recv_body
recv_rest alloc total rest_size p s = elim s.recv_buf [
  | none ↦ recv_packet p s >>= λ t. done (count (total - rest_size), t)
  | some buf ↦ if rest_size == 0 then done (count 0, s) else recv_body alloc total rest_size p buf s
]

-- From `if (! recv_buf_)` on, where there is no buffer for the body yet.
unfoldable pub recv_unopened : Allocator → ℕ → ℕ → Packet → Socket → Run (Received × Socket)
unfolding open_packet recv_rest
recv_unopened alloc total rest_size p s = open_packet alloc p s >>= λ r. elim r.0 [
  | false ↦ done (recv_error, r.2)
  | true ↦ recv_rest alloc total rest_size r.1 r.2
]

-- `doRecv` after the header.
unfoldable pub recv_opened : Allocator → ℕ → ℕ → Packet → Socket → Run (Received × Socket)
unfolding recv_unopened recv_rest
recv_opened alloc total rest_size p s = elim s.recv_buf [
  | some buf ↦ recv_rest alloc total rest_size p s
  | none ↦ recv_unopened alloc total rest_size p s
]

-- `doRecv` from the header on.
unfoldable pub recv_started : Allocator → ℕ → Packet → Socket → Run (Received × Socket)
unfolding recv_header recv_opened
recv_started alloc total p s = recv_header alloc total s >>= λ r.
    if ltb 0 r.0 then done (count 0, r.2) else recv_opened alloc total r.1 p r.2

unfoldable pub do_recv : Allocator → PacketHeader → Socket → Run (Received × Socket)
unfolding start_packet recv_started
do_recv alloc fresh s =
    let (p, s') = start_packet fresh s in
    recv_started alloc (to_u32 (get_readable_size s.recv_bufs)) p s'
