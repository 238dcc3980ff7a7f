-- ===== src/Session.antt =====
-- network/Session.h and network/Session.cpp, class Session: packets between a terminal and a socket.
pub mod Flush
pub mod Pull
mod Tests
use gearkit.Base.{
  ℕ, zero, suc, List, Option, none, some, Bool, true, false, ◌==◌, ◌&&◌, if◌then◌else◌,
}
use gearkit.Base.Run.{Run, done, fault, ◌>>=◌}
use gearkit.Packet.{Packet}
use gearkit.QList.{QList}
use gearkit.QList
use gearkit.Socket.{packet_queue_length}
use gearkit.Socket.Send.{send_clear, count}
use gearkit.Socket.Flush.{Flushed, send_error, flushed}

-- The members but for the time. The socket is in the state `S`, and a packet has no owner.
pub record Session (S : Type 0) : Type 0 where
  pub sid : ℕ
  pub socket : Option S
  pub send_packets : QList Packet
  pub recv_packets : QList Packet
  pub out_dirty : Bool

-- `ret == 0`
unfoldable pub is_zero : Flushed → Bool
is_zero send_error = false
is_zero (flushed send_clear) = false
is_zero (flushed (count n)) = n == 0

-- `ISocket::pullPacketsToSession` for a number of packets: the queue of the socket and that of the
-- session.
unfoldable pub pull : ℕ → QList Packet → QList Packet → Run (QList Packet × QList Packet)
pull zero from to = done (from, to)
pull (suc n) from to = QList.pop packet_queue_length from >>= λ r. elim r.0 [
  | false ↦ done (r.2, to)
  | true ↦ elim r.1 [
    | none ↦ fault
    | some p ↦ QList.push packet_queue_length p to >>= λ to'. pull n r.2 to'
  ]
]

module _ {S : Type 0} where
  -- `++session_id_count_`, and the empty queues.
  pub new : ℕ → QList Packet → QList Packet → ℕ × Session S
  new session_id_count sends recvs = (
    suc session_id_count,
    record {
      sid = suc session_id_count;
      socket = none;
      send_packets = sends;
      recv_packets = recvs;
      out_dirty = false;
    },
  )

  -- `setSocket` for a socket whose queue is `from`: the queue afterwards.
  unfoldable pub set_socket : S → QList Packet → Session S → Run (QList Packet × Session S)
  unfolding pull
  set_socket sock from s = pull from.count from s.recv_packets >>= λ r.
      done (r.0, record s { socket = some sock; recv_packets = r.1 })

  unfoldable pub recv_packet : Packet → Session S → Run (Session S)
  recv_packet p s = QList.push packet_queue_length p s.recv_packets >>= λ que.
      done (record s { recv_packets = que })

  module _ (send : Packet → S → Run (Flushed × S)) (valid : S → Bool) where
    keep : Packet → Session S → Run (Bool × Session S)
    keep p s = QList.push packet_queue_length p s.send_packets >>= λ que.
        done (false, record s { send_packets = que })

    unfoldable pub send_packet : Packet → Session S → Run (Bool × Session S)
    unfolding keep is_zero
    send_packet p s = elim s.socket [
      | none ↦ keep p s
      | some sock ↦ elim ((s.send_packets.count == 0) && valid sock) [
        | false ↦ keep p s
        | true ↦ send p sock >>= λ r. done (is_zero r.0, record s { socket = some r.1 })
      ]
    ]

    -- `socket_->sendPacket(pk)`, where `again` are the rounds that follow; without a socket it is a null
    -- pointer.
    unfoldable pub send_popped :
        (Session S → Run (Bool × Session S)) → Packet → Session S → Run (Bool × Session S)
    unfolding is_zero
    send_popped again p s = elim s.socket [
      | none ↦ fault
      | some sock ↦ send p sock >>= λ r. elim (is_zero r.0) [
        | true ↦ again (record s { socket = some r.1 })
        | false ↦ done (false, record s { socket = some r.1 })
      ]
    ]

    unfoldable pub popped :
        (Session S → Run (Bool × Session S))
        → Bool × Option Packet × QList Packet
        → Session S
        → Run (Bool × Session S)
    unfolding send_popped
    popped again (false, out, que) s = done (true, record s { send_packets = que })
    popped again (true, none, que) s = fault
    popped again (true, some p, que) s = send_popped again p (record s { send_packets = que })

    -- The loop of `flush`. Out of fuel is a fault too.
    unfoldable pub flush_loop : ℕ → Session S → Run (Bool × Session S)
    unfolding popped
    flush_loop zero s = fault
    flush_loop (suc fuel) s =
        QList.pop packet_queue_length s.send_packets >>= λ r. popped (flush_loop fuel) r s

    unfoldable pub flush : Session S → Run (Bool × Session S)
    unfolding flush_loop
    flush s = flush_loop (suc s.send_packets.count) s
