-- ===== src/Terminal.antt =====
-- network/Terminal.h and network/Terminal.cpp, class Terminal: sessions and protocols by their numbers.
pub mod Dispatch
pub mod Out
mod Tests
use gearkit.Base.Table.{put}
use gearkit.Base.{
  ℕ, zero, suc, ◌-◌, ◌%◌, ◌^◌, ◌||◌, ltb, List, [], ◌∷◌, ◌++◌, Option, none, some, Bool, true,
  false, ◌==◌, length, get_elem?, set, take,
}
use gearkit.Base.Run.{Run, done, fault, ◌>>=◌}
use gearkit.Buffer.{Buffer}
use gearkit.Map.{Map}
use gearkit.Map
use gearkit.Packet.{Packet}
use gearkit.QList.{QList}
use gearkit.QList
use gearkit.Session.{Session}
use gearkit.Session
use gearkit.Socket.{packet_queue_length}
use gearkit.Socket.Flush.{Flushed}

-- SESSION_LENGTH and PROTOCOL_LENGTH
abbrev pub session_length : ℕ
session_length = 1024

abbrev pub protocol_length : ℕ
protocol_length = 512

-- The members, with the sessions at their addresses. A protocol is its address; what it does is done to
-- the state `W`.
pub record Terminal (S W : Type 0) : Type 0 where
  pub session_map : Map ℕ
  pub protocol_map : Map ℕ
  pub out_vec : List ℕ
  pub sessions : ℕ → Session S
  pub state : W

module _ {S W : Type 0} where
  pub del_session : ℕ → Terminal S W → Terminal S W
  del_session sid t = record t { session_map = (Map.del session_length sid t.session_map).2 }

  pub add_session : ℕ → Terminal S W → Terminal S W
  unfolding del_session
  add_session session t =
      let sid = (t.sessions session).sid in
      let t' = del_session sid t in
      record t' { session_map = Map.set session_length sid session t'.session_map }

  pub get_session : ℕ → Terminal S W → Option ℕ
  get_session sid t = Map.get session_length t.session_map sid

  pub del_protocol : ℕ → Terminal S W → Terminal S W
  del_protocol pid t = record t { protocol_map = (Map.del protocol_length pid t.protocol_map).2 }

  -- `init` is the protocol's method of that name.
  pub add_protocol : (ℕ → ℕ → W → W) → ℕ → ℕ → Terminal S W → Terminal S W
  unfolding del_protocol
  add_protocol init pid protocol t =
      let t' = del_protocol pid t in
      record t' {
        protocol_map = Map.set protocol_length pid protocol t'.protocol_map;
        state = init protocol pid t.state;
      }

  pub get_protocol : ℕ → Terminal S W → Option ℕ
  get_protocol pid t = Map.get protocol_length t.protocol_map pid

  pub clear_protocols : Terminal S W → Terminal S W
  clear_protocols t = record t { protocol_map = (Map.clear t.protocol_map).1 }

  pub clear_sessions : Terminal S W → Terminal S W
  clear_sessions t = record t { session_map = (Map.clear t.session_map).1 }

-- Whether a map with so many chains looks for the bits of an `int32_t` inside `vec_`: a negative key
-- that the length does not divide gives a negative index.
abbrev pub in_vec : ℕ → ℕ → Bool
in_vec length key = ltb key (2 ^ 31) || (key % length == 0)

-- `unserialize` of a protocol, which may be a fault, as that of a protocol with members for the NULL
-- body of an empty packet is, and `recvProtocol`.
module _ {W : Type 0} (unserialize : ℕ → Option Buffer → W → Run W)
    (recv_protocol : ℕ → ℕ → W → W) where
  -- A packet of the session `sid`.
  unfoldable pub receive : Map ℕ → ℕ → Packet → W → Run W
  receive protocols sid p w = elim (in_vec protocol_length p.header.pid) [
    | false ↦ fault
    | true ↦ elim (Map.get protocol_length protocols p.header.pid) [
      | none ↦ done w
      | some protocol ↦ unserialize protocol p.buf w >>= λ w'. done (recv_protocol sid protocol w')
    ]
  ]

  -- The loop of `handleSessionRecv` for a number of packets.
  unfoldable pub recv_loop : Map ℕ → ℕ → ℕ → QList Packet → W → Run (QList Packet × W)
  unfolding receive
  recv_loop protocols sid zero que w = done (que, w)
  recv_loop protocols sid (suc n) que w = QList.pop packet_queue_length que >>= λ r. elim r.0 [
    | false ↦ done (r.2, w)
    | true ↦ elim r.1 [
      | none ↦ fault
      | some p ↦ receive protocols sid p w >>= λ w'. recv_loop protocols sid n r.2 w'
    ]
  ]

  unfoldable pub handle_session_recv : {S : Type 0} → ℕ → Terminal S W → Run (Terminal S W)
  unfolding recv_loop put
  handle_session_recv session t =
      let s = t.sessions session in
      recv_loop t.protocol_map s.sid s.recv_packets.count s.recv_packets t.state >>= λ r.
      done (record t {
        sessions = put session (record s { recv_packets = r.0 }) t.sessions;
        state = r.1;
      })

-- `sendPacket` and `valid` of a socket.
module _ {S : Type 0} (send : Packet → S → Run (Flushed × S)) (valid : S → Bool) where
  unfoldable pub session_send_packet : {W : Type 0} → ℕ → Packet → Terminal S W → Run (Terminal S W)
  unfolding put
  session_send_packet session p t = Session.send_packet send valid p (t.sessions session) >>= λ r.
      let sent = record t { sessions = put session r.1 t.sessions } in
      elim r.0 [
        | true ↦ done sent
        | false ↦ done (record sent { out_vec = t.out_vec ++ (session ∷ []) })
      ]

  unfoldable pub handle_session_send : ℕ → (ℕ → Session S) → Run (ℕ → Session S)
  unfolding put
  handle_session_send session sessions = Session.flush send valid (sessions session) >>= λ r.
      elim r.0 [
        | true ↦ done (put session r.1 sessions)
        | false ↦ done (put session (record r.1 { out_dirty = false }) sessions)
      ]

  -- The loop of `handleOutSession`: `out_vec_[length]` is read where a session leaves. Out of fuel is
  -- a fault too.
  unfoldable pub out_loop : ℕ → ℕ → ℕ → List ℕ → (ℕ → Session S) → Run (List ℕ × (ℕ → Session S))
  unfolding handle_session_send
  out_loop zero i len out sessions = fault
  out_loop (suc fuel) i len out sessions = elim (i == len) [
    | true ↦ done (take len out, sessions)
    | false ↦ elim (get_elem? out i) [
      | none ↦ fault
      | some session ↦ handle_session_send session sessions >>= λ sessions'.
          elim (sessions' session).out_dirty [
            | true ↦ out_loop fuel (suc i) len out sessions'
            | false ↦ elim (get_elem? out len) [
              | none ↦ fault
              | some other ↦
                  out_loop fuel i (len - 1) (set (set out i other) (len - 1) session) sessions'
            ]
          ]
    ]
  ]

  unfoldable pub handle_out_session : {W : Type 0} → Terminal S W → Run (Terminal S W)
  unfolding out_loop
  handle_out_session t = elim (length t.out_vec == 0) [
    | true ↦ done t
    | false ↦ out_loop (suc (length t.out_vec)) 0 (length t.out_vec) t.out_vec t.sessions >>= λ r.
        done (record t { out_vec = r.0; sessions = r.1 })
  ]
