-- ===== src/Terminal/Dispatch.antt =====
-- `handleSessionRecv`, over protocols that are a parameter.
use gearkit.Base.Table.{put, put_self}
use gearkit.Base.{
  ℕ, suc, ◌^◌, ◌<◌, ◌≡◌, refl, sym, ap, subst, ◌∙◌, List, [], ◌∷◌, Option, none, some, Bool, true,
  length, inl, inr, Option-cases, lt→ltb, All,
}
use gearkit.Base.Run.{Run, done, Returns, ◌>>=◌}
use gearkit.Buffer.{Buffer}
use gearkit.Map.{Map}
use gearkit.Map
use gearkit.Packet.{Packet}
use gearkit.QList.{QList}
use gearkit.QList
use gearkit.Session.Flush.{Queued, Next, pop-Next}
use gearkit.Socket.{packet_queue_length}
use gearkit.Terminal.{Terminal, protocol_length, in_vec, receive, recv_loop, handle_session_recv}

module _ {W : Type 0} (unserialize : ℕ → Option Buffer → W → Run W)
    (recv_protocol : ℕ → ℕ → W → W) where
  -- What the packets of the session `sid`, in their order, do to the state: one whose protocol is known
  -- is unserialized and then received, one whose protocol is not known does nothing.
  pub data Handled (protocols : Map ℕ) (sid : ℕ) : List Packet → W → W → Type 0 where
    none_left : {w : W} → Handled protocols sid [] w w
    unknown :
        {p : Packet} {ps : List Packet} {w w' : W}
        → Map.get protocol_length protocols p.header.pid ≡ none
        → Handled protocols sid ps w w'
        → Handled protocols sid (p ∷ ps) w w'
    known :
        {p : Packet} {ps : List Packet} {w w' w'' : W} {protocol : ℕ}
        → Map.get protocol_length protocols p.header.pid ≡ some protocol
        → unserialize protocol p.buf w ≡ done w'
        → Handled protocols sid ps (recv_protocol sid protocol w') w''
        → Handled protocols sid (p ∷ ps) w w''

  -- A packet whose number is not negative, and whose body every protocol takes.
  pub record IsTaken (p : Packet) : Type 0 where
    pub number : p.header.pid < 2 ^ 31
    pub body : (protocol : ℕ) (w : W) → (w' : W) × (unserialize protocol p.buf w ≡ done w')

  inside : (p : Packet) → IsTaken p → in_vec protocol_length p.header.pid ≡ true
  inside p taken = rw (lt→ltb _ _ taken.number) refl

  receive_unknown :
      (protocols : Map ℕ) (sid : ℕ) (p : Packet) (w : W)
      → IsTaken p
      → Map.get protocol_length protocols p.header.pid ≡ none
      → receive unserialize recv_protocol protocols sid p w ≡ done w
  unfolding receive
  receive_unknown protocols sid p w taken e = rw (receive, inside p taken, e) refl

  receive_known :
      (protocols : Map ℕ) (sid : ℕ) (p : Packet) (w w' : W) (protocol : ℕ)
      → IsTaken p
      → Map.get protocol_length protocols p.header.pid ≡ some protocol
      → unserialize protocol p.buf w ≡ done w'
      → receive unserialize recv_protocol protocols sid p w ≡ done (recv_protocol sid protocol w')
  unfolding receive
  receive_known protocols sid p w w' protocol taken e run =
      rw (receive, inside p taken, e, run) refl

  loop_run :
      (protocols : Map ℕ) (sid n : ℕ) (p : Packet) (ps : List Packet) (que : QList Packet)
      (w w' : W) (r : Bool × Option Packet × QList Packet)
      → QList.pop packet_queue_length que ≡ done r
      → Next p ps r
      → receive unserialize recv_protocol protocols sid p w ≡ done w'
      → recv_loop unserialize recv_protocol protocols sid (suc n) que w
        ≡ recv_loop unserialize recv_protocol protocols sid n r.2 w'
  unfolding recv_loop
  loop_run protocols sid n p ps que w w' r run next got =
      rw (recv_loop, run, ◌>>=◌, next.answer, next.out, got) refl

  abbrev Emptied : Map ℕ → ℕ → List Packet → W → QList Packet × W → Type 0
  Emptied protocols sid ps w r = Queued r.0 [] × Handled protocols sid ps w r.1

  recv_loop_lem :
      (protocols : Map ℕ) (sid : ℕ) (ps : List Packet) (que : QList Packet) (w : W)
      → Queued que ps
      → All IsTaken ps
      → Returns
          (recv_loop unserialize recv_protocol protocols sid (length ps) que w)
          (Emptied protocols sid ps w)
  unfolding recv_loop
  recv_loop_lem protocols sid [] que w h taken = ((que, w), refl, (h, none_left))
  recv_loop_lem protocols sid (p ∷ ps) que w h (one, taken) =
      let (r, run, next) = pop-Next p ps que h in
      elim (Option-cases (Map.get protocol_length protocols p.header.pid)) [
        | inl e ↦
            let (u, rest, (left, f)) = recv_loop_lem protocols sid ps r.2 w next.left taken in
            (
              u,
              loop_run protocols sid (length ps) p ps que w w r run next
                    (receive_unknown protocols sid p w one e)
                  ∙ rest,
              (left, unknown e f),
            )
        | inr (protocol, e) ↦
            let (w', got) = one.body protocol w in
            let (u, rest, (left, f)) =
              recv_loop_lem protocols sid ps r.2 (recv_protocol sid protocol w') next.left taken in
            (
              u,
              loop_run protocols sid (length ps) p ps que w _ r run next
                    (receive_known protocols sid p w w' protocol one e got)
                  ∙ rest,
              (left, known e got f),
            )
      ]

  module _ {S : Type 0} where
    handle_run :
        (session : ℕ) (t : Terminal S W) (r : QList Packet × W)
        → recv_loop unserialize recv_protocol t.protocol_map
            (t.sessions session).sid
            (t.sessions session).recv_packets.count
            (t.sessions session).recv_packets
            t.state
          ≡ done r
        → handle_session_recv unserialize recv_protocol session t
          ≡ done (record t {
            sessions = put session (record (t.sessions session) { recv_packets = r.0 }) t.sessions;
            state = r.1;
          })
    unfolding handle_session_recv
    handle_run session t r run = rw (handle_session_recv, run) refl

    -- `handleSessionRecv` comes to its end for a session whose queue holds packets with numbers below
    -- 2 ^ 31 and bodies that `unserialize` of every protocol takes. Each of them whose protocol is known
    -- is unserialized and received, in the order of the queue, the others do nothing, and the queue is
    -- empty.
    pub handle_session_recv_lem :
        (session : ℕ) (t : Terminal S W) (ps : List Packet)
        → Queued (t.sessions session).recv_packets ps
        → All IsTaken ps
        → Returns (handle_session_recv unserialize recv_protocol session t) (λ t'.
          Queued (t'.sessions session).recv_packets []
          × Handled t.protocol_map (t.sessions session).sid ps t.state t'.state)
    handle_session_recv_lem session t ps h taken =
        let s = t.sessions session in
        let (r, run, (left, e)) =
          recv_loop_lem t.protocol_map s.sid ps s.recv_packets t.state h taken in
        let size =
          ap
            (λ n. recv_loop unserialize recv_protocol t.protocol_map s.sid n s.recv_packets t.state)
            h.counted in
        (
          _,
          handle_run session t r (size ∙ run),
          (
            subst (λ u. Queued u.recv_packets [])
                (sym (put_self session (record s { recv_packets = r.0 }) t.sessions)) left,
            e,
          ),
        )
