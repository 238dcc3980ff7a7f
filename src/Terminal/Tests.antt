-- ===== src/Terminal/Tests.antt =====
-- A terminal with one session, and the theorems at concrete inputs.
use gearkit.Socket.Fixtures.{no_packets, seventh, one_packet, one_packet-Holds}
use gearkit.Base.{ℕ, arith, ◌+◌, ◌≡◌, refl, [], ◌∷◌, Option, some, Bool, true, false}
use gearkit.Base.Run.{Run, done, fault, Returns}
use gearkit.Buffer.{Buffer}
use gearkit.Map
use gearkit.Packet.{Packet}
use gearkit.Session.Flush.{Queued}
use gearkit.Socket.Flush.{Flushed, flushed}
use gearkit.Socket.Send.{send_clear}
use gearkit.Terminal.{
  Terminal, session_length, protocol_length, handle_session_recv, handle_out_session,
}
use gearkit.Terminal.Dispatch.{Handled, handle_session_recv_lem}
use gearkit.Terminal.Out.{handle_out_session_faults}

abbrev take_packet : Packet → ℕ → Run (Flushed × ℕ)
take_packet p n = done (flushed send_clear, n + 1)

abbrev always : ℕ → Bool
always n = true

abbrev count_up : ℕ → Option Buffer → ℕ → Run ℕ
count_up protocol buf n = done (n + 1)

abbrev leave : ℕ → ℕ → ℕ → ℕ
leave sid protocol n = n

abbrev terminal : Terminal ℕ ℕ
terminal = record {
  session_map = Map.new session_length;
  protocol_map = Map.set protocol_length 7 9 (Map.new protocol_length);
  out_vec = 3 ∷ [];
  sessions = λ address. record {
    sid = 1;
    socket = some 0;
    send_packets = no_packets;
    recv_packets = one_packet;
    out_dirty = false;
  };
  state = 0;
}

handle_session_recv_lem_example : Returns (handle_session_recv count_up leave 3 terminal) (λ t.
    Queued (t.sessions 3).recv_packets []
    × Handled count_up leave terminal.protocol_map 1 (seventh ∷ []) 0 t.state)
handle_session_recv_lem_example =
    handle_session_recv_lem count_up leave 3 terminal (seventh ∷ []) one_packet-Holds
      (record { number = omega arith; body = λ protocol w. (w + 1, refl) }, tt)

handle_out_session_faults_example : handle_out_session take_packet always terminal ≡ fault
handle_out_session_faults_example =
    handle_out_session_faults take_packet always terminal 3 [] refl refl
