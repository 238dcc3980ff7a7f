-- ===== src/Session/Tests.antt =====
-- A socket that takes every packet, and the theorem at a concrete input.
use gearkit.Socket.Fixtures.{no_packets, no_packets-Holds, seventh, one_packet, one_packet-Holds}
use gearkit.Base.{arith, ◌≡◌, ℕ, ◌+◌, refl, [], ◌∷◌, some, Bool, true, false}
use gearkit.Base.Run.{Run, done, Returns}
use gearkit.Packet.{Packet}
use gearkit.Session.{Session, flush, set_socket}
use gearkit.Session.Flush.{Sent, Queued, flush-Sent}
use gearkit.Session.Pull.{set_socket_lem}
use gearkit.Socket.Flush.{Flushed, flushed}
use gearkit.Socket.Send.{send_clear}

abbrev take_packet : Packet → ℕ → Run (Flushed × ℕ)
take_packet p n = done (flushed send_clear, n + 1)

abbrev always : ℕ → Bool
always n = true

abbrev connected : Session ℕ
connected = record {
  sid = 1;
  socket = some 0;
  send_packets = one_packet;
  recv_packets = no_packets;
  out_dirty = false;
}

flush-Sent_example :
    Returns (flush take_packet always connected) (Sent take_packet always 0 (seventh ∷ []))
flush-Sent_example =
    flush-Sent take_packet always connected 0 (seventh ∷ []) refl one_packet-Holds
      (λ p k. ((flushed send_clear, k + 1), refl))

set_socket_lem_example :
    Returns
      (set_socket 5 one_packet connected)
      (λ r. Queued r.0 [] × (r.1.socket ≡ some 5) × Queued r.1.recv_packets (seventh ∷ []))
set_socket_lem_example =
    set_socket_lem 5 one_packet connected (seventh ∷ []) [] one_packet-Holds no_packets-Holds
      (omega arith)
