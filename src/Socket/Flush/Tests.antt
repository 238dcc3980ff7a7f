-- ===== src/Socket/Flush/Tests.antt =====
-- A system that takes three bytes a call, and the theorem at a concrete input.
use gearkit.Socket.Fixtures.{blank_packet, no_packets}
use Prim.Native.Nat.{min}
use gearkit.Base.{ℕ, ◌+◌, [], some, length}
use gearkit.Buffer.{Buffer}
use gearkit.Buffer.Fixtures.{sixty_four}
use gearkit.Socket.Send.{Sender}
use gearkit.Socket.Flush.{System, took, Line}

abbrev slow : System ℕ
slow w bytes = (took (min 3 (length bytes)), w + 1)

-- Ten bytes wait in the buffer, and eight of an open packet.
abbrev outgoing : Buffer
outgoing = record sixty_four { write_cur = 60; read_cur = 50 }

abbrev body : Buffer
body = record sixty_four { write_cur = 10; read_cur = 2 }

abbrev sending : Sender
sending = record {
  packet_seed = 0;
  send_head_buf = sixty_four;
  send_buf = some body;
  send_bufs = outgoing;
  send_packet = some blank_packet;
  send_que = no_packets;
  pool = record { ques = [] };
}

abbrev start : Line ℕ
start = record { system = 0; wire = [] }
