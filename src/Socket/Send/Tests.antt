-- ===== src/Socket/Send/Tests.antt =====
-- A socket with nothing to send, and one with a part of a packet, and the theorem at a concrete input.
use gearkit.Socket.Fixtures.{blank_packet, no_packets, no_packets-Holds}
use gearkit.Base.{ℕ, ◌≤◌, refl, arith, [], some}
use gearkit.Base.Run.{Returns}
use gearkit.Buffer.{Buffer}
use gearkit.Buffer.Fixtures.{refusing, sixty_four, sixty_four-IsValid}
use gearkit.Socket.Send.{Sender, do_send}
use gearkit.Socket.Send.Pending.{IsSized}
use gearkit.Socket.Send.Conserve.{do_send-Conserved}
use gearkit.Socket.Send.Waiting.{Conserved}

-- A body of ten bytes, of which the first two have been sent.
abbrev body : Buffer
body = record sixty_four { write_cur = 10; read_cur = 2 }

-- A block with room for four bytes.
abbrev four_left : Buffer
four_left = record sixty_four { write_cur = 60; read_cur = 50 }

abbrev sending : Sender
sending = record {
  packet_seed = 0;
  send_head_buf = sixty_four;
  send_buf = some body;
  send_bufs = four_left;
  send_packet = some blank_packet;
  send_que = no_packets;
  pool = record { ques = [] };
}

sixty_four-IsSized : IsSized sixty_four
sixty_four-IsSized = record { valid = sixty_four-IsValid; small = omega arith }

moved-IsSized :
    (r w : ℕ) → r ≤ w → w ≤ 64 → IsSized (record sixty_four { write_cur = w; read_cur = r })
moved-IsSized r w h k = record {
  valid = record {
    read_in = h;
    write_in = k;
    tail_in = omega arith;
    block = refl;
    small = omega arith;
  };
  small = omega arith;
}

do_send-Conserved_example : Returns (do_send refusing sending) (Conserved sending [])
do_send-Conserved_example =
    do_send-Conserved refusing [] sending
      (record {
        head = sixty_four-IsSized;
        head_room = omega arith;
        bufs = moved-IsSized 50 60 (omega arith) (omega arith);
        body = moved-IsSized 2 10 (omega arith) (omega arith);
        between = λ e. absurd (cc);
      })
      (no_packets-Holds, tt)
