-- ===== src/Packet/Tests.antt =====
-- A packet without a body and one whose body is too long, and the theorem at a concrete input.
use gearkit.Base.{◌%◌, ◌^◌, ◌≡◌, refl, arith, [], none, some}
use gearkit.Base.Run.{Returns}
use gearkit.Buffer.{Buffer, get_written_size}
use gearkit.Buffer.Fixtures.{refusing, sixty_four, sixty_four-IsValid}
use gearkit.Buffer.Inv.{content}
use gearkit.Packet.{Packet, body_length, init, pack_header, unpack_header}
use gearkit.Packet.Header.{written, unpack_header-pack_header}

abbrev sender : Packet
sender = record { header = record { pid = 0; seed = 258; length = 0 }; buf = none }

abbrev receiver : Packet
receiver = record { header = record { pid = 0; seed = 0; length = 0 }; buf = none }

abbrev body : Buffer
body = record sixty_four { write_cur = 3 }

abbrev long_body : Buffer
long_body = record sixty_four { write_cur = 65536 }

-- The length of a body of 65536 bytes is sent as 0.
long_body_lost : body_length (some long_body) ≡ 0
unfolding body_length get_written_size
long_body_lost = refl

unpack_header-pack_header_example :
    Returns (pack_header refusing (init 70000 (some body) sender) sixty_four) λ b'.
      Returns (unpack_header receiver b') λ r.
        (r.0.header ≡ record { pid = 70000; seed = 258; length = written (some body) % 2 ^ 16 })
        × (r.0.buf ≡ none)
        × (content r.1 ≡ [])
unpack_header-pack_header_example =
    unpack_header-pack_header refusing sender receiver 70000 (some body) sixty_four (omega arith)
      (omega arith) sixty_four-IsValid refl (omega arith)
