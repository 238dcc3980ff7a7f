-- ===== src/Socket/Flush/Whole.antt =====
-- `flushSend` as a whole: what goes to the system, what stays, and what is lost.
use gearkit.Base.{ℕ, ◌≡◌, List, [], ◌++◌, Option, none, true, false}
use gearkit.Buffer.{Buffer}
use gearkit.Buffer.Inv.{content}
use gearkit.BufferPool.{BufferPool}
use gearkit.Packet.{Packet}
use gearkit.Socket.Send.{Sender}
use gearkit.Socket.Send.Pending.{body_of, unsent, frames}
use gearkit.Socket.Send.Waiting.{stream, Waiting}
use gearkit.Socket.Flush.{Line, Flushed, is_error}
use gearkit.Socket.Flush.Through.{Through}

-- The bytes that the system took, those that are lost, those in `send_bufs_` and those that wait are,
-- in this order, the bytes on the wire and in the stream before. Without an error nothing is lost; on an
-- error the bytes that the loop left in `send_bufs_` are lost, all of them and no others, and the buffer
-- is gone. `send_bufs` of the result is then what the destroyed buffer held.
pub record Passed {W : Type 0} (s : Sender) (ps : List Packet) (line : Line W)
    (r : Flushed × Option Buffer × Sender × Line W) : Type 0 where
  pub left : List Packet
  pub lost : List ℕ
  pub waiting : Waiting r.2 left
  pub whole : is_error r.0 ≡ false → lost ≡ []
  pub error : is_error r.0 ≡ true → (lost ≡ content r.2.send_bufs) × (r.1 ≡ none)
  pub bytes :
      r.3.wire
        ++ (lost
            ++ (body_of r.1
                ++ (unsent r.2.send_packet r.2.send_head_buf r.2.send_buf
                    ++ frames r.2.packet_seed left)))
      ≡ line.wire ++ stream s ps
