-- ===== src/Socket/Send/Waiting.antt =====
-- The stream that `doSend` keeps, and its two ways in.
use gearkit.Base.{
  ℕ, ◌+◌, ◌≤◌, ◌≡◌, refl, sym, ap, ◌∙◌, arith, List, ◌++◌, Option, none, some, Bool, true, false,
  subst, All, length, ◌<◌,
}
use mathlib.Core.List.{append_assoc}
use gearkit.Base.Run.{done, ◌>>=◌}
use gearkit.Buffer.{get_writable_size}
use gearkit.Buffer.Inv.{content}
use gearkit.Buffer.Memory.{Allocator}
use gearkit.Packet.{Packet}
use gearkit.QList
use gearkit.QList.Refine.{Holds}
use gearkit.Socket.{to_u32, packet_queue_length}
use gearkit.Socket.Send.{Sender, Sent, send_clear, send_opened, send_popped, do_send, count}
use gearkit.Socket.Send.Pending.{unsent, frames, IsBody, IsReady, Moved}
use gearkit.QList.{QList}
use gearkit.Socket.Send.{open_packet}

-- The stream of bytes: those in the buffer, the rest of the open packet, and the packets of the queue.
abbrev pub stream : Sender → List Packet → List ℕ
stream s ps =
    content s.send_bufs
    ++ (unsent s.send_packet s.send_head_buf s.send_buf ++ frames s.packet_seed ps)

-- The queue holds `ps`, whose bodies are valid buffers.
abbrev pub Waiting : Sender → List Packet → Type 0
Waiting s ps = Holds packet_queue_length s.send_que ps × All (λ p. IsBody p.buf) ps

-- What a call does: the stream is the same, and SOCKET_SP_CLEAR means that all of it is in the buffer.
pub record Conserved (s : Sender) (ps : List Packet) (r : Sent × Sender) : Type 0 where
  pub left : List Packet
  pub ready : IsReady r.1
  pub waiting : Waiting r.1 left
  pub same : stream r.1 left ≡ stream s ps
  pub clear : r.0 ≡ send_clear → content r.1.send_bufs ≡ stream s ps
  -- A result above 0 says that a packet is through; and a call between two packets takes one out of
  -- the queue, or finds it empty.
  pub finished : (n : ℕ) → 0 < n → r.0 ≡ count n → r.1.send_packet ≡ none
  pub fewer : length left ≤ length ps
  pub popped : s.send_packet ≡ none → (n : ℕ) → r.0 ≡ count n → length left < length ps

pub room_lem :
    (s : Sender)
    → IsReady s
    → s.send_bufs.write_cur + to_u32 (get_writable_size s.send_bufs) ≤ s.send_bufs.capacity
unfolding get_writable_size
room_lem s ok = omega (arith, ok.bufs.valid.write_in, ok.bufs.valid.tail_in, ok.bufs.small)

pub carried_lem :
    (s : Sender) (ps : List Packet) (front : List ℕ) (p : Packet) (r : Sent × Sender)
    → s.send_packet ≡ some p
    → Moved s front r
    → Holds packet_queue_length s.send_que ps
    → All (λ p. IsBody p.buf) ps
    → content s.send_bufs ++ (front ++ frames s.packet_seed ps) ≡ stream s ps
    → Conserved s ps r
carried_lem s ps front p r busy m holds bodies e =
    let (n, answer) = m.answer in
    record {
      left = ps;
      ready = m.ready;
      waiting = (subst (λ q. Holds packet_queue_length q ps) (sym m.queue) holds, bodies);
      same =
          ap
            (λ k.
              content r.1.send_bufs
              ++ (unsent r.1.send_packet r.1.send_head_buf r.1.send_buf ++ frames k ps))
            m.seed
          ∙ sym (
              append_assoc (content r.1.send_bufs)
                (unsent r.1.send_packet r.1.send_head_buf r.1.send_buf) (frames s.packet_seed ps))
          ∙ ap (λ l. l ++ frames s.packet_seed ps) m.bytes
          ∙ append_assoc (content s.send_bufs) front (frames s.packet_seed ps)
          ∙ e;
      clear = λ c. cc;
      finished = m.finished;
      fewer = omega arith;
      popped = λ idle k c. absurd (cc);
    }

module _ (alloc : Allocator) where
  pub do_send_busy :
      (p : Packet) (s : Sender)
      → s.send_packet ≡ some p
      → do_send alloc s ≡ send_opened alloc (to_u32 (get_writable_size s.send_bufs)) s
  unfolding do_send
  do_send_busy p s busy = rw busy refl

  popping_lem :
      (s : Sender)
      → s.send_packet ≡ none
      → do_send alloc s ≡ (
          QList.pop packet_queue_length s.send_que >>= λ r.
          send_popped alloc (to_u32 (get_writable_size s.send_bufs)) r s)
  unfolding do_send
  popping_lem s idle = rw idle refl

  pub do_send_idle :
      (s : Sender) (r : Bool × Option Packet × QList Packet)
      → s.send_packet ≡ none
      → QList.pop packet_queue_length s.send_que ≡ done r
      → do_send alloc s ≡ send_popped alloc (to_u32 (get_writable_size s.send_bufs)) r s
  do_send_idle s r idle run = popping_lem s idle ∙ rw (run, ◌>>=◌) refl

  pub popped_none :
      (total : ℕ) (r : Bool × Option Packet × QList Packet) (s : Sender)
      → r.0 ≡ false
      → send_popped alloc total r s ≡ done (send_clear, record s { send_que = r.2 })
  unfolding send_popped
  popped_none total (true, some p, que) s e = cc
  popped_none total (true, none, que) s e = cc
  popped_none total (false, out, que) s e = refl

  pub popped_some :
      (total : ℕ) (p : Packet) (r : Bool × Option Packet × QList Packet) (s : Sender)
      → r.0 ≡ true
      → r.1 ≡ some p
      → send_popped alloc total r s
        ≡ (open_packet alloc p (record s { send_que = r.2 }) >>= send_opened alloc total)
  unfolding send_popped
  popped_some total p (true, some q, que) s e is =
      let same : q ≡ p = cc in
      ap (λ x. open_packet alloc x (record s { send_que = que }) >>= send_opened alloc total) same
  popped_some total p (true, none, que) s e is = cc
  popped_some total p (false, out, que) s e is = cc
