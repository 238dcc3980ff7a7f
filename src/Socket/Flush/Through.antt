-- ===== src/Socket/Flush/Through.antt =====
-- `flushSend` as a whole: what goes to the system and what stays.
use gearkit.Base.{
  ℕ, zero, suc, ◌<◌, ◌≡◌, ◌⊎◌, inl, inr, refl, sym, ap, ◌∙◌, arith, List, ◌++◌, Option, none, some,
  Bool, true, false, length, Bool-cases,
}
use mathlib.Core.List.{append_assoc}
use gearkit.Base.Run.{done, Returns, ◌>>=◌}
use gearkit.Buffer.{Buffer}
use gearkit.Buffer.Inv.{content}
use gearkit.Buffer.Memory.{Allocator}
use gearkit.Packet.{Packet}
use gearkit.Socket.Send.{Sender, Sent, send_clear, count, do_send}
use gearkit.Socket.Send.Pending.{unsent, frames, IsReady, IsSized}
use gearkit.Socket.Send.Waiting.{stream, Waiting, Conserved}
use gearkit.Socket.Send.Conserve.{do_send-Conserved}
use gearkit.Socket.Flush.{
  System, Line, Flushed, send_error, flushed, stopped, send_buffer, is_due, send_due, flush_loop,
}
use gearkit.Socket.Flush.Wire.{IsSystem, Kept, send_buffer-Kept}

-- `sendBuffer` where it was due.
record Due {W : Type 0} (s : Sender) (ps : List Packet) (line : Line W) (r : Bool × Sender × Line W)
    : Type 0 where
  pub ready : IsReady r.1
  pub waiting : Waiting r.1 ps
  pub packet : r.1.send_packet ≡ s.send_packet
  pub bytes : r.2.wire ++ stream r.1 ps ≡ line.wire ++ stream s ps

-- The loop of `flushSend`.
pub record Through {W : Type 0} (s : Sender) (ps : List Packet) (line : Line W)
    (r : Flushed × Sender × Line W) : Type 0 where
  pub left : List Packet
  pub ready : IsReady r.1
  pub waiting : Waiting r.1 left
  pub bytes : r.2.wire ++ stream r.1 left ≡ line.wire ++ stream s ps

sent_state :
    {W : Type 0} (ok : Bool) (s : Sender) (ps : List Packet) (b : Buffer) (line line' : Line W)
    → IsReady s
    → Waiting s ps
    → IsSized b
    → line'.wire ++ content b ≡ line.wire ++ content s.send_bufs
    → Due s ps line (ok, record s { send_bufs = b }, line')
sent_state ok s ps b line line' ready waiting sized bytes =
    let rest = unsent s.send_packet s.send_head_buf s.send_buf ++ frames s.packet_seed ps in
    record {
      ready = record {
        head = ready.head;
        head_room = ready.head_room;
        bufs = sized;
        body = ready.body;
        between = ready.between;
      };
      waiting = waiting;
      packet = refl;
      bytes =
          sym (append_assoc line'.wire (content b) rest)
          ∙ ap (λ l. l ++ rest) bytes
          ∙ append_assoc line.wire (content s.send_bufs) rest;
    }

-- The rounds that a loop needs: each takes a packet out of the queue, but for the one that is open.
abbrev pub Turns : ℕ → Sender → List Packet → Type 0
Turns fuel s ps = (suc (length ps) < fuel) ⊎ ((s.send_packet ≡ none) × (length ps < fuel))

module _ {W : Type 0} (send : System W) (law : IsSystem send) where
  sent_run :
      (ret : Sent) (s : Sender) (ps : List Packet) (line : Line W) (r : Option ℕ × Buffer × Line W)
      → is_due ret s.send_bufs ≡ true
      → send_buffer send s.send_bufs line ≡ done r
      → IsReady s
      → Waiting s ps
      → Kept s.send_bufs line r
      → Returns (send_due send ret s line) (Due s ps line)
  unfolding send_due
  sent_run ret s ps line (none, b, line') due run ready waiting k = (
    _,
    rw (send_due, due, run, ◌>>=◌) refl,
    sent_state false s ps b line line' ready waiting k.sized k.bytes,
  )
  sent_run ret s ps line (some n, b, line') due run ready waiting k = (
    _,
    rw (send_due, due, run, ◌>>=◌) refl,
    sent_state true s ps b line line' ready waiting k.sized k.bytes,
  )

  send_due-Due :
      (ret : Sent) (s : Sender) (ps : List Packet) (line : Line W)
      → IsReady s
      → Waiting s ps
      → Returns (send_due send ret s line) (Due s ps line)
  unfolding send_due
  send_due-Due ret s ps line ready waiting = elim (Bool-cases (is_due ret s.send_bufs)) [
    | inl due ↦
        let (r, run, k) = send_buffer-Kept send law s.send_bufs line ready.bufs in
        sent_run ret s ps line r due run ready waiting k
    | inr idle ↦ (
      (true, s, line),
      rw (send_due, idle) refl,
      record { ready = ready; waiting = waiting; packet = refl; bytes = refl },
    )
  ]

  module _ (alloc : Allocator) where
    loop_error :
        (fuel : ℕ) (s : Sender) (line : Line W) (r : Sent × Sender) (t : Bool × Sender × Line W)
        → do_send alloc s ≡ done r
        → send_due send r.0 r.1 line ≡ done t
        → t.0 ≡ false
        → flush_loop send alloc (suc fuel) s line ≡ done (send_error, t.1, t.2)
    unfolding flush_loop
    loop_error fuel s line r t run due bad = rw (flush_loop, run, ◌>>=◌, due, ◌>>=◌, bad) refl

    loop_stops :
        (fuel : ℕ) (s : Sender) (line : Line W) (r : Sent × Sender) (t : Bool × Sender × Line W)
        → do_send alloc s ≡ done r
        → send_due send r.0 r.1 line ≡ done t
        → t.0 ≡ true
        → stopped r.0 ≡ true
        → flush_loop send alloc (suc fuel) s line ≡ done (flushed r.0, t.1, t.2)
    unfolding flush_loop
    loop_stops fuel s line r t run due ok stop =
        rw (flush_loop, run, ◌>>=◌, due, ◌>>=◌, ok, stop) refl

    loop_goes :
        (fuel : ℕ) (s : Sender) (line : Line W) (r : Sent × Sender) (t : Bool × Sender × Line W)
        → do_send alloc s ≡ done r
        → send_due send r.0 r.1 line ≡ done t
        → t.0 ≡ true
        → stopped r.0 ≡ false
        → flush_loop send alloc (suc fuel) s line ≡ flush_loop send alloc fuel t.1 t.2
    unfolding flush_loop
    loop_goes fuel s line r t run due ok go = rw (flush_loop, run, ◌>>=◌, due, ◌>>=◌, ok, go) refl

    fewer_rounds :
        (fuel : ℕ) (s : Sender) (ps : List Packet) (r : Sent × Sender) (c : Conserved s ps r)
        (n : ℕ)
        → Turns (suc fuel) s ps
        → r.0 ≡ count n
        → length c.left < fuel
    fewer_rounds fuel s ps r c n (inl more) e = omega (arith, c.fewer, more)
    fewer_rounds fuel s ps r c n (inr (idle, more)) e = omega (arith, c.popped idle n e, more)

    going : (ret : Sent) → stopped ret ≡ false → (n : ℕ) × (0 < n) × (ret ≡ count n)
    unfolding stopped
    going send_clear e = absurd (cc)
    going (count n) e = (n, ground (arith, e), refl)

    through_lem :
        (s : Sender) (ps : List Packet) (line : Line W) (ret : Flushed) (r : Sent × Sender)
        (t : Bool × Sender × Line W)
        → (c : Conserved s ps r) → Due r.1 c.left line t
        → Through s ps line (ret, t.1, t.2)
    through_lem s ps line ret r t c d = record {
      left = c.left;
      ready = d.ready;
      waiting = d.waiting;
      bytes = d.bytes ∙ ap (λ l. line.wire ++ l) c.same;
    }

    pub flush_loop-Through :
        (fuel : ℕ) (s : Sender) (ps : List Packet) (line : Line W)
        → Turns fuel s ps
        → IsReady s
        → Waiting s ps
        → Returns (flush_loop send alloc fuel s line) (Through s ps line)
    flush_loop-Through zero s ps line (inl h) ready waiting = absurd (omega (arith, h))
    flush_loop-Through zero s ps line (inr (i, h)) ready waiting = absurd (omega (arith, h))
    flush_loop-Through (suc fuel) s ps line turns ready waiting =
        let (r, run, c) = do_send-Conserved alloc ps s ready waiting in
        let (t, due, d) = send_due-Due r.0 r.1 c.left line c.ready c.waiting in
        elim (Bool-cases t.0) [
          | inr bad ↦ (
            (send_error, t.1, t.2),
            loop_error fuel s line r t run due bad,
            through_lem s ps line send_error r t c d,
          )
          | inl ok ↦ elim (Bool-cases (stopped r.0)) [
            | inl stop ↦ (
              (flushed r.0, t.1, t.2),
              loop_stops fuel s line r t run due ok stop,
              through_lem s ps line (flushed r.0) r t c d,
            )
            | inr go ↦
                let (n, pos, e) = going r.0 go in
                let idle : t.1.send_packet ≡ none = d.packet ∙ c.finished n pos e in
                let (u, run', m) =
                  flush_loop-Through fuel t.1 c.left t.2
                    (inr (idle, fewer_rounds fuel s ps r c n turns e)) d.ready d.waiting in
                (
                  u,
                  loop_goes fuel s line r t run due ok go ∙ run',
                  record {
                    left = m.left;
                    ready = m.ready;
                    waiting = m.waiting;
                    bytes = m.bytes ∙ d.bytes ∙ ap (λ l. line.wire ++ l) c.same;
                  },
                )
          ]
        ]
