-- ===== src/Session/Flush.antt =====
-- `flush`, over a socket that is a parameter.
use gearkit.Base.{
  ◌≢◌, ==_iff, ℕ, zero, suc, ◌≡◌, ◌<◌, inl, inr, refl, ap, ◌∙◌, arith, List, [], ◌∷◌, Option, none,
  some, Bool, true, false, length, Bool-cases,
}
use gearkit.Base.Run.{Run, done, Returns, ◌>>=◌}
use gearkit.Packet.{Packet}
use gearkit.QList.{QList}
use gearkit.QList
use gearkit.QList.Refine.{Holds, pop_refines}
use gearkit.Queue.Fifo
use gearkit.Socket.{packet_queue_length}
use gearkit.Socket.Flush.{Flushed, send_error, flushed}
use gearkit.Socket.Send.{send_clear, count}
use gearkit.Session.{Session, is_zero, send_popped, popped, flush_loop, flush}

abbrev pub Queued : QList Packet → List Packet → Type 0
Queued que ps = Holds packet_queue_length que ps

-- A queue that is not empty gives its oldest packet.
pub record Next (p : Packet) (ps : List Packet) (r : Bool × Option Packet × QList Packet)
    : Type 0 where
  pub answer : r.0 ≡ true
  pub out : r.1 ≡ some p
  pub left : Queued r.2 ps

pub pop-Next :
    (p : Packet) (ps : List Packet) (que : QList Packet)
    → Queued que (p ∷ ps)
    → Returns (QList.pop packet_queue_length que) (Next p ps)
pop-Next p ps que h =
    let (r, run, k) = pop_refines packet_queue_length que (p ∷ ps) h in
    (
      r,
      run,
      record {
        answer = k.answer ∙ (unfold Fifo.pop in refl);
        out = k.out ∙ (unfold Fifo.pop in refl);
        left = unfold Fifo.pop in k.left;
      },
    )

is_zero_lem : (ret : Flushed) → is_zero ret ≡ true → ret ≡ flushed (count 0)
unfolding is_zero
is_zero_lem send_error e = absurd (cc)
is_zero_lem (flushed send_clear) e = absurd (cc)
is_zero_lem (flushed (count n)) e = ap (λ k. flushed (count k)) ((==_iff n 0).0 e)

is_zero-not : (ret : Flushed) → is_zero ret ≡ false → ret ≢ flushed (count 0)
unfolding is_zero
is_zero-not ret e f = let t : is_zero ret ≡ true = ap is_zero f in absurd (cc)

module _ {S : Type 0} (send : Packet → S → Run (Flushed × S)) (valid : S → Bool) where
  -- What `flush` promises, from a socket and the packets that wait, oldest first, to the socket, the
  -- answer and the packets that wait afterwards: each packet in turn goes to `sendPacket`, until one
  -- call does not return 0; that packet is gone, the answer is false, and those behind it wait.
  pub data Sends : S → List Packet → S → Bool → List Packet → Type 0 where
    all_sent : {k : S} → Sends k [] k true []
    goes :
        {p : Packet} {ps left : List Packet} {k k' last : S} {all : Bool}
        → send p k ≡ done (flushed (count 0), k')
        → Sends k' ps last all left
        → Sends k (p ∷ ps) last all left
    stops :
        {p : Packet} {ps : List Packet} {k k' : S} {ret : Flushed}
        → send p k ≡ done (ret, k')
        → ret ≢ flushed (count 0)
        → Sends k (p ∷ ps) k' false ps

  pub record Sent (k : S) (ps : List Packet) (r : Bool × Session S) : Type 0 where
    pub left : List Packet
    pub last : S
    pub waits : Queued r.1.send_packets left
    pub socket : r.1.socket ≡ some last
    pub follows : Sends k ps last r.0 left

  popped_none :
      (again : Session S → Run (Bool × Session S)) (r : Bool × Option Packet × QList Packet)
      (s : Session S)
      → r.0 ≡ false
      → popped send valid again r s ≡ done (true, record s { send_packets = r.2 })
  unfolding popped
  popped_none again (true, some p, que) s e = cc
  popped_none again (true, none, que) s e = cc
  popped_none again (false, out, que) s e = refl

  popped_some :
      (again : Session S → Run (Bool × Session S)) (p : Packet)
      (r : Bool × Option Packet × QList Packet) (s : Session S)
      → r.0 ≡ true
      → r.1 ≡ some p
      → popped send valid again r s
        ≡ send_popped send valid again p (record s { send_packets = r.2 })
  unfolding popped
  popped_some again p (true, some q, que) s e is =
      let same : q ≡ p = cc in
      ap (λ x. send_popped send valid again x (record s { send_packets = que })) same
  popped_some again p (true, none, que) s e is = cc
  popped_some again p (false, out, que) s e is = cc

  goes_on :
      (again : Session S → Run (Bool × Session S)) (p : Packet) (s : Session S) (k : S)
      (r : Flushed × S)
      → s.socket ≡ some k
      → send p k ≡ done r
      → is_zero r.0 ≡ true
      → send_popped send valid again p s ≡ again (record s { socket = some r.1 })
  unfolding send_popped
  goes_on again p s k r is run zero_bytes = rw (send_popped, is, run, ◌>>=◌, zero_bytes) refl

  stop_run :
      (again : Session S → Run (Bool × Session S)) (p : Packet) (s : Session S) (k : S)
      (r : Flushed × S)
      → s.socket ≡ some k
      → send p k ≡ done r
      → is_zero r.0 ≡ false
      → send_popped send valid again p s ≡ done (false, record s { socket = some r.1 })
  unfolding send_popped
  stop_run again p s k r is run other = rw (send_popped, is, run, ◌>>=◌, other) refl

  loop_run :
      (fuel : ℕ) (s : Session S) (r : Bool × Option Packet × QList Packet)
      → QList.pop packet_queue_length s.send_packets ≡ done r
      → flush_loop send valid (suc fuel) s ≡ popped send valid (flush_loop send valid fuel) r s
  unfolding flush_loop
  loop_run fuel s r run = rw (flush_loop, run) refl

  flush_loop-Sent :
      (fuel : ℕ) (s : Session S) (k : S) (ps : List Packet)
      → length ps < fuel
      → s.socket ≡ some k
      → Queued s.send_packets ps
      → ((p : Packet) (k : S) → (r : Flushed × S) × (send p k ≡ done r))
      → Returns (flush_loop send valid fuel s) (Sent k ps)
  flush_loop-Sent zero s k ps f is h total = absurd (omega (arith, f))
  flush_loop-Sent (suc fuel) s k [] f is h total =
      let (r, run, e) = pop_refines packet_queue_length s.send_packets [] h in
      (
        (true, record s { send_packets = r.2 }),
        loop_run fuel s r run
            ∙ popped_none (flush_loop send valid fuel) r s (e.answer ∙ (unfold Fifo.pop in refl)),
        record {
          left = [];
          last = k;
          waits = unfold Fifo.pop in e.left;
          socket = is;
          follows = all_sent;
        },
      )
  flush_loop-Sent (suc fuel) s k (p ∷ ps) f is h total =
      let (r, run, n) = pop-Next p ps s.send_packets h in
      let s' : Session S = record s { send_packets = r.2 } in
      let ((ret, k'), sent) = total p k in
      let start =
        loop_run fuel s r run ∙ popped_some (flush_loop send valid fuel) p r s n.answer n.out in
      elim (Bool-cases (is_zero ret)) [
        | inr other ↦ (
          (false, record s' { socket = some k' }),
          start ∙ stop_run (flush_loop send valid fuel) p s' k (ret, k') is sent other,
          record {
            left = ps;
            last = k';
            waits = n.left;
            socket = refl;
            follows = stops sent (is_zero-not ret other);
          },
        )
        | inl zero_bytes ↦
            let (u, rest, t) =
              flush_loop-Sent fuel (record s' { socket = some k' }) k' ps (omega (arith, f)) refl
                n.left total in
            (
              u,
              start
                  ∙ goes_on (flush_loop send valid fuel) p s' k (ret, k') is sent zero_bytes
                  ∙ rest,
              record {
                left = t.left;
                last = t.last;
                waits = t.waits;
                socket = t.socket;
                follows =
                    goes (sent ∙ ap (λ x. done (x, k')) (is_zero_lem ret zero_bytes)) t.follows;
              },
            )
      ]

  -- With a socket whose `sendPacket` comes to its end, `flush` comes to its end: each packet
  -- of the queue, oldest first, goes to `sendPacket` until one call does not return 0. If none is such a
  -- call, the answer is true and the queue is empty; otherwise it is false, the packet of that call has
  -- left the queue, and those behind it wait.
  pub flush-Sent :
      (s : Session S) (k : S) (ps : List Packet)
      → s.socket ≡ some k
      → Queued s.send_packets ps
      → ((p : Packet) (k : S) → (r : Flushed × S) × (send p k ≡ done r))
      → Returns (flush send valid s) (Sent k ps)
  unfolding flush
  flush-Sent s k ps is h total =
      flush_loop-Sent (suc s.send_packets.count) s k ps (omega (arith, h.counted)) is h total
