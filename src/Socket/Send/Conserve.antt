-- ===== src/Socket/Send/Conserve.antt =====
-- `doSend` loses, repeats and reorders nothing.
use gearkit.Base.{
  ◌+◌, ◌≤◌, arith, ◌≡◌, inl, inr, refl, sym, ap, ◌∙◌, List, [], ◌∷◌, ◌++◌, none, some, true, false,
  Option-cases, subst, All,
}
use mathlib.Core.List.{append-nil}
use gearkit.Base.Run.{Returns, ◌>>=◌}
use gearkit.Buffer.{get_writable_size}
use gearkit.Buffer.Inv.{content}
use gearkit.Buffer.Memory.{Allocator}
use gearkit.Packet.{Packet}
use gearkit.QList.Refine.{Holds, pop_refines}
use gearkit.Socket.{to_u32, packet_queue_length}
use gearkit.Socket.Send.{Sender, send_clear, send_opened, do_send}
use gearkit.Socket.Send.Pending.{body_of, unsent, frames, IsBody, IsReady}
use gearkit.Socket.Send.Call.{busy_unsent}
use gearkit.Packet.Header.{header_bytes}
use gearkit.QList.{QList}
use gearkit.Queue.Fifo
use gearkit.Socket.Send.Whole.{Opened, open_lem, send_opened_lem}
use gearkit.Socket.Send.Waiting.{
  stream, Waiting, Conserved, room_lem, carried_lem, do_send_busy, do_send_idle, popped_none,
  popped_some,
}

module _ (alloc : Allocator) where
  -- Nothing waits.
  clear_lem :
      (s : Sender)
      → s.send_packet ≡ none
      → IsReady s
      → Waiting s []
      → Returns (do_send alloc s) (Conserved s [])
  clear_lem s idle ok (holds, bodies) =
      let (r, run, p) = pop_refines packet_queue_length s.send_que [] holds in
      let answer : r.0 ≡ false = p.answer ∙ (unfold Fifo.pop in refl) in
      let left : Holds packet_queue_length r.2 [] = unfold Fifo.pop in p.left in
      let nothing : stream s [] ≡ content s.send_bufs =
        ap (λ o. content s.send_bufs ++ (unsent o s.send_head_buf s.send_buf ++ [])) idle
        ∙ append-nil (content s.send_bufs) in
      (
        (send_clear, record s { send_que = r.2 }),
        do_send_idle alloc s r idle run ∙ popped_none alloc _ r s answer,
        record {
          left = [];
          ready = record {
            head = ok.head;
            head_room = ok.head_room;
            bufs = ok.bufs;
            body = ok.body;
            between = ok.between;
          };
          waiting = (left, tt);
          same = refl;
          clear = λ e. sym nothing;
          finished = λ n pos e. absurd (cc);
          fewer = omega arith;
          popped = λ i n e. absurd (cc);
        },
      )

  -- The stream of a packet that was opened is that of the packet in the queue.
  next_bytes :
      (p : Packet) (ps : List Packet) (s t : Sender) {que : QList Packet}
      → s.send_packet ≡ none
      → Opened alloc p (record s { send_que = que }) t
      → (q : Packet) → t.send_packet ≡ some q
      → stream t ps ≡ stream s (p ∷ ps)
  next_bytes p ps s t idle o q busy =
      ap (λ l. content t.send_bufs ++ (l ++ frames t.packet_seed ps)) (busy_unsent t q busy)
      ∙ ap
          (λ b.
            content b
            ++ ((content t.send_head_buf ++ body_of t.send_buf) ++ frames t.packet_seed ps))
          o.bufs
      ∙ ap (λ l. content s.send_bufs ++ ((l ++ body_of t.send_buf) ++ frames t.packet_seed ps))
          o.head
      ∙ ap
          (λ b.
            content s.send_bufs
            ++ ((header_bytes (record p.header { seed = s.packet_seed }) ++ body_of b)
                ++ frames t.packet_seed ps))
          o.body
      ∙ ap
          (λ k.
            content s.send_bufs
            ++ ((header_bytes (record p.header { seed = s.packet_seed }) ++ body_of p.buf)
                ++ frames k ps))
          o.seed
      ∙ ap
          (λ x.
            content s.send_bufs
            ++ (unsent x s.send_head_buf s.send_buf ++ frames s.packet_seed (p ∷ ps)))
          (sym idle)

  next_run :
      (p : Packet) (ps : List Packet) (s t : Sender) {que : QList Packet}
      → s.send_packet ≡ none
      → Opened alloc p (record s { send_que = que }) t
      → Holds packet_queue_length t.send_que ps
      → All (λ q. IsBody q.buf) ps
      → do_send alloc s ≡ send_opened alloc (to_u32 (get_writable_size s.send_bufs)) t
      → Returns (do_send alloc s) (Conserved s (p ∷ ps))
  next_run p ps s t idle o holds bodies run =
      let (q, busy) = o.busy in
      let room =
        subst (λ b. b.write_cur + to_u32 (get_writable_size b) ≤ b.capacity) o.bufs
          (room_lem t o.ready) in
      let (u, run', m) =
        send_opened_lem alloc (to_u32 (get_writable_size s.send_bufs)) q t busy o.ready (
          subst (λ b. b.write_cur + to_u32 (get_writable_size s.send_bufs) ≤ b.capacity)
            (sym o.bufs) room) in
      let c =
        carried_lem t ps (content t.send_head_buf ++ body_of t.send_buf) q u busy m holds bodies (
          ap (λ l. content t.send_bufs ++ (l ++ frames t.packet_seed ps))
            (sym (busy_unsent t q busy))) in
      let same : stream t ps ≡ stream s (p ∷ ps) = next_bytes p ps s t idle o q busy in
      (
        u,
        run ∙ run',
        record {
          left = c.left;
          ready = c.ready;
          waiting = c.waiting;
          same = c.same ∙ same;
          clear = λ e. c.clear e ∙ same;
          finished = c.finished;
          fewer = omega (arith, c.fewer);
          popped = λ i n e. omega (arith, c.fewer);
        },
      )

  -- The first packet of the queue is opened.
  next_lem :
      (p : Packet) (ps : List Packet) (s : Sender)
      → s.send_packet ≡ none
      → IsReady s
      → Waiting s (p ∷ ps)
      → Returns (do_send alloc s) (Conserved s (p ∷ ps))
  next_lem p ps s idle ok (holds, (body, bodies)) =
      let (r, run, pp) = pop_refines packet_queue_length s.send_que (p ∷ ps) holds in
      let answer : r.0 ≡ true = pp.answer ∙ (unfold Fifo.pop in refl) in
      let out : r.1 ≡ some p = pp.out ∙ (unfold Fifo.pop in refl) in
      let left : Holds packet_queue_length r.2 ps = unfold Fifo.pop in pp.left in
      let s' = record s { send_que = r.2 } in
      let ok' : IsReady s' = record {
        head = ok.head;
        head_room = ok.head_room;
        bufs = ok.bufs;
        body = ok.body;
        between = ok.between;
      } in
      let (t, run', o) = open_lem alloc p s' idle ok' body in
      next_run p ps s t idle o (subst (λ q. Holds packet_queue_length q ps) (sym o.queue) left)
        bodies
        (do_send_idle alloc s r idle run
          ∙ popped_some alloc _ p r s answer out
          ∙ rw (run', ◌>>=◌) refl)

  between_lem :
      (ps : List Packet) (s : Sender)
      → s.send_packet ≡ none
      → IsReady s
      → Waiting s ps
      → Returns (do_send alloc s) (Conserved s ps)
  between_lem [] s idle ok waiting = clear_lem s idle ok waiting
  between_lem (p ∷ ps) s idle ok waiting = next_lem p ps s idle ok waiting

  -- With valid buffers `doSend` stays inside the memory, and leaves valid buffers. The bytes of the
  -- stream (those in the buffer, the rest of the open packet, and the headers and bodies of the packets
  -- in the queue, in its order) are the same before and after it; and where the result is
  -- SOCKET_SP_CLEAR all of them are in the buffer.
  pub do_send-Conserved :
      (ps : List Packet) (s : Sender)
      → IsReady s
      → Waiting s ps
      → Returns (do_send alloc s) (Conserved s ps)
  do_send-Conserved ps s ok waiting = elim (Option-cases s.send_packet) [
    | inl idle ↦ between_lem ps s idle ok waiting
    | inr (p, busy) ↦
        let (r, run, m) =
          send_opened_lem alloc (to_u32 (get_writable_size s.send_bufs)) p s busy ok
            (room_lem s ok) in
        (
          r,
          do_send_busy alloc p s busy ∙ run,
          carried_lem s ps (content s.send_head_buf ++ body_of s.send_buf) p r busy m waiting.0
              waiting.1
              (ap (λ l. content s.send_bufs ++ (l ++ frames s.packet_seed ps))
                (sym (busy_unsent s p busy))),
        )
  ]
