-- ===== src/Socket/Send/Whole.antt =====
-- `doSend` as a whole.
use gearkit.Base.{
  nil_of_length, ℕ, ◌+◌, ◌≤◌, ◌≡◌, inl, inr, refl, sym, ap, ◌∙◌, arith, [], ◌++◌, none, some, true,
  false, ltb, Bool-cases,
}
use mathlib.Core.List.{append_assoc}
use gearkit.Base.Run.{done, Returns, ◌>>=◌}
use gearkit.Buffer.{Buffer, reset}
use gearkit.Buffer.Inv.{content, reset-IsValid}
use gearkit.Buffer.Memory.{Allocator}
use gearkit.Packet.{Packet}
use gearkit.Socket.Send.{Sender, count, destroy_send_buf, send_header, send_rest, send_opened}
use gearkit.Socket.Send.Pending.{body_of, IsBody, IsReady, Moved, never_blocked}
use gearkit.Socket.Send.Call.{then_Moved, busy_unsent}
use gearkit.Packet.{set_seed, del_buffer, pack_header}
use gearkit.Packet.Header.{header_bytes, pack_header_lem}
use gearkit.Socket.Send.{open_packet, send_opened}
use gearkit.Socket.Send.Order.{HeaderSent, send_header_lem, send_rest_lem}

module _ (alloc : Allocator) where
  opened_short :
      (total : ℕ) (s : Sender) (r : ℕ × ℕ × Sender)
      → send_header alloc total s ≡ done r
      → ltb 0 r.0 ≡ true
      → send_opened alloc total s ≡ done (count 0, r.2)
  unfolding send_opened
  opened_short total s r run more = rw (run, ◌>>=◌, more) refl

  opened_whole :
      (total : ℕ) (s : Sender) (r : ℕ × ℕ × Sender)
      → send_header alloc total s ≡ done r
      → ltb 0 r.0 ≡ false
      → send_opened alloc total s ≡ send_rest alloc total r.1 r.2
  unfolding send_opened
  opened_whole total s r run all = rw (run, ◌>>=◌, all) refl

  header-IsReady :
      (s : Sender) (r : ℕ × ℕ × Sender)
      → IsReady s
      → (h : HeaderSent alloc s r)
      → IsReady (record s { send_bufs = h.bufs; send_head_buf = h.head })
  header-IsReady s r ok h = record {
    head = h.head_sized;
    head_room = omega (arith, h.capacity, ok.head_room);
    bufs = h.bufs_sized;
    body = ok.body;
    between = ok.between;
  }

  header_bytes_moved :
      (s : Sender) (r : ℕ × ℕ × Sender)
      → (h : HeaderSent alloc s r)
      → content h.bufs ++ (content h.head ++ body_of s.send_buf)
        ≡ content s.send_bufs ++ (content s.send_head_buf ++ body_of s.send_buf)
  header_bytes_moved s r h =
      sym (append_assoc (content h.bufs) (content h.head) (body_of s.send_buf))
      ∙ ap (λ l. l ++ body_of s.send_buf) h.bytes
      ∙ append_assoc (content s.send_bufs) (content s.send_head_buf) (body_of s.send_buf)

  -- An open packet.
  pub send_opened_lem :
      (total : ℕ) (p : Packet) (s : Sender)
      → s.send_packet ≡ some p
      → IsReady s
      → s.send_bufs.write_cur + total ≤ s.send_bufs.capacity
      → Returns
          (send_opened alloc total s)
          (Moved s (content s.send_head_buf ++ body_of s.send_buf))
  send_opened_lem total p s busy ok room =
      let (r, run, h) = send_header_lem alloc total s ok room in
      let t = record s { send_bufs = h.bufs; send_head_buf = h.head } in
      let ready = header-IsReady s r ok h in
      let moved = header_bytes_moved s r h in
      elim (Bool-cases (ltb 0 r.0)) [
        | inl more ↦ (
          (count 0, t),
          opened_short total s r run more ∙ ap (λ x. done (count 0, x)) h.state,
          record {
            answer = (0, refl);
            finished = λ k pos e. never_blocked k pos e;
            bytes = ap (λ l. content h.bufs ++ l) (busy_unsent t p busy) ∙ moved;
            ready = ready;
            queue = refl;
            seed = refl;
          },
        )
        | inr all ↦
            let empty : content h.head ≡ [] =
              nil_of_length (content h.head) (ground (arith, all, h.missing)) in
            let (u, run', m) = send_rest_lem alloc total r.1 p t busy empty ready h.room in
            (
              u,
              opened_whole total s r run all ∙ ap (λ x. send_rest alloc total r.1 x) h.state ∙ run',
              then_Moved s t (content s.send_head_buf ++ body_of s.send_buf) (body_of s.send_buf) u
                  (ap (λ l. content h.bufs ++ (l ++ body_of s.send_buf)) (sym empty) ∙ moved) refl
                  refl m,
            )
      ]

  -- `open_packet` between two packets.
  pub record Opened (p : Packet) (s t : Sender) : Type 0 where
    pub busy : (q : Packet) × (t.send_packet ≡ some q)
    pub ready : IsReady t
    pub head : content t.send_head_buf ≡ header_bytes (record p.header { seed = s.packet_seed })
    pub body : t.send_buf ≡ p.buf
    pub bufs : t.send_bufs ≡ s.send_bufs
    pub queue : t.send_que ≡ s.send_que
    pub seed : t.packet_seed ≡ s.packet_seed

  open_run :
      (p : Packet) (s : Sender) (head : Buffer)
      → s.send_buf ≡ none
      → pack_header alloc (set_seed s.packet_seed p) (reset s.send_head_buf) ≡ done head
      → open_packet alloc p s
        ≡ done (record s {
          send_head_buf = head;
          send_packet = some (del_buffer (set_seed s.packet_seed p));
          send_buf = p.buf;
        })
  unfolding open_packet destroy_send_buf
  open_run p s head closed run = rw (run, ◌>>=◌, destroy_send_buf, closed, ◌>>=◌) refl

  pub open_lem :
      (p : Packet) (s : Sender)
      → s.send_packet ≡ none
      → IsReady s
      → IsBody p.buf
      → Returns (open_packet alloc p s) (Opened p s)
  open_lem p s idle ok body =
      let (v, nothing) = reset-IsValid ok.head.valid in
      let (b, run, (valid, bytes, cap)) =
        pack_header_lem alloc (set_seed s.packet_seed p) (reset s.send_head_buf) v
          (unfold reset in ok.head_room) in
      let same : (reset s.send_head_buf).capacity ≡ s.send_head_buf.capacity =
        unfold reset in refl in
      (
        record s {
          send_head_buf = b;
          send_packet = some (del_buffer (set_seed s.packet_seed p));
          send_buf = p.buf;
        },
        open_run p s b (ok.between idle) run,
        record {
          busy = (_, refl);
          ready = record {
            head = record { valid = valid; small = omega (arith, cap, same, ok.head.small) };
            head_room = omega (arith, cap, same, ok.head_room);
            bufs = ok.bufs;
            body = body;
            between = λ e. absurd (cc);
          };
          head =
              bytes
              ∙ ap (λ l. l ++ header_bytes (set_seed s.packet_seed p).header) nothing
              ∙ (unfold set_seed in refl);
          body = refl;
          bufs = refl;
          queue = refl;
          seed = refl;
        },
      )
