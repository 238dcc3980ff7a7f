-- ===== src/Socket/Open.antt =====
-- What happens once the header is complete.
use gearkit.Base.{
  ℕ, ◌-◌, ◌^◌, ◌<◌, ◌≡◌, refl, sym, ap, ◌∙◌, arith, List, [], ◌∷◌, ◌++◌, none, some, Bool, true,
  length, ltb, lt→ltb, ◌==◌, if◌then◌else◌, subst,
}
use mathlib.Core.List.{append-nil}
use gearkit.Base.Run.{done, Returns, ◌>>=◌}
use gearkit.Buffer.{Buffer}
use gearkit.Buffer.Inv.{IsValid, content}
use gearkit.Buffer.Memory.{Allocator}
use gearkit.Buffer.Write.{Filled}
use gearkit.BufferPool.{BufferPool, create_buffer}
use gearkit.Packet.{PacketHeader, Packet, unpack_header}
use gearkit.Packet.Header.{header_bytes, unpack_header_lem, unpack_header_keeps}
use gearkit.Socket.{
  Socket, count, create_recv_buf, open_packet, recv_packet, recv_rest, recv_unopened, recv_opened,
  packet_queue_length,
}
use gearkit.Socket.Partial.{AtBody}
use gearkit.QList.Refine.{Holds}
use gearkit.Socket.Body.{
  HasRoom, Carries, Delivered, recv_packet_lem, recv_rest_part, recv_rest_whole,
}

-- A header as it is sent: its numbers have the widths of their members, and the seed is the socket's.
pub record IsHeader (h : PacketHeader) (s : Socket) : Type 0 where
  pub pid : h.pid < 2 ^ 32
  pub short : h.length < 2 ^ 16
  pub seed : h.seed < 2 ^ 16
  pub trusted : h.seed ≡ s.packet_seed

-- The pool hands out an empty buffer of the packet's length.
abbrev pub Supplies : Allocator → PacketHeader → Socket → Type 0
Supplies alloc h s =
    (b : Buffer) × (pool : BufferPool) × (create_buffer alloc h.length s.pool ≡ some (b, pool))
    × Filled h.length [] b

eq_self : (n : ℕ) → (n == n) ≡ true
eq_self n = ground arith

-- After unpacking: the header is read, and its cursors stay.
unpacked :
    (h g : PacketHeader) (s : Socket)
    → IsHeader h s
    → Filled 8 (header_bytes h) s.recv_head_buf
    → Returns (unpack_header (record { header = g; buf = none }) s.recv_head_buf) λ r.
      (r.0 ≡ record { header = h; buf = none }) × IsValid r.1 × (r.1.write_cur ≡ 8) × (r.1.tail ≡ 8)
unpacked h g s ok f =
    let p : Packet = record { header = g; buf = none } in
    let (r, run, (same, valid, _)) =
      unpack_header_lem p h [] s.recv_head_buf ok.seed ok.short ok.pid f.valid
        (f.waiting ∙ sym (append-nil (header_bytes h))) in
    let (w, t) = unpack_header_keeps p s.recv_head_buf r run in
    (r, run, (same, valid, w ∙ f.written, t ∙ f.size))

module _ (alloc : Allocator) (h g : PacketHeader) where
  open_packet_run :
      (s : Socket) (d : Buffer)
      → h.seed ≡ s.packet_seed
      → unpack_header (record { header = g; buf = none }) s.recv_head_buf
        ≡ done (record { header = h; buf = none }, d)
      → let p : Packet = record { header = h; buf = none } in
        let s' = record s { recv_packet = some p; recv_head_buf = d } in
        open_packet alloc (record { header = g; buf = none }) s ≡ (
          if ltb 0 h.length
          then (create_recv_buf alloc h.length s' >>= λ t. done (true, p, t))
          else done (true, p, s'))
  unfolding open_packet
  open_packet_run s d trusted run =
      let same : (h.seed == s.packet_seed) ≡ true = ground arith in rw (run, ◌>>=◌, same) refl

  -- A body follows: a buffer is made for it.
  open_body :
      (s : Socket)
      → IsHeader h s
      → Filled 8 (header_bytes h) s.recv_head_buf
      → 0 < h.length
      → Supplies alloc h s
      → Returns (open_packet alloc (record { header = g; buf = none }) s) λ r.
        (r.0 ≡ true)
        × (r.1 ≡ record { header = h; buf = none })
        × AtBody h [] r.2
        × (r.2.recv_bufs ≡ s.recv_bufs)
        × (r.2.recv_que ≡ s.recv_que)
        × (r.2.packet_seed ≡ s.packet_seed)
  unfolding create_recv_buf
  open_body s ok f pos (b, pool, made, filled) =
      let (r, run, (same, valid, w, t)) = unpacked h g s ok f in
      let p : Packet = record { header = h; buf = none } in
      let opened = open_packet_run s r.1 ok.trusted (run ∙ ap (λ x. done (x, r.1)) same) in
      (
        (
          true,
          p,
          record s { recv_packet = some p; recv_head_buf = r.1; recv_buf = some b; pool = pool },
        ),
        opened ∙ rw (lt→ltb 0 h.length pos, made, ◌>>=◌) refl,
        (
          refl,
          refl,
          record {
            opened = refl;
            head_valid = valid;
            head_size = t;
            head_full = w;
            body = (b, refl, filled);
          },
          refl,
          refl,
          refl,
        ),
      )

  -- An empty body: nothing is made.
  open_empty :
      (s : Socket)
      → IsHeader h s
      → Filled 8 (header_bytes h) s.recv_head_buf
      → h.length ≡ 0
      → Returns (open_packet alloc (record { header = g; buf = none }) s) λ r.
        (r.0 ≡ true)
        × (r.1 ≡ record { header = h; buf = none })
        × IsValid r.2.recv_head_buf
        × (r.2.recv_head_buf.tail ≡ 8)
        × (r.2.recv_buf ≡ s.recv_buf)
        × (r.2.recv_bufs ≡ s.recv_bufs)
        × (r.2.recv_que ≡ s.recv_que)
        × (r.2.packet_seed ≡ s.packet_seed)
  open_empty s ok f empty =
      let (r, run, (same, valid, w, t)) = unpacked h g s ok f in
      let p : Packet = record { header = h; buf = none } in
      let opened = open_packet_run s r.1 ok.trusted (run ∙ ap (λ x. done (x, r.1)) same) in
      (
        (true, p, record s { recv_packet = some p; recv_head_buf = r.1 }),
        opened ∙ rw empty refl,
        (refl, refl, valid, t, refl, refl, refl, refl),
      )

  opened_none :
      (total n : ℕ) (p : Packet) (s : Socket)
      → s.recv_buf ≡ none
      → recv_opened alloc total n p s ≡ recv_unopened alloc total n p s
  unfolding recv_opened
  opened_none total n p s closed = rw closed refl

  opened_lem :
      (total n : ℕ) (s : Socket) (r : Bool × Packet × Socket)
      → s.recv_buf ≡ none
      → open_packet alloc (record { header = g; buf = none }) s ≡ done r
      → r.0 ≡ true
      → recv_opened alloc total n (record { header = g; buf = none }) s
        ≡ recv_rest alloc total n r.1 r.2
  unfolding recv_unopened
  opened_lem total n s r closed run answer =
      opened_none total n _ s closed ∙ rw (run, ◌>>=◌, answer) refl

  rest_none :
      (total n : ℕ) (p : Packet) (s : Socket)
      → s.recv_buf ≡ none
      → recv_rest alloc total n p s ≡ (recv_packet p s >>= λ u. done (count (total - n), u))
  unfolding recv_rest
  rest_none total n p s closed = rw closed refl

  no_buf :
      (total n : ℕ) (p : Packet) (s t : Socket)
      → s.recv_buf ≡ none
      → recv_packet p s ≡ done t
      → recv_rest alloc total n p s ≡ done (count (total - n), t)
  no_buf total n p s t closed run = rest_none total n p s closed ∙ rw (run, ◌>>=◌) refl

  -- Behind the header stands a part of the body.
  pub opened_part :
      (total : ℕ) (more : List ℕ) (s : Socket)
      → IsHeader h s
      → Filled 8 (header_bytes h) s.recv_head_buf
      → s.recv_buf ≡ none
      → Supplies alloc h s
      → length more < h.length
      → IsValid s.recv_bufs
      → content s.recv_bufs ≡ more
      → Returns (recv_opened alloc total (length more) (record { header = g; buf = none }) s) λ r.
        (r.0 ≡ count 0)
        × AtBody h more r.1
        × IsValid r.1.recv_bufs
        × (content r.1.recv_bufs ≡ [])
        × (r.1.recv_que ≡ s.recv_que)
        × (r.1.packet_seed ≡ s.packet_seed)
  opened_part total more s ok f closed supplied short valid e =
      let (r, run, (answer, same, a, bufs, que, seed)) = open_body s ok f (omega arith) supplied in
      let (t, run', (zero_bytes, a', valid', nothing, que', seed')) =
        recv_rest_part alloc h ok.short total r.1 [] more r.2 a (omega arith)
          (subst IsValid (sym bufs) valid) (ap content bufs ∙ e) in
      (
        t,
        opened_lem total (length more) s r closed run answer ∙ run',
        (zero_bytes, a', valid', nothing, que' ∙ que, seed' ∙ seed),
      )

  -- Behind the header stands the whole body.
  pub opened_whole :
      (total : ℕ) (body rest : List ℕ) (ps : List Packet) (s : Socket)
      → IsHeader h s
      → Filled 8 (header_bytes h) s.recv_head_buf
      → s.recv_buf ≡ none
      → (0 < h.length → Supplies alloc h s)
      → length body ≡ h.length
      → IsValid s.recv_bufs
      → content s.recv_bufs ≡ body ++ rest
      → HasRoom s ps
      → Returns
          (recv_opened alloc total (length (body ++ rest)) (record { header = g; buf = none }) s)
          λ r.
            (r.0 ≡ count (total - length rest))
            × Delivered h body rest ps r.1
            × (r.1.packet_seed ≡ s.packet_seed)
  opened_whole total [] rest ps s ok f closed supplied len valid e queued =
      let (r, run, (answer, same, head, size, buf, bufs, que, seed)) =
        open_empty s ok f (sym len) in
      let (t, run', (delivered, seed')) =
        recv_packet_lem h [] rest ps r.1 r.2 head size (buf ∙ closed)
          (subst IsValid (sym bufs) valid) (ap content bufs ∙ e)
          (subst (λ q. Holds packet_queue_length q ps) (sym que) queued.0, queued.1)
          (ap (λ p. p.header) same) (subst (λ p. Carries [] p.buf) (sym same) refl) in
      (
        (count (total - length rest), t),
        opened_lem total (length rest) s r closed run answer
            ∙ no_buf total (length rest) r.1 r.2 t (buf ∙ closed) run',
        (refl, delivered, seed' ∙ seed),
      )
  opened_whole total (c ∷ cs) rest ps s ok f closed supplied len valid e queued =
      let pos : 0 < h.length = omega (arith, len) in
      let (r, run, (answer, same, a, bufs, que, seed)) = open_body s ok f pos (supplied pos) in
      let (t, run', (consumed, delivered, seed')) =
        recv_rest_whole alloc h ok.short total h [] (c ∷ cs) rest ps r.2 refl a pos (omega arith)
          (subst IsValid (sym bufs) valid) (ap content bufs ∙ e)
          (subst (λ q. Holds packet_queue_length q ps) (sym que) queued.0, queued.1) in
      (
        t,
        opened_lem total (length ((c ∷ cs) ++ rest)) s r closed run answer
            ∙ ap (λ p. recv_rest alloc total (length ((c ∷ cs) ++ rest)) p r.2) same
            ∙ run',
        (consumed, delivered, seed' ∙ seed),
      )
