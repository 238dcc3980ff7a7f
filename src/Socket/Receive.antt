-- ===== src/Socket/Receive.antt =====
-- `doRecv`: packets out of a stream of bytes, however it is cut into pieces.
use gearkit.Base.{
  ℕ, ◌+◌, ◌-◌, ◌<◌, ◌≡◌, ◌⊎◌, inl, inr, refl, sym, ap, ◌∙◌, arith, List, [], ◌++◌, none, some,
  length, length-append, ltb, ltb→lt, lt→ltb, Bool-cases, subst, split_at, append_split,
}
use mathlib.Core.List.{append_assoc, append-nil}
use gearkit.Base.Run.{Returns, ◌>>=◌}
use gearkit.Buffer.{Buffer}
use gearkit.Buffer.Inv.{IsValid, content}
use gearkit.Buffer.Memory.{Allocator}
use gearkit.Buffer.Write.{Filled}
use gearkit.Packet.{PacketHeader, Packet}
use gearkit.Packet.Header.{header_bytes}
use gearkit.Socket.{Socket, Received, count, recv_rest, recv_opened, recv_started}
use gearkit.Socket.Partial.{Idle, AtHeader, AtBody, recv_header_lem, recv_header_full}
use gearkit.Socket.Body.{HasRoom, Delivered}
use gearkit.Socket.Open.{IsHeader, Supplies, opened_part, opened_whole}

-- Of a packet with this header, `got` has arrived.
abbrev pub Arrived : PacketHeader → List ℕ → Socket → Type 0
Arrived h got s =
    (Idle s × (got ≡ []))
    ⊎ ((AtHeader got s × (length got < 8))
        ⊎ ((g : List ℕ) × AtBody h g s × (length g < h.length) × (got ≡ header_bytes h ++ g)))

-- The buffer is read empty, and no packet is delivered.
pub record Blocked (h : PacketHeader) (got : List ℕ) (s : Socket) (r : Received × Socket)
    : Type 0 where
  pub zero_bytes : r.0 ≡ count 0
  pub arrived : Arrived h got r.1
  pub valid : IsValid r.1.recv_bufs
  pub nothing : content r.1.recv_bufs ≡ []
  pub queue : r.1.recv_que ≡ s.recv_que
  pub seed : r.1.packet_seed ≡ s.packet_seed

module _ (alloc : Allocator) (h : PacketHeader) where
  -- The header stays incomplete.
  started_short :
      (g : PacketHeader) (got more : List ℕ) (s : Socket)
      → AtHeader got s
      → length got + length more < 8
      → IsValid s.recv_bufs
      → content s.recv_bufs ≡ more
      → Returns
          (recv_started alloc (length more) (record { header = g; buf = none }) s)
          (Blocked h (got ++ more) s)
  unfolding recv_started
  started_short g got more s a short valid e =
      let (r, run, (d, b, same, filled, v', left)) =
        recv_header_lem alloc got more [] s a.head (omega arith) valid (e ∙ sym (append-nil more))
          (omega (arith, length-append more [])) in
      let missing = lt→ltb 0 (8 - length (got ++ more)) (omega (arith, length-append got more)) in
      (
        (count 0, record s { recv_head_buf = d; recv_bufs = b }),
        ap (λ l. recv_started alloc (length l) (record { header = g; buf = none }) s)
              (sym (append-nil more))
            ∙ rw (run, same, ◌>>=◌, missing) refl,
        record {
          zero_bytes = refl;
          arrived = inr (
              inl (
                record { opened = a.opened; head = filled; no_body = a.no_body },
                omega (arith, length-append got more),
              ));
          valid = v';
          nothing = left;
          queue = refl;
          seed = refl;
        },
      )

  kept :
      {s : Socket}
      → IsHeader h s
      → (d b : Buffer) → IsHeader h (record s { recv_head_buf = d; recv_bufs = b })
  kept ok d b = record { pid = ok.pid; short = ok.short; seed = ok.seed; trusted = ok.trusted }

  -- Where a frame is cut behind its header.
  pub frame_cut :
      (body got more chunk rest missing : List ℕ)
      → got ++ (more ++ missing) ≡ header_bytes h ++ body
      → more ≡ chunk ++ rest
      → length got + length chunk ≡ 8
      → (got ++ chunk ≡ header_bytes h) × (rest ++ missing ≡ body)
  frame_cut body got more chunk rest missing frame cut eight =
      append_split (got ++ chunk) (rest ++ missing) (header_bytes h) body
        (append_assoc got chunk (rest ++ missing)
          ∙ ap (λ l. got ++ l)
              (sym (append_assoc chunk rest missing) ∙ ap (λ l. l ++ missing) (sym cut))
          ∙ frame)
        (length-append got chunk ∙ eight)

  opened_some :
      (n : ℕ) (p : Packet) (s : Socket) (b : Buffer)
      → s.recv_buf ≡ some b
      → recv_opened alloc n n p s ≡ recv_rest alloc n n p s
  unfolding recv_opened
  opened_some n p s b is = rw is refl

  -- The header becomes complete.
  header_done :
      (p : Packet) (got chunk rest : List ℕ) (s : Socket)
      → AtHeader got s
      → length got < 8
      → got ++ chunk ≡ header_bytes h
      → IsValid s.recv_bufs
      → content s.recv_bufs ≡ chunk ++ rest
      → (d b : Buffer) × (recv_started alloc (length (chunk ++ rest)) p s
          ≡ recv_opened alloc
              (length (chunk ++ rest))
              (length rest)
              p
              (record s { recv_head_buf = d; recv_bufs = b }))
        × Filled 8 (header_bytes h) d
        × IsValid b
        × (content b ≡ rest)
  unfolding recv_started
  header_done p got chunk rest s a short whole valid e =
      let eight : length got + length chunk ≡ 8 = sym (length-append got chunk) ∙ ap length whole in
      let (r, run, (d, b, same, filled, v', left)) =
        recv_header_lem alloc got chunk rest s a.head short valid e
          (omega (arith, eight, length-append chunk rest)) in
      let complete : 8 - length (got ++ chunk) ≡ 0 =
        omega (arith, eight, length-append got chunk) in
      (d, b, rw (run, same, ◌>>=◌, complete) refl, subst (λ l. Filled 8 l d) whole filled, v', left)

  -- The header becomes complete, and a part of the body stands behind it.
  started_rest :
      (g : PacketHeader) (body got chunk rest missing : List ℕ) (s : Socket)
      → IsHeader h s
      → h.length ≡ length body
      → Supplies alloc h s
      → AtHeader got s
      → length got < 8
      → got ++ chunk ≡ header_bytes h
      → rest ++ missing ≡ body
      → 0 < length missing
      → IsValid s.recv_bufs
      → content s.recv_bufs ≡ chunk ++ rest
      → Returns
          (recv_started alloc (length (chunk ++ rest)) (record { header = g; buf = none }) s)
          (Blocked h (got ++ (chunk ++ rest)) s)
  started_rest g body got chunk rest missing s ok len supplied a short front back some_missing valid
        e =
      let (d, b, run, filled, v', left) =
        header_done (record { header = g; buf = none }) got chunk rest s a short front valid e in
      let fewer : length rest < h.length =
        omega (arith, ap length back, length-append rest missing) in
      let (t, run', (zero_bytes, at_body, v'', nothing, que, seed)) =
        opened_part alloc h g (length (chunk ++ rest)) rest
          (record s { recv_head_buf = d; recv_bufs = b }) (kept ok d b) filled a.no_body supplied
          fewer v' left in
      (
        t,
        run ∙ run',
        record {
          zero_bytes = zero_bytes;
          arrived = inr (
              inr (
                rest,
                at_body,
                fewer,
                sym (append_assoc got chunk rest) ∙ ap (λ l. l ++ rest) front,
              ));
          valid = v'';
          nothing = nothing;
          queue = que;
          seed = seed;
        },
      )

  pub started_part :
      (g : PacketHeader) (body got more missing : List ℕ) (s : Socket)
      → IsHeader h s
      → h.length ≡ length body
      → (0 < h.length → Supplies alloc h s)
      → AtHeader got s
      → length got < 8
      → got ++ (more ++ missing) ≡ header_bytes h ++ body
      → 0 < length missing
      → IsValid s.recv_bufs
      → content s.recv_bufs ≡ more
      → Returns
          (recv_started alloc (length more) (record { header = g; buf = none }) s)
          (Blocked h (got ++ more) s)
  started_part g body got more missing s ok len supplied a short frame some_missing valid e =
      elim (Bool-cases (ltb (length got + length more) 8)) [
        | inl few ↦ started_short g got more s a (ltb→lt _ _ few) valid e
        | inr enough ↦
            let (chunk, rest, cut, size) =
              split_at (8 - length got) more (ground (arith, enough)) in
            let (front, back) =
              frame_cut body got more chunk rest missing frame cut (omega (arith, size)) in
            subst
              (λ l.
                Returns (recv_started alloc (length l) (record { header = g; buf = none }) s)
                  (Blocked h (got ++ l) s))
              (sym cut)
              (started_rest g body got chunk rest missing s ok len
                (supplied (omega (arith, ap length back, length-append rest missing))) a short front
                back some_missing valid (e ∙ cut))
      ]

  -- The header becomes complete, and the whole body stands behind it.
  pub started_whole :
      (g : PacketHeader) (body got chunk rest : List ℕ) (ps : List Packet) (s : Socket)
      → IsHeader h s
      → length body ≡ h.length
      → (0 < h.length → Supplies alloc h s)
      → AtHeader got s
      → length got < 8
      → got ++ chunk ≡ header_bytes h
      → IsValid s.recv_bufs
      → content s.recv_bufs ≡ chunk ++ (body ++ rest)
      → HasRoom s ps
      → Returns
          (recv_started alloc
            (length (chunk ++ (body ++ rest)))
            (record { header = g; buf = none })
            s)
          λ r.
            (r.0 ≡ count (length (chunk ++ (body ++ rest)) - length rest))
            × Delivered h body rest ps r.1
            × (r.1.packet_seed ≡ s.packet_seed)
  started_whole g body got chunk rest ps s ok len supplied a short front valid e queued =
      let (d, b, run, filled, v', left) =
        header_done (record { header = g; buf = none }) got chunk (body ++ rest) s a short front
          valid e in
      let (t, run', result) =
        opened_whole alloc h g (length (chunk ++ (body ++ rest))) body rest ps
          (record s { recv_head_buf = d; recv_bufs = b }) (kept ok d b) filled a.no_body supplied
          len v' left queued in
      (t, run ∙ run', result)

  -- The header is complete: the rest is up to the body.
  pub started_body :
      (p : Packet) (got : List ℕ) (n : ℕ) (s : Socket)
      → AtBody h got s
      → recv_started alloc n p s ≡ recv_rest alloc n n p s
  unfolding recv_started
  started_body p got n s a =
      let (b, is, _) = a.body in
      let full = recv_header_full alloc h got n s a in rw (full, ◌>>=◌) (opened_some n p s b is)
