-- ===== src/Socket/Deliver.antt =====
-- `doRecv` where the rest of a packet is there.
use gearkit.Base.{
  ℕ, ◌+◌, ◌-◌, ◌^◌, ◌≤◌, ◌<◌, ◌≡◌, inl, inr, refl, sym, ap, ap₂, ◌∙◌, arith, List, [], ◌++◌, none,
  length, length-append, subst, split_at, append_split,
}
use mathlib.Core.List.{append_assoc, append-nil}
use gearkit.Base.Run.{Returns}
use gearkit.Buffer.Inv.{IsValid, content}
use gearkit.Buffer.Memory.{Allocator}
use gearkit.Packet.{PacketHeader, Packet}
use gearkit.Packet.Header.{header_bytes}
use gearkit.Socket.{Socket, Received, count, recv_started, do_recv}
use gearkit.Socket.Partial.{AtHeader, AtBody}
use gearkit.Socket.Body.{HasRoom, Delivered, recv_rest_whole}
use gearkit.Socket.Open.{IsHeader, Supplies}
use gearkit.Socket.Receive.{Arrived, started_whole, started_body, frame_cut}
use gearkit.Socket.Stream.{opened, opened-AtHeader, idle_lem, resumed_lem, header_opened}

module _ (alloc : Allocator) (fresh h : PacketHeader) (body : List ℕ)
    (len : h.length ≡ length body) where
  -- The result: the bytes that were taken.
  abbrev Took : List ℕ → List ℕ → List Packet → Socket → Received × Socket → Type 0
  Took more rest ps s r =
      (r.0 ≡ count (length more - length rest))
      × Delivered h body rest ps r.1
      × (r.1.packet_seed ≡ s.packet_seed)

  started_frame :
      (g : PacketHeader) (got more rest : List ℕ) (ps : List Packet) (s : Socket)
      → IsHeader h s
      → (0 < h.length → Supplies alloc h s)
      → AtHeader got s
      → length got < 8
      → IsValid s.recv_bufs
      → content s.recv_bufs ≡ more
      → got ++ more ≡ header_bytes h ++ (body ++ rest)
      → HasRoom s ps
      → Returns
          (recv_started alloc (length more) (record { header = g; buf = none }) s)
          (Took more rest ps s)
  started_frame g got more rest ps s ok supplied a short valid e frame queued =
      let enough : 8 - length got ≤ length more = omega (
        arith,
        ap length frame,
        length-append got more,
        length-append (header_bytes h) (body ++ rest),
      ) in
      let (chunk, others, cut, size) = split_at (8 - length got) more enough in
      let (front, back) =
        frame_cut alloc h (body ++ rest) got more chunk others []
          (ap (λ l. got ++ l) (append-nil more) ∙ frame) cut (omega (arith, size)) in
      let whole : more ≡ chunk ++ (body ++ rest) =
        cut ∙ ap (λ l. chunk ++ l) (sym (append-nil others) ∙ back) in
      subst
        (λ l.
          Returns (recv_started alloc (length l) (record { header = g; buf = none }) s)
            (Took l rest ps s))
        (sym whole)
        (started_whole alloc h g body got chunk rest ps s ok (sym len) supplied a short front valid
          (e ∙ whole) queued)

  body_frame :
      (g chunk others : List ℕ) (ps : List Packet) (s : Socket)
      → IsHeader h s
      → AtBody h g s
      → length g < h.length
      → length g + length chunk ≡ h.length
      → IsValid s.recv_bufs
      → content s.recv_bufs ≡ chunk ++ others
      → HasRoom s ps
      → Returns
          (recv_started alloc (length (chunk ++ others)) (record { header = h; buf = none }) s)
          λ r.
            (r.0 ≡ count (length (chunk ++ others) - length others))
            × Delivered h (g ++ chunk) others ps r.1
            × (r.1.packet_seed ≡ s.packet_seed)
  body_frame g chunk others ps s ok a short total valid e queued =
      let n = length (chunk ++ others) in
      let p : Packet = record { header = h; buf = none } in
      let (r, run, result) =
        recv_rest_whole alloc h ok.short n h g chunk others ps s refl a short total valid e
          queued in
      (r, started_body alloc h p g n s a ∙ run, result)

  cut_result :
      (g chunk others more rest : List ℕ) (ps : List Packet) (s : Socket) (r : Received × Socket)
      → more ≡ chunk ++ others
      → g ++ chunk ≡ body
      → others ≡ rest
      → (r.0 ≡ count (length (chunk ++ others) - length others))
        × Delivered h (g ++ chunk) others ps r.1
        × (r.1.packet_seed ≡ s.packet_seed)
      → Took more rest ps s r
  cut_result g chunk others more rest ps s r cut whole behind (n, d, seed) = (
    n ∙ ap₂ (λ x y. count (length x - length y)) (sym cut) behind,
    subst (λ y. Delivered h body y ps r.1) behind
        (subst (λ x. Delivered h x others ps r.1) whole d),
    seed,
  )

  -- For a header with a number of 32 bits, a length of 16 bits that is the body's, and the socket's
  -- own seed of 16 bits, and, where the length is not 0, a pool that hands out a valid empty buffer of
  -- that length; on a valid receive buffer with fewer than 2 ^ 32 bytes to read that go on where the
  -- packet stopped, and with fewer than 2 ^ 31 - 1 packets in the queue.
  -- Where the buffer holds what is missing of the packet, and `rest` behind it, `doRecv` stays
  -- inside the memory, takes those bytes and no others, returns their number, and delivers the packet
  -- behind those in the queue; it is then between two packets.
  pub do_recv-Delivered :
      (got more rest : List ℕ) (ps : List Packet) (s : Socket)
      → IsHeader h s
      → (0 < h.length → Supplies alloc h s)
      → Arrived h got s
      → IsValid s.recv_bufs
      → content s.recv_bufs ≡ more
      → length more < 2 ^ 32
      → got ++ more ≡ header_bytes h ++ (body ++ rest)
      → HasRoom s ps
      → Returns (do_recv alloc fresh s) λ r.
        (r.0 ≡ count (length more - length rest))
        × Delivered h body rest ps r.1
        × (r.1.packet_seed ≡ s.packet_seed)
  unfolding opened
  do_recv-Delivered got more rest ps s ok supplied (inl (i, nothing)) valid e small frame queued =
      let (r, run, p) =
        started_frame fresh [] more rest ps (opened fresh s)
          (header_opened alloc fresh h body len ok) supplied (opened-AtHeader fresh s i)
          (omega arith) valid e (ap (λ l. l ++ more) (sym nothing) ∙ frame) queued in
      (r, idle_lem alloc fresh more s i valid e small ∙ run, p)
  do_recv-Delivered got more rest ps s ok supplied (inr (inl (a, short))) valid e small frame
        queued =
      let (g, is) = a.opened in
      let (r, run, p) =
        started_frame g got more rest ps s ok supplied a short valid e frame queued in
      (r, resumed_lem alloc fresh more _ s is valid e small ∙ run, p)
  do_recv-Delivered got more rest ps s ok supplied (inr (inr (g, a, short, at))) valid e small frame
        queued =
      let (_, back) =
        append_split (header_bytes h) (g ++ more) (header_bytes h) (body ++ rest)
          (sym (append_assoc (header_bytes h) g more) ∙ ap (λ l. l ++ more) (sym at) ∙ frame)
          refl in
      let enough : length body - length g ≤ length more =
        omega (arith, ap length back, length-append g more, length-append body rest) in
      let (chunk, others, cut, size) = split_at (length body - length g) more enough in
      let total : length g + length chunk ≡ length body = omega (arith, size, len, short) in
      let (whole, behind) =
        append_split (g ++ chunk) others body rest
          (append_assoc g chunk others ∙ ap (λ l. g ++ l) (sym cut) ∙ back)
          (length-append g chunk ∙ total) in
      let (r, run, p) =
        body_frame g chunk others ps s ok a short (total ∙ sym len) valid (e ∙ cut) queued in
      (
        r,
        resumed_lem alloc fresh more _ s a.opened valid e small
            ∙ ap (λ l. recv_started alloc (length l) (record { header = h; buf = none }) s) cut
            ∙ run,
        cut_result g chunk others more rest ps s r cut whole behind p,
      )
