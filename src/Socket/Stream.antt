-- ===== src/Socket/Stream.antt =====
-- `doRecv` on a stream of packets that arrives in pieces.
use gearkit.Base.{
  ℕ, ◌+◌, ◌^◌, ◌<◌, ◌≡◌, inl, inr, refl, sym, ap, ◌∙◌, arith, List, [], ◌++◌, none, some, length,
  length-append, subst, append_split,
}
use mathlib.Core.List.{append_assoc}
use gearkit.Base.Run.{Returns}
use gearkit.Buffer.{reset}
use gearkit.Buffer.Inv.{IsValid, content, reset-IsValid}
use gearkit.Buffer.Memory.{Allocator}
use gearkit.Packet.{PacketHeader, Packet}
use gearkit.Packet.Header.{header_bytes}
use gearkit.Socket.{Socket, start_packet, recv_started, do_recv}
use gearkit.Socket.Copy.{readable-content}
use gearkit.Socket.Partial.{Idle, AtHeader}
use gearkit.Socket.Body.{recv_rest_part}
use gearkit.Socket.Open.{IsHeader, Supplies}
use gearkit.Socket.Receive.{Arrived, Blocked, started_part, started_body}

-- A packet was opened.
unfoldable pub opened : PacketHeader → Socket → Socket
opened fresh s = record s {
  recv_packet = some (record { header = fresh; buf = none });
  recv_head_buf = reset s.recv_head_buf;
}

pub opened-AtHeader : (fresh : PacketHeader) (s : Socket) → Idle s → AtHeader [] (opened fresh s)
unfolding opened reset
opened-AtHeader fresh s i =
    let (v, nothing) = reset-IsValid i.head_valid in
    record {
      opened = (fresh, refl);
      head = record {
        valid = unfold reset in v;
        size = i.head_size;
        start = refl;
        written = refl;
        waiting = nothing;
      };
      no_body = i.no_body;
    }

module _ (alloc : Allocator) (fresh : PacketHeader) where
  pub idle_lem :
      (more : List ℕ) (s : Socket)
      → Idle s
      → IsValid s.recv_bufs
      → content s.recv_bufs ≡ more
      → length more < 2 ^ 32
      → do_recv alloc fresh s
        ≡ recv_started alloc (length more) (record { header = fresh; buf = none }) (opened fresh s)
  unfolding do_recv start_packet opened
  idle_lem more s i v e small =
      let total = readable-content more v e small in
      let empty = i.no_packet in rw (empty, total) refl

  pub resumed_lem :
      (more : List ℕ) (p : Packet) (s : Socket)
      → s.recv_packet ≡ some p
      → IsValid s.recv_bufs
      → content s.recv_bufs ≡ more
      → length more < 2 ^ 32
      → do_recv alloc fresh s ≡ recv_started alloc (length more) p s
  unfolding do_recv start_packet
  resumed_lem more p s is v e small =
      let total = readable-content more v e small in rw (is, total) refl

  module _ (h : PacketHeader) (body : List ℕ) (len : h.length ≡ length body) where
    pub header_opened : {s : Socket} → IsHeader h s → IsHeader h (opened fresh s)
    unfolding opened
    header_opened ok = record {
      pid = ok.pid;
      short = ok.short;
      seed = ok.seed;
      trusted = ok.trusted;
    }

    -- For a header with a number of 32 bits, a length of 16 bits that is the body's, and the socket's
    -- own seed of 16 bits, and, where the length is not 0, a pool that hands out a valid empty buffer of
    -- that length; on a valid receive buffer with fewer than 2 ^ 32 bytes to read that go on where the
    -- packet stopped.
    -- Where the stream ends inside a packet with this header and body, `doRecv` stays inside the
    -- memory, returns SOCKET_RP_BLOCK, takes every byte, and delivers nothing: what has arrived of the
    -- packet is what had arrived before and the bytes of the buffer.
    pub do_recv-Blocked :
        (got more missing : List ℕ) (s : Socket)
        → IsHeader h s
        → (0 < h.length → Supplies alloc h s)
        → Arrived h got s
        → IsValid s.recv_bufs
        → content s.recv_bufs ≡ more
        → length more < 2 ^ 32
        → got ++ (more ++ missing) ≡ header_bytes h ++ body
        → 0 < length missing
        → Returns (do_recv alloc fresh s) (Blocked h (got ++ more) s)
    unfolding opened
    do_recv-Blocked got more missing s ok supplied (inl (i, nothing)) valid e small frame
          some_missing =
        let (r, run, p) =
          started_part alloc h fresh body [] more missing (opened fresh s) (header_opened ok) len
            supplied (opened-AtHeader fresh s i) (omega arith)
            (ap (λ l. l ++ (more ++ missing)) (sym nothing) ∙ frame) some_missing valid e in
        (
          r,
          idle_lem more s i valid e small ∙ run,
          subst (λ l. Blocked h (l ++ more) s r) (sym nothing)
              (record {
                zero_bytes = p.zero_bytes;
                arrived = p.arrived;
                valid = p.valid;
                nothing = p.nothing;
                queue = p.queue;
                seed = p.seed;
              }),
        )
    do_recv-Blocked got more missing s ok supplied (inr (inl (a, short))) valid e small frame
          some_missing =
        let (g, is) = a.opened in
        let (r, run, p) =
          started_part alloc h g body got more missing s ok len supplied a short frame some_missing
            valid e in
        (r, resumed_lem more _ s is valid e small ∙ run, p)
    do_recv-Blocked got more missing s ok supplied (inr (inr (g, a, short, at))) valid e small frame
          some_missing =
        let (_, back) =
          append_split (header_bytes h) (g ++ (more ++ missing)) (header_bytes h) body
            (sym (append_assoc (header_bytes h) g (more ++ missing))
              ∙ ap (λ l. l ++ (more ++ missing)) (sym at)
              ∙ frame)
            refl in
        let fewer : length g + length more < h.length =
          omega (
            arith,
            ap length back,
            length-append g (more ++ missing),
            length-append more missing,
          ) in
        let p : Packet = record { header = h; buf = none } in
        let (r, run, (zero_bytes, a', valid', nothing, que, seed)) =
          recv_rest_part alloc h ok.short (length more) p g more s a fewer valid e in
        (
          r,
          resumed_lem more p s a.opened valid e small
              ∙ started_body alloc h p g (length more) s a
              ∙ run,
          record {
            zero_bytes = zero_bytes;
            arrived = inr (
                inr (
                  g ++ more,
                  a',
                  omega (arith, length-append g more),
                  ap (λ l. l ++ more) at ∙ append_assoc (header_bytes h) g more,
                ));
            valid = valid';
            nothing = nothing;
            queue = que;
            seed = seed;
          },
        )
