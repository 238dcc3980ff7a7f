-- ===== src/Socket/Body.antt =====
-- The receiving of the body, and the packet that comes out of it.
use Prim.Native.Nat.{min}
use gearkit.Base.{
  suc, ℕ, ◌+◌, ◌-◌, ◌^◌, ◌<◌, ◌≡◌, refl, sym, ap, ◌∙◌, arith, List, [], ◌∷◌, ◌++◌, Option, none,
  some, false, length, length-append, ltb, lt→ltb, le→ltb_false, ◌==◌, subst,
}
use mathlib.Core.List.{append-nil}
use gearkit.Base.Run.{done, Returns, ◌>>=◌}
use gearkit.Buffer.{Buffer}
use gearkit.Buffer.Inv.{IsValid, content}
use gearkit.Buffer.Memory.{Allocator}
use gearkit.Buffer.Write.{Filled}
use gearkit.Packet.{PacketHeader, Packet, set_buffer}
use gearkit.QList.Refine.{Holds, push_refines}
use gearkit.Socket.{Socket, count, packet_queue_length, transfer, recv_packet, recv_body, recv_rest}
use gearkit.Socket.Copy.{writable-Filled, transfer_lem}
use gearkit.Socket.Partial.{Idle, AtBody}

-- The queue holds these packets.
abbrev pub Queued : Socket → List Packet → Type 0
Queued s ps = Holds packet_queue_length s.recv_que ps

-- Packets wait, and the `int` of the queue can count one more.
abbrev pub HasRoom : Socket → List Packet → Type 0
HasRoom s ps = Queued s ps × (suc (length ps) < 2 ^ 31)

-- The body of a packet; an empty one has no buffer.
abbrev pub Carries : List ℕ → Option Buffer → Type 0
Carries body none = body ≡ []
Carries body (some b) = content b ≡ body

-- A packet with this header and body came behind `ps` in the queue, the socket is between two
-- packets, and `rest` is left in its buffer.
pub record Delivered (h : PacketHeader) (body rest : List ℕ) (ps : List Packet) (s : Socket)
    : Type 0 where
  pub idle : Idle s
  pub valid : IsValid s.recv_bufs
  pub left : content s.recv_bufs ≡ rest
  pub packet : (p : Packet) × (p.header ≡ h) × Carries body p.buf × Queued s (ps ++ (p ∷ []))

pub recv_packet_lem :
    (h : PacketHeader) (body rest : List ℕ) (ps : List Packet) (p : Packet) (s : Socket)
    → IsValid s.recv_head_buf
    → s.recv_head_buf.tail ≡ 8
    → s.recv_buf ≡ none
    → IsValid s.recv_bufs
    → content s.recv_bufs ≡ rest
    → HasRoom s ps
    → p.header ≡ h
    → Carries body p.buf
    → Returns (recv_packet p s) λ t. Delivered h body rest ps t × (t.packet_seed ≡ s.packet_seed)
unfolding recv_packet
recv_packet_lem h body rest ps p s head size no_body valid left queued same carries =
    let (que, run, holds) = push_refines packet_queue_length s.recv_que ps p queued.0 queued.1 in
    (
      record s { recv_que = que; recv_packet = none },
      rw (run, ◌>>=◌) refl,
      (
        record {
          idle = record {
            head_valid = head;
            head_size = size;
            no_packet = refl;
            no_body = no_body;
          };
          valid = valid;
          left = left;
          packet = (p, same, carries, holds);
        },
        refl,
      ),
    )

module _ (alloc : Allocator) (h : PacketHeader) (small : h.length < 2 ^ 16) where
  -- The bytes that are there go into the buffer, which is not full afterwards.
  recv_body_part :
      (total : ℕ) (p : Packet) (old chunk rest : List ℕ) (buf : Buffer) (s : Socket)
      (r : Buffer × Buffer)
      → Filled h.length old buf
      → length old + length chunk < h.length
      → min (length (chunk ++ rest)) (h.length - length old) ≡ length chunk
      → transfer alloc (length chunk) buf s.recv_bufs ≡ done r
      → recv_body alloc total (length (chunk ++ rest)) p buf s
        ≡ done (count 0, record s { recv_buf = some r.0; recv_bufs = r.1 })
  unfolding recv_body
  recv_body_part total p old chunk rest buf s r f short few run =
      let pos = lt→ltb 0 (h.length - length old) (omega arith) in
      let more = lt→ltb 0 (h.length - length old - length chunk) (omega arith) in
      rw (writable-Filled f (omega arith), pos, few, run, ◌>>=◌, more) refl

  -- The buffer is full afterwards.
  recv_body_whole :
      (total : ℕ) (p : Packet) (old chunk rest : List ℕ) (buf : Buffer) (s : Socket)
      (r : Buffer × Buffer) (t : Socket)
      → Filled h.length old buf
      → length old < h.length
      → length old + length chunk ≡ h.length
      → transfer alloc (length chunk) buf s.recv_bufs ≡ done r
      → recv_packet (set_buffer (some r.0) p) (record s { recv_buf = none; recv_bufs = r.1 })
        ≡ done t
      → recv_body alloc total (length (chunk ++ rest)) p buf s
        ≡ done (count (total - length rest), t)
  unfolding recv_body
  recv_body_whole total p old chunk rest buf s r t f short whole run run' =
      let pos = lt→ltb 0 (h.length - length old) (omega arith) in
      let few : min (length (chunk ++ rest)) (h.length - length old) ≡ length chunk =
        omega (arith, length-append chunk rest) in
      let full : ltb 0 (h.length - length old - length chunk) ≡ false =
        le→ltb_false 0 (h.length - length old - length chunk) (omega arith) in
      let left : length (chunk ++ rest) - length chunk ≡ length rest =
        omega (arith, length-append chunk rest) in
      rw (writable-Filled f (omega arith), pos, few, run, ◌>>=◌, full, run', ◌>>=◌, left) refl

  filled_buf :
      (total n : ℕ) (p : Packet) (s : Socket) (b : Buffer)
      → s.recv_buf ≡ some b
      → 0 < n
      → recv_rest alloc total n p s ≡ recv_body alloc total n p b s
  unfolding recv_rest
  filled_buf total n p s b e pos = let off : (n == 0) ≡ false = ground arith in rw (e, off) refl

  -- Fewer bytes than are missing: they are taken.
  pub recv_rest_part :
      (total : ℕ) (p : Packet) (old more : List ℕ) (s : Socket)
      → AtBody h old s
      → length old + length more < h.length
      → IsValid s.recv_bufs
      → content s.recv_bufs ≡ more
      → Returns (recv_rest alloc total (length more) p s) λ r.
        (r.0 ≡ count 0)
        × AtBody h (old ++ more) r.1
        × IsValid r.1.recv_bufs
        × (content r.1.recv_bufs ≡ [])
        × (r.1.recv_que ≡ s.recv_que)
        × (r.1.packet_seed ≡ s.packet_seed)
  unfolding recv_rest
  recv_rest_part total p old [] s a short valid e =
      let (b, is, _) = a.body in
      (
        (count 0, s),
        rw is refl,
        (refl, subst (λ l. AtBody h l s) (sym (append-nil old)) a, valid, e, refl, refl),
      )
  recv_rest_part total p old (c ∷ cs) s a short valid e =
      let more = c ∷ cs in
      let (b, is, f) = a.body in
      let (r, run, (filled, v', left)) =
        transfer_lem alloc h.length old more [] b s.recv_bufs f (omega arith) valid
          (e ∙ sym (append-nil more)) in
      let few : min (length (more ++ [])) (h.length - length old) ≡ length more =
        omega (arith, length-append more []) in
      let body = recv_body_part total p old more [] b s r f short few run in
      (
        (count 0, record s { recv_buf = some r.0; recv_bufs = r.1 }),
        filled_buf total (length more) p s b is (omega arith)
            ∙ ap (λ l. recv_body alloc total (length l) p b s) (sym (append-nil more))
            ∙ body,
        (
          refl,
          record {
            opened = a.opened;
            head_valid = a.head_valid;
            head_size = a.head_size;
            head_full = a.head_full;
            body = (r.0, refl, filled);
          },
          v',
          left,
          refl,
          refl,
        ),
      )

  -- The bytes that are missing: the packet is delivered.
  pub recv_rest_whole :
      (total : ℕ) (g : PacketHeader) (old chunk rest : List ℕ) (ps : List Packet) (s : Socket)
      → g ≡ h
      → AtBody h old s
      → length old < h.length
      → length old + length chunk ≡ h.length
      → IsValid s.recv_bufs
      → content s.recv_bufs ≡ chunk ++ rest
      → HasRoom s ps
      → Returns
          (recv_rest alloc total (length (chunk ++ rest)) (record { header = g; buf = none }) s)
          λ r.
            (r.0 ≡ count (total - length rest))
            × Delivered h (old ++ chunk) rest ps r.1
            × (r.1.packet_seed ≡ s.packet_seed)
  recv_rest_whole total g old chunk rest ps s same a short whole valid e queued =
      let p : Packet = record { header = g; buf = none } in
      let (b, is, f) = a.body in
      let (r, run, (filled, v', left)) =
        transfer_lem alloc h.length old chunk rest b s.recv_bufs f (omega arith) valid e in
      let (t, run', (delivered, seed)) =
        recv_packet_lem h (old ++ chunk) rest ps (set_buffer (some r.0) p)
          (record s { recv_buf = none; recv_bufs = r.1 }) a.head_valid a.head_size refl v' left
          queued (unfold set_buffer in same) (unfold set_buffer in filled.waiting) in
      (
        (count (total - length rest), t),
        filled_buf total (length (chunk ++ rest)) p s b is (omega (arith, length-append chunk rest))
            ∙ recv_body_whole total p old chunk rest b s r t f short whole run run',
        (refl, delivered, seed),
      )
