-- ===== src/Socket/Partial.antt =====
-- How far a packet has arrived, and the receiving of its header.
use Prim.Native.Nat.{min}
use gearkit.Base.{
  ℕ, ◌-◌, ◌<◌, ◌≡◌, refl, arith, List, ◌++◌, none, some, length, length-append, lt→ltb,
}
use gearkit.Base.Run.{done, Returns, ◌>>=◌}
use gearkit.Buffer.{Buffer, get_writable_size}
use gearkit.Buffer.Inv.{IsValid, content}
use gearkit.Buffer.Memory.{Allocator}
use gearkit.Buffer.Write.{Filled}
use gearkit.Packet.{PacketHeader}
use gearkit.Socket.{Socket, to_u32, transfer, recv_header}
use gearkit.Socket.Copy.{writable-Filled, transfer_lem}

-- Between two packets.
pub record Idle (s : Socket) : Type 0 where
  pub head_valid : IsValid s.recv_head_buf
  pub head_size : s.recv_head_buf.tail ≡ 8
  pub no_packet : s.recv_packet ≡ none
  pub no_body : s.recv_buf ≡ none

-- In the header, of which `got` has arrived.
pub record AtHeader (got : List ℕ) (s : Socket) : Type 0 where
  pub opened : (g : PacketHeader) × (s.recv_packet ≡ some (record { header = g; buf = none }))
  pub head : Filled 8 got s.recv_head_buf
  pub no_body : s.recv_buf ≡ none

-- In the body behind the header `h`, of which `got` has arrived.
pub record AtBody (h : PacketHeader) (got : List ℕ) (s : Socket) : Type 0 where
  pub opened : s.recv_packet ≡ some (record { header = h; buf = none })
  pub head_valid : IsValid s.recv_head_buf
  pub head_size : s.recv_head_buf.tail ≡ 8
  pub head_full : s.recv_head_buf.write_cur ≡ 8
  pub body : (b : Buffer) × (s.recv_buf ≡ some b) × Filled h.length got b

recv_header_run :
    (alloc : Allocator) (old chunk rest : List ℕ) (s : Socket) (r : Buffer × Buffer)
    → Filled 8 old s.recv_head_buf
    → length old < 8
    → min (8 - length old) (length (chunk ++ rest)) ≡ length chunk
    → transfer alloc (length chunk) s.recv_head_buf s.recv_bufs ≡ done r
    → recv_header alloc (length (chunk ++ rest)) s
      ≡ done (
        8 - length (old ++ chunk),
        length rest,
        record s { recv_head_buf = r.0; recv_bufs = r.1 },
      )
unfolding recv_header
recv_header_run alloc old chunk rest s r f short few run =
    let pos = lt→ltb 0 (8 - length old) (omega arith) in
    let missing : (8 - length old) - length chunk ≡ 8 - length (old ++ chunk) =
      omega (arith, length-append old chunk) in
    let more : length (chunk ++ rest) - length chunk ≡ length rest =
      omega (arith, length-append chunk rest) in
    rw (writable-Filled f (omega arith), pos, few, run, ◌>>=◌, missing, more) refl

pub recv_header_lem :
    (alloc : Allocator) (old chunk rest : List ℕ) (s : Socket)
    → Filled 8 old s.recv_head_buf
    → length old < 8
    → IsValid s.recv_bufs
    → content s.recv_bufs ≡ chunk ++ rest
    → min (8 - length old) (length (chunk ++ rest)) ≡ length chunk
    → Returns (recv_header alloc (length (chunk ++ rest)) s) λ r.
      (d b : Buffer) × (r
        ≡ (8 - length (old ++ chunk), length rest, record s { recv_head_buf = d; recv_bufs = b }))
      × Filled 8 (old ++ chunk) d
      × IsValid b
      × (content b ≡ rest)
recv_header_lem alloc old chunk rest s f short v e few =
    let (r, run, (filled, v', left)) =
      transfer_lem alloc 8 old chunk rest s.recv_head_buf s.recv_bufs f (omega (arith, few)) v e in
    (
      (8 - length (old ++ chunk), length rest, record s { recv_head_buf = r.0; recv_bufs = r.1 }),
      recv_header_run alloc old chunk rest s r f short few run,
      (r.0, r.1, refl, filled, v', left),
    )

-- With the header complete nothing happens.
pub recv_header_full :
    (alloc : Allocator) (h : PacketHeader) (got : List ℕ) (n : ℕ) (s : Socket)
    → AtBody h got s
    → recv_header alloc n s ≡ done (0, n, s)
unfolding recv_header get_writable_size
recv_header_full alloc h got n s a =
    let full : to_u32 (get_writable_size s.recv_head_buf) ≡ 0 =
      omega (arith, a.head_size, a.head_full) in
    rw full refl
