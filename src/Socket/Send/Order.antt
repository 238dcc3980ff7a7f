-- ===== src/Socket/Send/Order.antt =====
-- `doSend`: the bytes of the packets in the order of the queue.
use Prim.Native.Nat.{min}
use gearkit.Base.{
  ℕ, ◌+◌, ◌-◌, ◌≤◌, ◌≡◌, inl, inr, refl, sym, ap, ◌∙◌, arith, [], ◌++◌, none, some, false, length,
  ltb, ltb→lt, ◌==◌, Bool-cases, Option-cases, subst,
}
use gearkit.Base.Run.{done, Returns}
use gearkit.Buffer.{Buffer}
use gearkit.Buffer.Inv.{content}
use gearkit.Buffer.Memory.{Allocator}
use gearkit.Packet.{Packet}
use gearkit.Socket.Send.{Sender, count, send_header, send_body, send_rest}
use gearkit.Socket.Send.Pending.{body_of, IsSized, IsReady, Moved, never_blocked}
use gearkit.Socket.Send.Stream.{shift_lem, header_run, header_none}
use gearkit.Socket.Send.Call.{busy_unsent, send_body_lem}

module _ (alloc : Allocator) where
  rest_none :
      (total n : ℕ) (s : Sender)
      → s.send_buf ≡ none
      → send_rest alloc total n s ≡ done (count (total - n), record s { send_packet = none })
  unfolding send_rest
  rest_none total n s is = rw is refl

  rest_blocked :
      (total : ℕ) (b : Buffer) (s : Sender)
      → s.send_buf ≡ some b
      → send_rest alloc total 0 s ≡ done (count 0, s)
  unfolding send_rest
  rest_blocked total b s is = rw is refl

  rest_some :
      (total n : ℕ) (b : Buffer) (s : Sender)
      → s.send_buf ≡ some b
      → (n == 0) ≡ false
      → send_rest alloc total n s ≡ send_body alloc total n b s
  unfolding send_rest
  rest_some total n b s is more = rw (is, more) refl

  -- Behind the header.
  pub send_rest_lem :
      (total n : ℕ) (p : Packet) (s : Sender)
      → s.send_packet ≡ some p
      → content s.send_head_buf ≡ []
      → IsReady s
      → s.send_bufs.write_cur + n ≤ s.send_bufs.capacity
      → Returns (send_rest alloc total n s) (Moved s (body_of s.send_buf))
  send_rest_lem total n p s busy empty ok room = elim (Option-cases s.send_buf) [
    | inl is ↦ (
      (count (total - n), record s { send_packet = none }),
      rest_none total n s is,
      record {
        answer = (total - n, refl);
        finished = λ k pos e. refl;
        bytes = ap (λ o. content s.send_bufs ++ body_of o) (sym is);
        ready = record {
          head = ok.head;
          head_room = ok.head_room;
          bufs = ok.bufs;
          body = ok.body;
          between = λ e. is;
        };
        queue = refl;
        seed = refl;
      },
    )
    | inr (b, is) ↦ elim (Bool-cases (n == 0)) [
      | inl blocked ↦
          let zero_left : n ≡ 0 = ground (arith, blocked) in
          (
            (count 0, s),
            ap (λ k. send_rest alloc total k s) zero_left ∙ rest_blocked total b s is,
            record {
              answer = (0, refl);
              finished = λ k pos e. never_blocked k pos e;
              bytes =
                  ap (λ l. content s.send_bufs ++ l)
                    (busy_unsent s p busy ∙ ap (λ l. l ++ body_of s.send_buf) empty);
              ready = ok;
              queue = refl;
              seed = refl;
            },
          )
      | inr more ↦
          let (u, run, m) = send_body_lem alloc total n b p s busy is empty ok room in
          (u, rest_some total n b s is more ∙ run, subst (λ o. Moved s (body_of o) u) (sym is) m)
    ]
  ]

  -- What `send_header` leaves.
  pub record HeaderSent (s : Sender) (r : ℕ × ℕ × Sender) : Type 0 where
    pub bufs : Buffer
    pub head : Buffer
    pub state : r.2 ≡ record s { send_bufs = bufs; send_head_buf = head }
    pub missing : r.0 ≡ length (content head)
    pub bufs_sized : IsSized bufs
    pub head_sized : IsSized head
    pub capacity : head.capacity ≡ s.send_head_buf.capacity
    pub bytes : content bufs ++ content head ≡ content s.send_bufs ++ content s.send_head_buf
    pub room : bufs.write_cur + r.1 ≤ bufs.capacity

  pub send_header_lem :
      (n : ℕ) (s : Sender)
      → IsReady s
      → s.send_bufs.write_cur + n ≤ s.send_bufs.capacity
      → Returns (send_header alloc n s) (HeaderSent s)
  send_header_lem n s ok room =
      let m = length (content s.send_head_buf) in
      elim (Bool-cases (ltb 0 m)) [
        | inl some_bytes ↦
            let (r, run, sh) = shift_lem alloc n s.send_bufs s.send_head_buf ok.bufs ok.head room in
            (
              (m - min n m, n - min n m, record s { send_bufs = r.0; send_head_buf = r.1 }),
              header_run alloc n s r ok.head (ltb→lt _ _ some_bytes) run (omega arith),
              record {
                bufs = r.0;
                head = r.1;
                state = refl;
                missing = sym sh.left;
                bufs_sized = sh.dst_sized;
                head_sized = sh.src_sized;
                capacity = sh.capacity;
                bytes = sh.bytes;
                room = sh.room;
              },
            )
        | inr nothing ↦
            let zero_bytes : m ≡ 0 = ground (arith, nothing) in
            (
              (0, n, s),
              header_none alloc n s ok.head zero_bytes,
              record {
                bufs = s.send_bufs;
                head = s.send_head_buf;
                state = refl;
                missing = sym zero_bytes;
                bufs_sized = ok.bufs;
                head_sized = ok.head;
                capacity = refl;
                bytes = refl;
                room = room;
              },
            )
      ]
