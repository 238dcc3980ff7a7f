-- ===== src/Socket/Send/Stream.antt =====
-- The bytes that a call of `doSend` moves.
use Prim.Native.Nat.{min}
use gearkit.Base.{
  ℕ, ◌+◌, ◌-◌, ◌≤◌, ◌<◌, ◌≡◌, refl, sym, ap, ◌∙◌, arith, ◌++◌, some, length, length-append, ltb,
  lt→ltb, split_at, if◌then◌else◌,
}
use mathlib.Core.List.{append_assoc}
use gearkit.Base.Run.{done, Returns, ◌>>=◌}
use gearkit.Buffer.{Buffer, get_readable_size}
use gearkit.Buffer.Inv.{content, length-content}
use gearkit.Buffer.Memory.{Allocator}
use gearkit.Socket.{to_u32, transfer}
use gearkit.Socket.Copy.{readable-content, transfer-Appended}
use gearkit.Socket.Send.{Sender, count, send_header, send_done, send_body}
use gearkit.Socket.Send.Pending.{IsSized}

-- What a transfer of as many bytes as there are, or as fit, does to both buffers.
pub record Shifted (n : ℕ) (dst src : Buffer) (r : Buffer × Buffer) : Type 0 where
  pub dst_sized : IsSized r.0
  pub src_sized : IsSized r.1
  pub bytes : content r.0 ++ content r.1 ≡ content dst ++ content src
  pub left : length (content r.1) ≡ length (content src) - min n (length (content src))
  pub room : r.0.write_cur + (n - min n (length (content src))) ≤ r.0.capacity
  pub capacity : r.1.capacity ≡ src.capacity

pub shift_lem :
    (alloc : Allocator) (n : ℕ) (dst src : Buffer)
    → IsSized dst
    → IsSized src
    → dst.write_cur + n ≤ dst.capacity
    → Returns (transfer alloc (min n (length (content src))) dst src) (Shifted n dst src)
shift_lem alloc n dst src d s room =
    let k = min n (length (content src)) in
    let (chunk, rest, cut, size) = split_at k (content src) (omega arith) in
    let (r, run, (p, v, left, cap)) =
      transfer-Appended alloc chunk rest dst src d.valid (omega (arith, size)) s.valid cut in
    (
      r,
      ap (λ i. transfer alloc i dst src) (sym size) ∙ run,
      record {
        dst_sized = record { valid = p.valid; small = omega (arith, p.capacity, d.small) };
        src_sized = record { valid = v; small = omega (arith, cap, s.small) };
        bytes =
            ap (λ l. l ++ content r.1) p.appended
            ∙ ap (λ l. (content dst ++ chunk) ++ l) left
            ∙ append_assoc (content dst) chunk rest
            ∙ ap (λ l. content dst ++ l) (sym cut);
        left = omega (arith, ap length left, ap length cut, length-append chunk rest, size);
        room = omega (arith, p.cursor, p.capacity, size, room);
        capacity = cap;
      },
    )

pub readable_lem : (b : Buffer) → IsSized b → to_u32 (get_readable_size b) ≡ length (content b)
readable_lem b s =
    let v = s.valid in
    readable-content (content b) v refl
      (omega (arith, s.small, length-content v, v.write_in, v.tail_in))

module _ (alloc : Allocator) where
  pub header_run :
      (n : ℕ) (s : Sender) (r : Buffer × Buffer)
      → IsSized s.send_head_buf
      → 0 < length (content s.send_head_buf)
      → transfer alloc (min n (length (content s.send_head_buf))) s.send_bufs s.send_head_buf
        ≡ done r
      → min (length (content s.send_head_buf)) n ≡ min n (length (content s.send_head_buf))
      → let k = min n (length (content s.send_head_buf)) in
        send_header alloc n s
        ≡ done (
          length (content s.send_head_buf) - k,
          n - k,
          record s { send_bufs = r.0; send_head_buf = r.1 },
        )
  unfolding send_header
  header_run n s r sized some_bytes run same =
      rw
        (
          readable_lem s.send_head_buf sized,
          lt→ltb 0 (length (content s.send_head_buf)) some_bytes,
          same,
          run,
          ◌>>=◌,
        )
        refl

  pub header_none :
      (n : ℕ) (s : Sender)
      → IsSized s.send_head_buf
      → length (content s.send_head_buf) ≡ 0
      → send_header alloc n s ≡ done (0, n, s)
  unfolding send_header
  header_none n s sized nothing =
      let zero_bytes = readable_lem s.send_head_buf sized ∙ nothing in rw zero_bytes refl

  pub body_run :
      (total n : ℕ) (b : Buffer) (s : Sender) (r : Buffer × Buffer)
      → IsSized b
      → 0 < length (content b)
      → transfer alloc (min n (length (content b))) s.send_bufs b ≡ done r
      → let k = min n (length (content b)) in
        let t = record s { send_bufs = r.0; send_buf = some r.1 } in
        send_body alloc total n b s
        ≡ (if ltb 0 (length (content b) - k) then done (count 0, t) else send_done total (n - k) t)
  unfolding send_body
  body_run total n b s r sized some_bytes run =
      rw (readable_lem b sized, lt→ltb 0 (length (content b)) some_bytes, run, ◌>>=◌) refl

  pub body_none :
      (total n : ℕ) (b : Buffer) (s : Sender)
      → IsSized b
      → length (content b) ≡ 0
      → send_body alloc total n b s ≡ send_done total n s
  unfolding send_body
  body_none total n b s sized nothing =
      let zero_bytes = readable_lem b sized ∙ nothing in rw zero_bytes refl
