-- ===== src/Socket/Send/Call.antt =====
-- The parts of `doSend`: each leaves the bytes of the stream in their order.
use Prim.Native.Nat.{min}
use gearkit.Base.{
  nil_of_length, ℕ, ◌+◌, ◌-◌, ◌≤◌, ◌≡◌, inl, inr, refl, sym, ap, ◌∙◌, arith, List, [], ◌++◌, none,
  some, Bool, true, false, length, ltb, ltb→lt, ◌==◌, Bool-cases, subst, if◌then◌else◌,
}
use gearkit.Base.Run.{done, Returns, ◌>>=◌}
use gearkit.Buffer.{Buffer}
use gearkit.Buffer.Inv.{content}
use gearkit.Buffer.Memory.{Allocator}
use gearkit.Packet.{Packet}
use gearkit.Socket.Send.{Sender, Sent, count, send_done, send_body}
use gearkit.Socket.Send.Pending.{
  body_of, unsent, IsSized, IsBody, IsReady, Moved, never_blocked, destroy_send_buf_lem,
}
use gearkit.Socket.Send.Stream.{Shifted, shift_lem, body_run, body_none}

pub body-IsSized : {s : Sender} (b : Buffer) → IsReady s → s.send_buf ≡ some b → IsSized b
body-IsSized b ok is = subst IsBody is ok.body

counted : (b : Bool) (x y : ℕ) → (n : ℕ) × ((if b then count x else count y) ≡ count n)
counted true x y = (x, refl)
counted false x y = (y, refl)

send_done_lem :
    (total n : ℕ) (b : Buffer) (s : Sender)
    → s.send_buf ≡ some b
    → IsReady s
    → Returns (send_done total n s) (Moved s [])
unfolding send_done
send_done_lem total n b s is ok =
    let (pool, run) =
      destroy_send_buf_lem (record s { send_packet = none }) b is (body-IsSized b ok is) in
    (
      (
        if n == 0 then count 0 else count (total - n),
        record s { send_packet = none; send_buf = none; pool = pool },
      ),
      rw (run, ◌>>=◌) refl,
      record {
        answer = counted (n == 0) 0 (total - n);
        finished = λ k pos e. refl;
        bytes = refl;
        ready = record {
          head = ok.head;
          head_room = ok.head_room;
          bufs = ok.bufs;
          body = tt;
          between = λ e. refl;
        };
        queue = refl;
        seed = refl;
      },
    )

-- A part that moved `pending` behind one that moved what stood in front of it.
pub then_Moved :
    (s t : Sender) (front pending : List ℕ) (r : Sent × Sender)
    → content t.send_bufs ++ pending ≡ content s.send_bufs ++ front
    → t.send_que ≡ s.send_que
    → t.packet_seed ≡ s.packet_seed
    → Moved t pending r
    → Moved s front r
then_Moved s t front pending r same que seed m = record {
  answer = m.answer;
  finished = m.finished;
  bytes = m.bytes ∙ same;
  ready = m.ready;
  queue = m.queue ∙ que;
  seed = m.seed ∙ seed;
}

-- Where a packet is open.
pub busy_unsent :
    (s : Sender) (p : Packet)
    → s.send_packet ≡ some p
    → unsent s.send_packet s.send_head_buf s.send_buf
      ≡ content s.send_head_buf ++ body_of s.send_buf
busy_unsent s p is = ap (λ o. unsent o s.send_head_buf s.send_buf) is

module _ (alloc : Allocator) where
  body_shift :
      (total n : ℕ) (b : Buffer) (p : Packet) (s : Sender) (r : Buffer × Buffer)
      → s.send_packet ≡ some p
      → content s.send_head_buf ≡ []
      → IsReady s
      → Shifted n s.send_bufs b r
      → let k = min n (length (content b)) in
        let t = record s { send_bufs = r.0; send_buf = some r.1 } in
        Returns
          (if ltb 0 (length (content b) - k) then done (count 0, t) else send_done total (n - k) t)
          (Moved s (content b))
  body_shift total n b p s r is empty ok sh =
      let k = min n (length (content b)) in
      let t = record s { send_bufs = r.0; send_buf = some r.1 } in
      let ready : IsReady t = record {
        head = ok.head;
        head_room = ok.head_room;
        bufs = sh.dst_sized;
        body = sh.src_sized;
        between = λ e. absurd (cc);
      } in
      elim (Bool-cases (ltb 0 (length (content b) - k))) [
        | inl more ↦ rw more (
          (count 0, t),
          refl,
          record {
            answer = (0, refl);
            finished = λ k pos e. never_blocked k pos e;
            bytes =
                ap (λ l. content r.0 ++ l) (busy_unsent t p is ∙ ap (λ l. l ++ content r.1) empty)
                ∙ sh.bytes;
            ready = ready;
            queue = refl;
            seed = refl;
          },
        )
        | inr all ↦
            let gone : content r.1 ≡ [] =
              nil_of_length (content r.1) (ground (arith, all, sh.left)) in
            let (u, run, m) = send_done_lem total (n - k) r.1 t refl ready in
            rw all (
              u,
              run,
              then_Moved s t (content b) [] u (ap (λ l. content r.0 ++ l) (sym gone) ∙ sh.bytes)
                  refl refl m,
            )
      ]

  pub send_body_lem :
      (total n : ℕ) (b : Buffer) (p : Packet) (s : Sender)
      → s.send_packet ≡ some p
      → s.send_buf ≡ some b
      → content s.send_head_buf ≡ []
      → IsReady s
      → s.send_bufs.write_cur + n ≤ s.send_bufs.capacity
      → Returns (send_body alloc total n b s) (Moved s (content b))
  send_body_lem total n b p s busy is empty ok room =
      let sized = body-IsSized b ok is in
      elim (Bool-cases (ltb 0 (length (content b)))) [
        | inl some_bytes ↦
            let (r, run, sh) = shift_lem alloc n s.send_bufs b ok.bufs sized room in
            let (u, run', m) = body_shift total n b p s r busy empty ok sh in
            (u, body_run alloc total n b s r sized (ltb→lt _ _ some_bytes) run ∙ run', m)
        | inr none_left ↦
            let zero_bytes : length (content b) ≡ 0 = ground (arith, none_left) in
            let (u, run, m) = send_done_lem total n b s is ok in
            (
              u,
              body_none alloc total n b s sized zero_bytes ∙ run,
              subst (λ l. Moved s l u) (sym (nil_of_length (content b) zero_bytes)) m,
            )
      ]
