-- ===== src/Socket/Flush/Wire.antt =====
-- `sendBuffer`: what the system took and what is left in the buffer.
use gearkit.Base.{
  ℕ, zero, suc, ◌+◌, ◌-◌, ◌≤◌, ◌<◌, ◌≡◌, inl, inr, refl, sym, ap, ◌∙◌, arith, List, [], ◌++◌,
  Option, some, true, length, length-append, take, ltb, Bool-cases, split_at, subst,
}
use mathlib.Core.List.{append_assoc, append-nil}
use gearkit.Base.Run.{Run, done, Returns, ◌>>=◌}
use gearkit.Buffer.{Buffer, skip_read, get_readable_size}
use gearkit.Buffer.Inv.{IsValid, content}
use gearkit.Buffer.Memory.{copy_out}
use gearkit.Buffer.Stream.Codec.{take_front}
use gearkit.Socket.{to_u32}
use gearkit.Socket.Copy.{taken_lem}
use gearkit.Socket.Send.Pending.{IsSized}
use gearkit.Socket.Send.Stream.{readable_lem}
use gearkit.Socket.Flush.{
  Answer, took, would_block, failed, System, Line, after_send, send_loop, send_buffer,
}

-- What the system's documentation says: it takes no more than it is given.
pub record IsSystem {W : Type 0} (send : System W) : Type 0 where
  pub took-le : (w : W) (bytes : List ℕ) (n : ℕ) → (send w bytes).0 ≡ took n → n ≤ length bytes

-- The bytes on the wire and those in the buffer are the same as before, in the same order.
pub record Kept {W : Type 0} (b : Buffer) (line : Line W) (r : Option ℕ × Buffer × Line W)
    : Type 0 where
  pub sized : IsSized r.1
  pub bytes : r.2.wire ++ content r.1 ≡ line.wire ++ content b

-- What is left when the system took `n` bytes.
took_lem :
    (n : ℕ) (b : Buffer)
    → IsSized b
    → n ≤ length (content b)
    → IsSized (skip_read n b)
      × (take n (content b) ++ content (skip_read n b) ≡ content b)
      × (n + length (content (skip_read n b)) ≡ length (content b))
took_lem n b s h =
    let (chunk, rest, cut, size) = split_at n (content b) h in
    let (_, valid, left) = taken_lem chunk rest b s.valid cut in
    let front : take n (content b) ≡ chunk =
      ap (take n) cut ∙ ap (λ k. take k (chunk ++ rest)) (sym size) ∙ take_front chunk rest in
    let same : skip_read (length chunk) b ≡ skip_read n b = ap (λ k. skip_read k b) size in
    let left' : content (skip_read n b) ≡ rest = ap content (sym same) ∙ left in
    (
      record { valid = subst IsValid same valid; small = unfold skip_read in s.small },
      ap (λ l. l ++ content (skip_read n b)) front ∙ ap (λ l. chunk ++ l) left' ∙ sym cut,
      omega (arith, ap length left', ap length cut, length-append chunk rest, size),
    )

module _ {W : Type 0} (send : System W) (law : IsSystem send) where
  after_send-Kept :
      (again : ℕ → Buffer → Line W → Run (Option ℕ × Buffer × Line W)) (nsend : ℕ) (b : Buffer)
      (line : Line W) (a : Answer × W)
      → IsSized b
      → ((n : ℕ) → a.0 ≡ took n → n ≤ length (content b))
      → ((n : ℕ) (b' : Buffer) (line' : Line W)
          → IsSized b'
          → 0 < n
          → n + length (content b') ≡ length (content b)
          → Returns (again (nsend + n) b' line') (Kept b' line'))
      → Returns (after_send again nsend (content b) b line a) (Kept b line)
  unfolding after_send
  after_send-Kept again nsend b line (failed, w) s within next =
      (_, refl, record { sized = s; bytes = refl })
  after_send-Kept again nsend b line (would_block, w) s within next =
      (_, refl, record { sized = s; bytes = refl })
  after_send-Kept again nsend b line (took zero, w) s within next =
      (_, refl, record { sized = s; bytes = refl })
  after_send-Kept again nsend b line (took (suc n), w) s within next =
      let (s', whole, len) = took_lem (suc n) b s (within (suc n) refl) in
      let (r, run, k) =
        next (suc n) (skip_read (suc n) b)
          (record { system = w; wire = line.wire ++ take (suc n) (content b) }) s' (omega arith)
          len in
      (
        r,
        run,
        record {
          sized = k.sized;
          bytes =
              k.bytes
              ∙ append_assoc line.wire (take (suc n) (content b)) (content (skip_read (suc n) b))
              ∙ ap (λ l. line.wire ++ l) whole;
        },
      )

  send_loop_round :
      (fuel nsize nsend : ℕ) (b : Buffer) (bytes : List ℕ) (line : Line W)
      → ltb nsend nsize ≡ true
      → copy_out b.mem b.read_cur (nsize - nsend) ≡ done bytes
      → send_loop send (suc fuel) nsize nsend b line
        ≡ after_send (send_loop send fuel nsize) nsend bytes b line (send line.system bytes)
  unfolding send_loop after_send
  send_loop_round fuel nsize nsend b bytes line more out = rw (send_loop, more, out, ◌>>=◌) refl

  send_loop-Kept :
      (fuel nsize nsend : ℕ) (b : Buffer) (line : Line W)
      → IsSized b
      → nsend + length (content b) ≡ nsize
      → length (content b) < fuel
      → Returns (send_loop send fuel nsize nsend b line) (Kept b line)
  unfolding send_loop
  send_loop-Kept zero nsize nsend b line s e h = absurd (omega (arith, h))
  send_loop-Kept (suc fuel) nsize nsend b line s e h = elim (Bool-cases (ltb nsend nsize)) [
    | inr all ↦
        rw (send_loop, all) ((some nsend, b, line), refl, record { sized = s; bytes = refl })
    | inl more ↦
        let (out, _, _) = taken_lem (content b) [] b s.valid (sym (append-nil (content b))) in
        let len : nsize - nsend ≡ length (content b) = omega (arith, e) in
        let (r, run, k) =
          after_send-Kept (send_loop send fuel nsize) nsend b line (send line.system (content b)) s
            (λ n a. law.took-le line.system (content b) n a)
            (λ n b' line' s' pos less.
              send_loop-Kept fuel nsize (nsend + n) b' line' s' (omega (arith, e, less))
                (omega (arith, less, h, pos))) in
        (
          r,
          send_loop_round fuel nsize nsend b (content b) line more
                (ap (copy_out b.mem b.read_cur) len ∙ out)
              ∙ run,
          k,
        )
  ]

  pub send_buffer-Kept :
      (b : Buffer) (line : Line W) → IsSized b → Returns (send_buffer send b line) (Kept b line)
  unfolding send_buffer
  send_buffer-Kept b line s =
      let e = readable_lem b s in
      send_loop-Kept (suc (to_u32 (get_readable_size b))) (to_u32 (get_readable_size b)) 0 b line s
        (omega (arith, e)) (omega (arith, e))
