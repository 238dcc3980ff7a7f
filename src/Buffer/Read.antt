-- ===== src/Buffer/Read.antt =====
-- `readBuffer`.
use gearkit.Base.{
  ℕ, ◌+◌, ◌-◌, ◌^◌, ◌≤◌, ◌<◌, ◌≡◌, refl, sym, ap, ◌∙◌, arith, List, [], Bool, true, false, length,
  take, drop, le→leb, le→ltb_false, lt→ltb, lt→leb_false, ltb, leb, Bool-cases, inl, inr,
}
use gearkit.Base.Run.{done, fault, Returns}
use gearkit.Base.Slices.{slice, take-take, drop-take, drop-drop}
use gearkit.Base.Words.{sub_size}
use gearkit.Buffer.{Buffer, compact, reserve_buffer, read_buffer, get_readable_size}
use gearkit.Buffer.Inv.{IsValid, content, length-content}
use gearkit.Buffer.Memory.{Allocator, copy_out}
use gearkit.Buffer.Reserve.{copy_out-slice}

-- What reading `size` bytes that were written does: the oldest `size` bytes come out, in order.
pub record Taken (size : ℕ) (b : Buffer) (r : Bool × List ℕ × Buffer) : Type 0 where
  pub answer : r.0 ≡ true
  pub bytes : r.1 ≡ take size (content b)
  pub valid : IsValid r.2
  pub left : content r.2 ≡ drop size (content b)

-- Reading no more than waits to be read stays inside the block, succeeds, hands out the oldest bytes
-- and leaves the others.
pub read_buffer-Taken :
    (size : ℕ) {b : Buffer}
    → IsValid b
    → size ≤ length (content b)
    → Returns (read_buffer size b) (Taken size b)
unfolding read_buffer
read_buffer-Taken size {b} v h =
    let r = b.read_cur in
    let n = b.write_cur - r in
    let len = length-content v in
    (
      (true, slice r size b.mem, record b { read_cur = r + size }),
      rw (le→ltb_false b.tail (r + size) (omega arith), copy_out-slice b.mem r size (omega arith)),
      record {
        answer = refl;
        bytes = sym (take-take size n (drop r b.mem) (omega arith));
        valid = omega arith;
        left =
            ap (λ k. take k (drop (r + size) b.mem)) (omega arith)
            ∙ sym (ap (take (n - size)) (drop-drop size r b.mem))
            ∙ sym (drop-take size n (drop r b.mem));
      },
    )

-- Reading past the buffer's size answers `false` and changes nothing.
pub read_buffer_refused :
    (size : ℕ) (b : Buffer) → b.tail < b.read_cur + size → read_buffer size b ≡ done (false, [], b)
unfolding read_buffer
read_buffer_refused size b h = rw (lt→ltb _ _ h)

-- In between the bound is the size and not what was written: from a valid buffer, more bytes than
-- wait to be read are handed out, and the read cursor passes the write cursor. The readable size
-- then wraps round to at least 2 ^ 63.
pub read_buffer_over :
    (size : ℕ) {b : Buffer}
    → IsValid b
    → length (content b) < size
    → b.read_cur + size ≤ b.tail
    → Returns
        (read_buffer size b)
        λ r. (r.0 ≡ true) × (r.2.write_cur < r.2.read_cur) × (2 ^ 63 ≤ get_readable_size r.2)
unfolding read_buffer get_readable_size
read_buffer_over size {b} v more inside =
    let len = length-content v in
    (
      (true, slice b.read_cur size b.mem, record b { read_cur = b.read_cur + size }),
      rw (
        le→ltb_false b.tail (b.read_cur + size) inside,
        copy_out-slice b.mem b.read_cur size (omega arith),
      ),
      (refl, omega arith, omega arith),
    )

-- Once the read cursor has passed the write cursor, a reservation that wants to move the bytes to the
-- front goes outside the block.
pub reserve_buffer_fault :
    (alloc : Allocator) (size : ℕ) (b : Buffer)
    → b.write_cur < b.read_cur
    → b.read_cur ≤ b.tail
    → length b.mem < 2 ^ 63
    → b.tail ≤ length b.mem
    → b.tail < b.write_cur + size
    → b.write_cur + size ≤ b.read_cur + b.tail
    → reserve_buffer alloc size b ≡ fault
unfolding reserve_buffer compact get_readable_size copy_out
reserve_buffer_fault alloc size b passed inside small room over moves =
    let huge : length b.mem < b.read_cur + sub_size b.write_cur b.read_cur = omega arith in
    rw (
      lt→leb_false _ _ over,
      le→leb size (sub_size (b.read_cur + b.tail) b.write_cur) (omega arith),
      lt→leb_false _ _ huge,
    )

-- A read moves the read cursor only.
pub read_buffer_keeps :
    (size : ℕ) (b : Buffer) (r : Bool × List ℕ × Buffer)
    → read_buffer size b ≡ done r
    → (r.2.write_cur ≡ b.write_cur) × (r.2.tail ≡ b.tail)
unfolding read_buffer copy_out
read_buffer_keeps size b r e = elim (Bool-cases (ltb b.tail (b.read_cur + size))) [
  | inl over ↦ let e' = rw over at e in (cc, cc)
  | inr inside ↦ elim (Bool-cases (leb (b.read_cur + size) (length b.mem))) [
    | inl fits ↦ let e' = rw (inside, fits) at e in (cc, cc)
    | inr past ↦ let e' = rw (inside, past) at e in (cc, cc)
  ]
]
