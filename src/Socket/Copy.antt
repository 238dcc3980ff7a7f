-- ===== src/Socket/Copy.antt =====
-- Bytes from one buffer into another, and the sizes that decide how many.
use gearkit.Base.{
  ℕ, ◌+◌, ◌-◌, ◌^◌, ◌≤◌, ◌<◌, ◌≡◌, refl, sym, ap, ◌∙◌, arith, true, List, ◌++◌, length, take, drop,
  length-append,
}
use gearkit.Base.Run.{done, Returns, ◌>>=◌}
use gearkit.Base.Slices.{take-take, drop-take, drop-drop}
use gearkit.Buffer.{Buffer, skip_read, get_readable_size, get_writable_size}
use gearkit.Buffer.Appended.{Appended, write_buffer-Appended}
use gearkit.Buffer.Inv.{IsValid, content, length-content}
use gearkit.Buffer.Memory.{Allocator, copy_out}
use gearkit.Buffer.Reserve.{copy_out-slice}
use gearkit.Buffer.Stream.Codec.{take_front, drop_front}
use gearkit.Buffer.Write.{Filled, write_buffer-Filled}
use gearkit.Socket.{to_u32, transfer}

pub writable-Filled :
    {n : ℕ} {bytes : List ℕ} {b : Buffer}
    → Filled n bytes b
    → n < 2 ^ 32
    → to_u32 (get_writable_size b) ≡ n - length bytes
unfolding get_writable_size
writable-Filled f h = omega (arith, f.size, f.written, f.valid.write_in)

pub readable-content :
    {b : Buffer} (bytes : List ℕ)
    → IsValid b
    → content b ≡ bytes
    → length bytes < 2 ^ 32
    → to_u32 (get_readable_size b) ≡ length bytes
unfolding get_readable_size
readable-content {b} bytes v e h = omega (arith, ap length e, length-content v, v.read_in)

-- The bytes in front come out, and the others are left.
pub taken_lem :
    (chunk rest : List ℕ) (src : Buffer)
    → IsValid src
    → content src ≡ chunk ++ rest
    → (copy_out src.mem src.read_cur (length chunk) ≡ done chunk)
      × IsValid (skip_read (length chunk) src)
      × (content (skip_read (length chunk) src) ≡ rest)
unfolding skip_read
taken_lem chunk rest src v e =
    let k = length chunk in
    let r = src.read_cur in
    let m = src.write_cur - r in
    let len = length-content v in
    let enough : k ≤ m = omega (arith, ap length e, length-append chunk rest, len) in
    let inside : r + k ≤ length src.mem =
      omega (arith, v.read_in, v.write_in, v.tail_in, v.block) in
    (
      copy_out-slice src.mem r k inside
          ∙ ap done
              (sym (take-take k m (drop r src.mem) enough) ∙ ap (take k) e ∙ take_front chunk rest),
      omega (arith, v.read_in, v.write_in, v.tail_in, v.block, v.small),
      ap (λ j. take j (drop (r + k) src.mem)) (omega arith)
          ∙ sym (ap (take (m - k)) (drop-drop k r src.mem))
          ∙ sym (drop-take k m (drop r src.mem))
          ∙ ap (drop k) e
          ∙ drop_front chunk rest,
    )

-- They go into a buffer that was filled from its start.
pub transfer_lem :
    (alloc : Allocator) (n : ℕ) (old chunk rest : List ℕ) (dst src : Buffer)
    → Filled n old dst
    → length old + length chunk ≤ n
    → IsValid src
    → content src ≡ chunk ++ rest
    → Returns
        (transfer alloc (length chunk) dst src)
        λ r. Filled n (old ++ chunk) r.0 × IsValid r.1 × (content r.1 ≡ rest)
unfolding transfer
transfer_lem alloc n old chunk rest dst src f room v e =
    let (out, v', left) = taken_lem chunk rest src v e in
    let (w, run, filled) = write_buffer-Filled alloc n old chunk dst f room in
    ((w.1, skip_read (length chunk) src), rw (out, ◌>>=◌, run, ◌>>=◌) refl, (filled, v', left))

-- They go behind the bytes of a buffer with room for them.
pub transfer-Appended :
    (alloc : Allocator) (chunk rest : List ℕ) (dst src : Buffer)
    → IsValid dst
    → dst.write_cur + length chunk ≤ dst.capacity
    → IsValid src
    → content src ≡ chunk ++ rest
    → Returns (transfer alloc (length chunk) dst src) λ r.
      Appended (length chunk) chunk dst (true, r.0)
      × IsValid r.1
      × (content r.1 ≡ rest)
      × (r.1.capacity ≡ src.capacity)
unfolding transfer
transfer-Appended alloc chunk rest dst src vd room v e =
    let (out, v', left) = taken_lem chunk rest src v e in
    let (w, run, p) = write_buffer-Appended alloc chunk dst vd room in
    (
      (w.1, skip_read (length chunk) src),
      rw (out, ◌>>=◌, run, ◌>>=◌) refl,
      (
        record {
          answer = refl;
          valid = p.valid;
          appended = p.appended;
          capacity = p.capacity;
          cursor = p.cursor;
        },
        v',
        left,
        unfold skip_read in refl,
      ),
    )
