-- ===== src/Packet/Header.antt =====
-- The header of a packet on the wire.
use gearkit.Base.{
  ℕ, ◌+◌, ◌^◌, ◌%◌, ◌≤◌, ◌<◌, ◌≡◌, refl, sym, ap, ◌∙◌, arith, List, [], ◌++◌, Option, none, some,
  Bool, true, false,
}
use mathlib.Core.List.{append_assoc, append-nil}
use gearkit.Base.Run.{done, Returns, bind-done, ◌>>=◌}
use gearkit.Buffer.{Buffer, read_buffer, get_written_size}
use gearkit.Buffer.Read.{read_buffer_keeps}
use gearkit.Buffer.Appended.{write_plain-Appended}
use gearkit.Buffer.Inv.{IsValid, content}
use gearkit.Buffer.Memory.{Allocator}
use gearkit.Buffer.Stream.{read_plain}
use gearkit.Buffer.Stream.Codec.{read_front}
use gearkit.Packet.{
  PacketHeader, Packet, body_length, init, bytes_of, number_of, read_number, pack_header,
  unpack_header,
}

number_of-bytes_of-two : (v : ℕ) → v < 2 ^ 16 → number_of (bytes_of 2 v) ≡ v
number_of-bytes_of-two v h = omega arith

number_of-bytes_of-four : (v : ℕ) → v < 2 ^ 32 → number_of (bytes_of 4 v) ≡ v
number_of-bytes_of-four v h = omega arith

read_number_lem :
    (old v : ℕ) (bytes : List ℕ) (r : Bool × List ℕ × Buffer)
    → r.0 ≡ true
    → r.1 ≡ bytes
    → number_of bytes ≡ v
    → read_number old r ≡ v
read_number_lem old v bytes (true, out, b) ok same e = ap number_of same ∙ e
read_number_lem old v bytes (false, out, b) ok same e = cc

-- The bytes of a body: what stands before the write cursor.
abbrev pub written : Option Buffer → ℕ
written none = 0
written (some buf) = buf.write_cur

body_length_lem : (buf : Option Buffer) → body_length buf ≡ written buf % 2 ^ 16
unfolding body_length get_written_size
body_length_lem none = refl
body_length_lem (some buf) = omega arith

body_length_small : (buf : Option Buffer) → body_length buf < 2 ^ 16
unfolding body_length
body_length_small none = omega arith
body_length_small (some buf) = omega arith

-- The eight bytes of a header, in the order of the wire.
abbrev pub header_bytes : PacketHeader → List ℕ
header_bytes h = bytes_of 2 h.seed ++ (bytes_of 2 h.length ++ bytes_of 4 h.pid)

pub pack_header_lem :
    (alloc : Allocator) (p : Packet) (b : Buffer)
    → IsValid b
    → b.write_cur + 8 ≤ b.capacity
    → Returns (pack_header alloc p b) λ b'.
      IsValid b' × (content b' ≡ content b ++ header_bytes p.header) × (b'.capacity ≡ b.capacity)
unfolding pack_header
pack_header_lem alloc p b valid room =
    let h = p.header in
    let (r, run, pr) = write_plain-Appended alloc (bytes_of 2 h.seed) b valid (omega arith) in
    let (s, run', ps) =
      write_plain-Appended alloc (bytes_of 2 h.length) r.1 pr.valid
        (omega (arith, pr.cursor, pr.capacity)) in
    let (t, run'', pt) =
      write_plain-Appended alloc (bytes_of 4 h.pid) s.1 ps.valid
        (omega (arith, pr.cursor, pr.capacity, ps.cursor, ps.capacity)) in
    (
      t.1,
      rw (run, ◌>>=◌, run', ◌>>=◌, run'') refl,
      (
        pt.valid,
        pt.appended
            ∙ ap (λ l. l ++ bytes_of 4 h.pid)
                (ps.appended ∙ ap (λ l. l ++ bytes_of 2 h.length) pr.appended)
            ∙ ap (λ l. l ++ bytes_of 4 h.pid)
                (append_assoc (content b) (bytes_of 2 h.seed) (bytes_of 2 h.length))
            ∙ append_assoc (content b) (bytes_of 2 h.seed ++ bytes_of 2 h.length)
                (bytes_of 4 h.pid),
        pt.capacity ∙ ps.capacity ∙ pr.capacity,
      ),
    )

pub unpack_header_lem :
    (p : Packet) (h : PacketHeader) (rest : List ℕ) (b : Buffer)
    → h.seed < 2 ^ 16
    → h.length < 2 ^ 16
    → h.pid < 2 ^ 32
    → IsValid b
    → content b ≡ header_bytes h ++ rest
    → Returns
        (unpack_header p b)
        λ r. (r.0 ≡ record p { header = h }) × IsValid r.1 × (content r.1 ≡ rest)
unfolding unpack_header
unpack_header_lem p h rest b seed_small length_small pid_small valid e =
    let (r, run, (ok, out, vr, left)) =
      read_front (bytes_of 2 h.seed) (bytes_of 2 h.length ++ (bytes_of 4 h.pid ++ rest)) valid e in
    let (s, run', (ok', out', vs, left')) =
      read_front (bytes_of 2 h.length) (bytes_of 4 h.pid ++ rest) vr left in
    let (t, run'', (ok'', out'', vt, left'')) = read_front (bytes_of 4 h.pid) rest vs left' in
    let seed =
      read_number_lem p.header.seed h.seed _ r ok out (number_of-bytes_of-two h.seed seed_small) in
    let len =
      read_number_lem p.header.length h.length _ s ok' out'
        (number_of-bytes_of-two h.length length_small) in
    let pid =
      read_number_lem p.header.pid h.pid _ t ok'' out'' (number_of-bytes_of-four h.pid pid_small) in
    (
      (record p { header = h }, t.2),
      rw (run, ◌>>=◌, run', ◌>>=◌, run'', ◌>>=◌, seed, len, pid) refl,
      (refl, vt, left''),
    )

-- A packet that `init` made from a protocol number of 32 bits, a seed of 16 bits and a body sends
-- its header into any valid buffer with nothing to read and eight bytes free, and `unpackHeader`
-- reads it back: the same number and seed, and the number of bytes written into the body, modulo 2 ^ 16, as its length (0 for no body).
pub unpack_header-pack_header :
    (alloc : Allocator) (p q : Packet) (pid : ℕ) (body : Option Buffer) (b : Buffer)
    → p.header.seed < 2 ^ 16
    → pid < 2 ^ 32
    → IsValid b
    → content b ≡ []
    → b.write_cur + 8 ≤ b.capacity
    → Returns (pack_header alloc (init pid body p) b) λ b'. Returns (unpack_header q b') λ r.
      (r.0.header ≡ record { pid = pid; seed = p.header.seed; length = written body % 2 ^ 16 })
      × (r.0.buf ≡ q.buf)
      × (content r.1 ≡ [])
unfolding init
unpack_header-pack_header alloc p q pid body b seed_small pid_small valid nothing room =
    let h : PacketHeader = record { pid = pid; seed = p.header.seed; length = body_length body } in
    let (b', run, (valid', sent, _)) = pack_header_lem alloc (init pid body p) b valid room in
    let (r, run', (same, _, left)) =
      unpack_header_lem q h [] b' seed_small (body_length_small body) pid_small valid'
        (sent ∙ ap (λ l. l ++ header_bytes h) nothing ∙ sym (append-nil (header_bytes h))) in
    (
      b',
      run,
      (
        r,
        run',
        (
          ap (λ x. x.header) same
              ∙ ap (λ n. record { pid = pid; seed = p.header.seed; length = n })
                  (body_length_lem body),
          ap (λ x. x.buf) same,
          left,
        ),
      ),
    )

-- Unpacking moves the read cursor only.
pub unpack_header_keeps :
    (p : Packet) (b : Buffer) (t : Packet × Buffer)
    → unpack_header p b ≡ done t
    → (t.1.write_cur ≡ b.write_cur) × (t.1.tail ≡ b.tail)
unfolding unpack_header read_plain
unpack_header_keeps p b t e =
    let (r, run, e') = bind-done (read_buffer 2 b) _ t e in
    let (s, run', e'') = bind-done (read_buffer 2 r.2) _ t e' in
    let (u, run'', e''') = bind-done (read_buffer 4 s.2) _ t e'' in
    let (w, l) = read_buffer_keeps 2 b r run in
    let (w', l') = read_buffer_keeps 2 r.2 s run' in
    let (w'', l'') = read_buffer_keeps 4 s.2 u run'' in (cc, cc)
