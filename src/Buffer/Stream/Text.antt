-- ===== src/Buffer/Stream/Text.antt =====
-- `<<` and `>>` of strings.
use gearkit.Base.{
  ℕ, ◌+◌, ◌/◌, ◌^◌, ◌≤◌, ◌<◌, ◌≡◌, ◌≢◌, refl, sym, ap, ◌∙◌, arith, List, [], ◌∷◌, ◌++◌, Bool, true,
  false, length, All, ne_false,
}
use mathlib.Core.List.{append_assoc, append-nil}
use gearkit.Base.Run.{done, Returns, ◌>>=◌}
use gearkit.Buffer.{Buffer}
use gearkit.Buffer.Inv.{IsValid, content}
use gearkit.Buffer.Memory.{Allocator, IsAllocator}
use gearkit.Buffer.Write.{write_buffer-Written}
use gearkit.Buffer.Stream.{write_string, read_string, c_string, string_of, read_plain}
use gearkit.Buffer.Stream.Codec.{read_front}
use gearkit.Buffer.Varint.{u64, bits}
use gearkit.Buffer.Varint.Leb.{Encodes}
use gearkit.Buffer.Varint.Encode.{write_varuint_lem}
use gearkit.Buffer.Varint.Decode.{read_varuint_lem}

-- Nothing, or something that begins with a zero.
abbrev pub EndsText : List ℕ → Type 0
EndsText [] = Unit
EndsText (c ∷ cs) = c ≡ 0

c_string_lem : (s tail : List ℕ) → All (λ c. c ≢ 0) s → EndsText tail → c_string (s ++ tail) ≡ s
unfolding c_string
c_string_lem [] [] visible ends = refl
c_string_lem [] (c ∷ cs) visible ends = rw ends refl
c_string_lem (c ∷ s) tail visible ends =
    rw (ne_false visible.0, c_string_lem s tail visible.1 ends) refl

-- The length and the characters stand behind what waited to be read, where ten bytes were free
-- before the end of the block for the length.
write_string_lem :
    (alloc : Allocator) (s : List ℕ) {b : Buffer}
    → IsAllocator alloc
    → length s < 2 ^ 62
    → IsValid b
    → b.write_cur + 10 ≤ b.capacity
    → Returns (write_string alloc s b) λ r.
      IsValid r.1
      × (r.0 ≡ true
          → (count : List ℕ) × Encodes count (length s)
            × (length count ≤ bits u64 / 7 + 1)
            × (content r.1 ≡ content b ++ (count ++ s)))
unfolding write_string
write_string_lem alloc s {b} law few valid room =
    let (r, run, (count, counted, short, written, answers)) =
      write_varuint_lem alloc u64 (length s) law valid (omega arith) (omega (arith, valid.small)) in
    let before = written.valid in
    let (t, run', w) = write_buffer-Written alloc law s before (omega (arith, before.small)) in
    (
      t,
      rw (run, ◌>>=◌) run',
      (
        w.valid,
        λ e. (
          count,
          counted,
          short,
          w.appended e
              ∙ ap (λ l. l ++ s) (written.appended (answers room))
              ∙ append_assoc (content b) count s,
        ),
      ),
    )

string_of-read :
    (buf : List ℕ) (r : Bool × List ℕ × Buffer)
    → r.0 ≡ true
    → r.1 ≡ buf
    → string_of r ≡ (true, c_string buf, r.2)
unfolding string_of
string_of-read buf (true, out, b) ok same = ap (λ l. (true, c_string l, b)) same
string_of-read buf (false, out, b) ok same = cc

pub read_string_lem :
    (s tail count rest : List ℕ) {b : Buffer}
    → All (λ c. c ≢ 0) s
    → EndsText tail
    → length (s ++ tail) < 2 ^ 62
    → Encodes count (length (s ++ tail))
    → length count ≤ bits u64 / 7 + 1
    → IsValid b
    → content b ≡ count ++ ((s ++ tail) ++ rest)
    → Returns (read_string b) λ r. (r.0 ≡ true) × (r.1 ≡ s) × IsValid r.2 × (content r.2 ≡ rest)
unfolding read_string read_plain
read_string_lem s tail count rest {b} visible ends few counted short valid e =
    let (r, run, (read, size, ok, left)) =
      read_varuint_lem u64 ((s ++ tail) ++ rest) valid counted (omega arith) short e in
    let (t, run', (read', same, ok', left')) = read_front (s ++ tail) rest ok left in
    (
      (true, c_string (s ++ tail), t.2),
      rw (run, ◌>>=◌, size, run', ◌>>=◌) (ap done (string_of-read (s ++ tail) t read' same)),
      (refl, c_string_lem s tail visible ends, ok', left'),
    )

-- From a valid buffer with nothing to read and ten bytes free before the end of the block, writing a
-- string of fewer than 2 ^ 62 characters stays inside the memory. If it answers `true`, reading a
-- `std::string` answers `true`, gives the characters before the first zero, and leaves nothing to
-- read.
pub read_string-write_string :
    (alloc : Allocator) (s tail : List ℕ) {b : Buffer}
    → IsAllocator alloc
    → All (λ c. c ≢ 0) s
    → EndsText tail
    → length (s ++ tail) < 2 ^ 62
    → IsValid b
    → content b ≡ []
    → b.write_cur + 10 ≤ b.capacity
    → Returns (write_string alloc (s ++ tail) b) λ r.
      IsValid r.1
      × (r.0 ≡ true
          → Returns
              (read_string r.1)
              λ t. (t.0 ≡ true) × (t.1 ≡ s) × IsValid t.2 × (content t.2 ≡ []))
read_string-write_string alloc s tail {b} law visible ends few valid nil room =
    let (r, run, (ok, wrote)) = write_string_lem alloc (s ++ tail) law few valid room in
    (
      r,
      run,
      (
        ok,
        λ e.
            let (count, counted, short, after) = wrote e in
            read_string_lem s tail count [] visible ends few counted short ok (
              after
              ∙ ap (λ l. l ++ (count ++ (s ++ tail))) nil
              ∙ ap (λ l. count ++ l) (sym (append-nil (s ++ tail)))),
      ),
    )
