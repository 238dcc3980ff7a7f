-- ===== src/Buffer/Appended.antt =====
-- What a write does that has room at the end of its block.
use gearkit.Base.{
  ℕ, ◌+◌, ◌/◌, ◌^◌, ◌≤◌, ◌<◌, ◌≡◌, refl, sym, ap, ◌∙◌, arith, List, [], ◌++◌, Bool, true, inl,
  length,
}
use mathlib.Core.List.{append_assoc, append-nil}
use gearkit.Base.Run.{Returns, ◌>>=◌}
use gearkit.Buffer.{Buffer, write_buffer}
use gearkit.Buffer.Inv.{IsValid, content}
use gearkit.Buffer.Memory.{Allocator, IsAllocator}
use gearkit.Buffer.Write.{write_buffer_fits}
use gearkit.Buffer.Stream.{write_plain, write_string}
use gearkit.Buffer.Varint.{Width, u64, bits, write_varuint, bits_le}
use gearkit.Buffer.Varint.Encode.{write_varuint_lem}
use gearkit.Buffer.Varint.Leb.{Encodes}

-- The bytes were appended, in a block of the same size, and the cursor advanced by at most `n`.
pub record Appended (n : ℕ) (bytes : List ℕ) (b : Buffer) (r : Bool × Buffer) : Type 0 where
  pub answer : r.0 ≡ true
  pub valid : IsValid r.1
  pub appended : content r.1 ≡ content b ++ bytes
  pub capacity : r.1.capacity ≡ b.capacity
  pub cursor : r.1.write_cur ≤ b.write_cur + n

pub then_Appended :
    (n m : ℕ) (xs ys : List ℕ) (b : Buffer) (r s : Bool × Buffer)
    → Appended n xs b r
    → Appended m ys r.1 s
    → Appended (n + m) (xs ++ ys) b s
then_Appended n m xs ys b r s p q = record {
  answer = q.answer;
  valid = q.valid;
  appended = q.appended ∙ ap (λ l. l ++ ys) p.appended ∙ append_assoc (content b) xs ys;
  capacity = q.capacity ∙ p.capacity;
  cursor = omega (arith, p.cursor, q.cursor);
}

pub nothing_Appended : (b : Buffer) → IsValid b → Appended 0 [] b (true, b)
nothing_Appended b v = record {
  answer = refl;
  valid = v;
  appended = sym (append-nil (content b));
  capacity = refl;
  cursor = omega arith;
}

pub write_buffer-Appended :
    (alloc : Allocator) (bytes : List ℕ) (b : Buffer)
    → IsValid b
    → b.write_cur + length bytes ≤ b.capacity
    → Returns (write_buffer alloc bytes b) (Appended (length bytes) bytes b)
write_buffer-Appended alloc bytes b v room =
    let (r, run, (granted, w)) = write_buffer_fits alloc bytes v (inl room) in
    (
      r,
      run,
      record {
        answer = granted;
        valid = w.valid;
        appended = w.appended granted;
        capacity = w.steady room;
        cursor = w.cursor;
      },
    )

pub write_varuint-Appended :
    (alloc : Allocator) (w : Width) (v : ℕ) (b : Buffer)
    → IsAllocator alloc
    → IsValid b
    → v < 2 ^ bits w
    → b.write_cur + 10 ≤ b.capacity
    → Returns (write_varuint alloc w v b) λ r.
      (bytes : List ℕ) × Encodes bytes v × (length bytes ≤ bits w / 7 + 1) × Appended 10 bytes b r
write_varuint-Appended alloc w v b law valid h room =
    let (r, run, (bytes, enc, short, ok, answers)) =
      write_varuint_lem alloc w v law valid h (omega (arith, valid.small)) in
    let few : length bytes ≤ 10 = omega (arith, short, bits_le w) in
    let granted = answers room in
    (
      r,
      run,
      (
        bytes,
        enc,
        short,
        record {
          answer = granted;
          valid = ok.valid;
          appended = ok.appended granted;
          capacity = ok.steady (omega arith);
          cursor = omega (arith, ok.cursor);
        },
      ),
    )

pub write_string-Appended :
    (alloc : Allocator) (s : List ℕ) (b : Buffer)
    → IsAllocator alloc
    → IsValid b
    → length s < 2 ^ 64
    → b.write_cur + (10 + length s) ≤ b.capacity
    → Returns (write_string alloc s b) λ r.
      (count : List ℕ) × Encodes count (length s)
      × (length count ≤ bits u64 / 7 + 1)
      × Appended (10 + length s) (count ++ s) b r
unfolding write_string
write_string-Appended alloc s b law valid h room =
    let (r, run, (count, enc, short, p)) =
      write_varuint-Appended alloc u64 (length s) b law valid h (omega arith) in
    let (t, run', q) =
      write_buffer-Appended alloc s r.1 p.valid (omega (arith, p.cursor, p.capacity)) in
    (t, rw (run, ◌>>=◌) run', (count, enc, short, then_Appended 10 (length s) count s b r t p q))

pub write_plain-Appended :
    (alloc : Allocator) (bytes : List ℕ) (b : Buffer)
    → IsValid b
    → b.write_cur + length bytes ≤ b.capacity
    → Returns (write_plain alloc bytes b) (Appended (length bytes) bytes b)
unfolding write_plain
write_plain-Appended = write_buffer-Appended
