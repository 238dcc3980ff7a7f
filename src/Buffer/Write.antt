-- ===== src/Buffer/Write.antt =====
-- `writeBuffer`.
use gearkit.Base.{
  ℕ, ◌+◌, ◌≤◌, ◌<◌, ◌≡◌, ◌⊎◌, refl, ap, ◌∙◌, arith, List, ◌++◌, Bool, true, false, length, take,
  drop, lt→leb_false, le→leb, length-append,
}
use gearkit.Base.Run.{Returns, fault}
use gearkit.Base.Slices.{slice_written}
use gearkit.Base.Words.{size_mod}
use gearkit.Buffer.{Buffer, store, reserve_buffer, write_buffer}
use gearkit.Buffer.Inv.{IsValid, content}
use gearkit.Buffer.Memory.{Allocator, IsAllocator, copy_in}
use gearkit.Buffer.Reserve.{
  Reserved, copy_in-splice, length-splice, reserve_buffer-Reserved, reserve_buffer_fits,
}

-- What `writeBuffer(bytes)` may do to `b`: append the bytes, or nothing at all.
pub record Written (bytes : List ℕ) (b : Buffer) (r : Bool × Buffer) : Type 0 where
  pub valid : IsValid r.1
  pub appended : r.0 ≡ true → content r.1 ≡ content b ++ bytes
  pub refused : r.0 ≡ false → r.1 ≡ b
  -- The write cursor advances by no more than the bytes, and a block that is large enough keeps its
  -- size.
  pub cursor : r.1.write_cur ≤ b.write_cur + length bytes
  pub steady : b.write_cur + length bytes ≤ b.capacity → r.1.capacity ≡ b.capacity

store-Written :
    (bytes : List ℕ) (b : Buffer) (r : Bool × Buffer)
    → Reserved (length bytes) b r
    → Returns (store bytes r) (λ r'. (r'.0 ≡ r.0) × Written bytes b r')
unfolding store
store-Written bytes b (false, b') ok = (
  (false, b'),
  refl,
  (
    refl,
    record {
      valid = ok.valid;
      appended = λ e. cc;
      refused = λ e. ok.refused refl;
      cursor = omega (arith, ok.cursor);
      steady = ok.steady;
    },
  ),
)
store-Written bytes b (true, b') ok =
    let v = ok.valid in
    let room = ok.room refl in
    let w = b'.write_cur in
    let fits : w + length bytes ≤ length b'.mem = omega arith in
    let block : List ℕ = take w b'.mem ++ (bytes ++ drop (w + length bytes) b'.mem) in
    (
      (true, record b' { mem = block; write_cur = w + length bytes }),
      rw (copy_in-splice b'.mem w bytes fits),
      (
        refl,
        record {
          valid = omega (arith, length-splice b'.mem w bytes fits);
          appended = λ e.
              slice_written b'.read_cur w b'.mem bytes (drop (w + length bytes) b'.mem)
                (omega arith) (omega arith)
              ∙ ap (λ l. l ++ bytes) ok.kept;
          refused = λ e. cc;
          cursor = omega (arith, ok.cursor);
          steady = ok.steady;
        },
      ),
    )

module _ (alloc : Allocator) (law : IsAllocator alloc) where
  -- On a valid buffer `writeBuffer` never writes outside the block, and leaves a valid buffer: with
  -- the result `true` the bytes stand behind those that wait to be read, with `false`
  -- nothing has changed.
  pub write_buffer-Written :
      (bytes : List ℕ) {b : Buffer}
      → IsValid b
      → b.write_cur + length bytes + 64 < size_mod
      → Returns (write_buffer alloc bytes b) (Written bytes b)
  unfolding write_buffer
  write_buffer-Written bytes {b} v small =
      let (r, run, ok) = reserve_buffer-Reserved alloc law (length bytes) v small in
      let (r', stored, (_, written)) = store-Written bytes b r ok in (r', rw run stored, written)

-- Without the allocator: a write succeeds if the bytes fit behind the write cursor, before the end
-- of the block, or in the space already read together with the space behind the write cursor.
pub write_buffer_fits :
    (alloc : Allocator) (bytes : List ℕ) {b : Buffer}
    → IsValid b
    → ((b.write_cur + length bytes ≤ b.capacity)
        ⊎ (b.write_cur + length bytes ≤ b.read_cur + b.tail))
    → Returns (write_buffer alloc bytes b) (λ r. (r.0 ≡ true) × Written bytes b r)
unfolding write_buffer
write_buffer_fits alloc bytes {b} v room =
    let (r, run, (granted, ok)) = reserve_buffer_fits alloc (length bytes) v room in
    let (r', stored, (same, written)) = store-Written bytes b r ok in
    (r', rw run stored, (same ∙ granted, written))

-- Where the size passes the end of the block, a write that reaches past the block is not caught.
pub write_buffer_oversized :
    (alloc : Allocator) (bytes : List ℕ) (b : Buffer)
    → length b.mem < b.write_cur + length bytes
    → b.write_cur + length bytes ≤ b.tail
    → write_buffer alloc bytes b ≡ fault
unfolding write_buffer reserve_buffer store copy_in
write_buffer_oversized alloc bytes b past inside = rw (le→leb _ _ inside, lt→leb_false _ _ past)

-- `b` has the size `n`, and `bytes` were written since its `reset` and not yet read.
pub record Filled (n : ℕ) (bytes : List ℕ) (b : Buffer) : Type 0 where
  pub valid : IsValid b
  pub size : b.tail ≡ n
  pub start : b.read_cur ≡ 0
  pub written : b.write_cur ≡ length bytes
  pub waiting : content b ≡ bytes

-- A write that stays inside the size.
pub write_buffer-Filled :
    (alloc : Allocator) (n : ℕ) (old bytes : List ℕ) (b : Buffer)
    → Filled n old b
    → length old + length bytes ≤ n
    → Returns (write_buffer alloc bytes b) λ r. Filled n (old ++ bytes) r.1
unfolding write_buffer reserve_buffer store
write_buffer-Filled alloc n old bytes b f room =
    let v = f.valid in
    let w = b.write_cur in
    let fits : w + length bytes ≤ length b.mem =
      omega (arith, f.written, f.size, v.tail_in, v.block) in
    let block : List ℕ = take w b.mem ++ (bytes ++ drop (w + length bytes) b.mem) in
    (
      (true, record b { mem = block; write_cur = w + length bytes }),
      rw (
        le→leb (w + length bytes) b.tail (omega (arith, f.written, f.size)),
        copy_in-splice b.mem w bytes fits,
      ),
      record {
        valid = omega (
          arith,
          length-splice b.mem w bytes fits,
          f.written,
          f.size,
          v.tail_in,
          v.read_in,
          v.block,
          v.small,
        );
        size = f.size;
        start = f.start;
        written = omega (arith, f.written, length-append old bytes);
        waiting =
            slice_written b.read_cur w b.mem bytes (drop (w + length bytes) b.mem) (omega arith)
              (omega arith)
            ∙ ap (λ l. l ++ bytes) f.waiting;
      },
    )
