-- ===== src/Buffer/Reserve.antt =====
-- `reserveBuffer` and `expandBuffer`.
use Prim.Native.Nat.{max, min}
use gearkit.Base.{
  ℕ, ◌+◌, ◌-◌, ◌*◌, ◌%◌, ◌≤◌, ◌<◌, ◌≡◌, refl, ap, ◌∙◌, arith, List, ◌++◌, Option, some, none, Bool,
  true, false, leb, ◌⊎◌, length, take, drop, le→leb, length-take, Bool-cases, inl, inr,
  length-append, length-drop, leb→le,
}
use gearkit.Base.Run.{done, ◌>>=◌, Returns}
use gearkit.Base.Slices.{slice, slice_congr, take-append_length}
use gearkit.Base.Words.{size_mod, sub_size, add_size}
use gearkit.Buffer.{
  Buffer, get_readable_size, get_written_size, get_read_size, compact, expanded, expand_buffer,
  reserve_buffer,
}
use gearkit.Buffer.Inv.{IsValid, content, length-content}
use gearkit.Buffer.Memory.{Allocator, IsAllocator, max_block, copy_in, copy_out}

-- What a reservation of `size` bytes may do to `b`: room behind the write cursor and the same
-- bytes to read, or nothing at all.
pub record Reserved (size : ℕ) (b : Buffer) (r : Bool × Buffer) : Type 0 where
  pub valid : IsValid r.1
  pub kept : content r.1 ≡ content b
  pub room : r.0 ≡ true → r.1.write_cur + size ≤ r.1.tail
  pub refused : r.0 ≡ false → r.1 ≡ b
  -- The write cursor does not advance, and a block that is large enough keeps its size.
  pub cursor : r.1.write_cur ≤ b.write_cur
  pub steady : b.write_cur + size ≤ b.capacity → r.1.capacity ≡ b.capacity

pub copy_out-slice :
    (block : List ℕ) (at n : ℕ)
    → at + n ≤ length block
    → copy_out block at n ≡ done (slice at n block)
unfolding copy_out
copy_out-slice block at n h = rw (le→leb _ _ h)

pub copy_in-splice :
    (block : List ℕ) (at : ℕ) (bytes : List ℕ)
    → at + length bytes ≤ length block
    → copy_in block at bytes ≡ done (take at block ++ (bytes ++ drop (at + length bytes) block))
unfolding copy_in
copy_in-splice block at bytes h = rw (le→leb _ _ h)

pub length-splice :
    (block : List ℕ) (at : ℕ) (bytes : List ℕ)
    → at + length bytes ≤ length block
    → length (take at block ++ (bytes ++ drop (at + length bytes) block)) ≡ length block
length-splice block at bytes h =
    simp length-append (omega (arith, length-take at block, length-drop (at + length bytes) block))

-- The bytes between the cursors move to the front of the block.
compact-Reserved :
    (size : ℕ) {b : Buffer}
    → IsValid b
    → size ≤ b.read_cur + b.tail - b.write_cur
    → Returns (compact b) (λ r. (r.0 ≡ true) × Reserved size b r)
unfolding compact get_readable_size
compact-Reserved size {b} v h =
    let rsz = b.write_cur - b.read_cur in
    let plain : sub_size b.write_cur b.read_cur ≡ rsz = omega arith in
    let len : length (content b) ≡ rsz = length-content v in
    let fits : 0 + length (content b) ≤ length b.mem = omega arith in
    let block : List ℕ = content b ++ drop (0 + length (content b)) b.mem in
    (
      (true, record b { mem = block; read_cur = 0; write_cur = rsz }),
      rw (
        plain,
        copy_out-slice b.mem b.read_cur rsz (omega arith),
        ◌>>=◌,
        copy_in-splice b.mem 0 (content b) fits,
      ),
      (
        refl,
        record {
          valid = omega (arith, length-splice b.mem 0 (content b) fits);
          kept =
              ap (λ k. take k block) (omega (arith, len))
              ∙ take-append_length (content b) (drop (0 + length (content b)) b.mem);
          room = λ e. omega arith;
          refused = λ e. cc;
          cursor = omega arith;
          steady = λ e. refl;
        },
      ),
    )

expanded-Reserved :
    (size requested : ℕ) {b : Buffer} (got : Option (List ℕ))
    → IsValid b
    → b.write_cur + size ≤ requested
    → b.capacity ≤ requested
    → b.capacity < b.write_cur + size
    → ((m : List ℕ)
        → got ≡ some m
        → (length m ≡ requested)
          × (requested ≤ max_block)
          × (take (length b.mem) m ≡ take (length b.mem) b.mem))
    → Reserved size b (expanded b requested got)
unfolding expanded get_written_size get_read_size
expanded-Reserved size requested {b} none v room grows short law = record {
  valid = v;
  kept = refl;
  room = λ e. cc;
  refused = λ e. refl;
  cursor = omega arith;
  steady = λ e. refl;
}
expanded-Reserved size requested {b} (some m) v room grows short law =
    let (len, small, same) = law m refl in
    record {
      valid = omega arith;
      kept =
          slice_congr (length b.mem) b.read_cur (b.write_cur - b.read_cur) m b.mem same
            (omega arith);
      room = λ e. room;
      refused = λ e. cc;
      cursor = omega arith;
      steady = λ e. absurd (omega arith);
    }

module _ (alloc : Allocator) (law : IsAllocator alloc) where
  -- What `realloc` does when it is asked for no less than the block has.
  realloc_grows :
      (old : List ℕ) (n : ℕ) (m : List ℕ)
      → length old ≤ n
      → alloc.realloc old n ≡ some m
      → (length m ≡ n) × (n ≤ max_block) × (take (length old) m ≡ take (length old) old)
  realloc_grows old n m h e =
      let all : min (length old) n ≡ length old = omega arith in
      (law.realloc-length old n e, law.realloc-le old n e, rw all at (law.realloc-take old n e))

  -- `expandBuffer(required)` makes room up to `required`, and keeps what waits to be read.
  expand_buffer-Reserved :
      (size : ℕ) {b : Buffer}
      → IsValid b
      → b.write_cur + size + 64 < size_mod
      → b.capacity < b.write_cur + size
      → Reserved size b (expand_buffer alloc (b.write_cur + size) b)
  unfolding expand_buffer
  expand_buffer-Reserved size {b} v small short =
      let requested = max (add_size (b.write_cur + size) 64) (b.capacity * 2 % size_mod) in
      expanded-Reserved size requested (alloc.realloc b.mem requested) v (omega arith) (omega arith)
        short (λ m e. realloc_grows b.mem requested m (omega arith) e)

  -- `reserveBuffer(size)` on a valid buffer whose write cursor, `size` and 64 make less than 2 ^ 64
  -- together stays inside the block. The buffer it leaves is valid
  -- and has the same bytes to read; with the result `true` there is room for `size` bytes at the
  -- write cursor, with `false` the buffer is as it was.
  pub reserve_buffer-Reserved :
      (size : ℕ) {b : Buffer}
      → IsValid b
      → b.write_cur + size + 64 < size_mod
      → Returns (reserve_buffer alloc size b) (Reserved size b)
  unfolding reserve_buffer
  reserve_buffer-Reserved size {b} v small =
      let new_tail = b.write_cur + size in
      let reuse = sub_size (b.read_cur + b.tail) b.write_cur in
      elim (Bool-cases (leb new_tail b.tail)) [
        | inl fits ↦ (
          (true, b),
          rw fits,
          record {
            valid = v;
            kept = refl;
            room = λ e. leb→le _ _ fits;
            refused = λ e. cc;
            cursor = omega arith;
            steady = λ e. refl;
          },
        )
        | inr over ↦ elim (Bool-cases (leb size reuse)) [
          | inl moves ↦
              let (r, run, (_, ok)) = compact-Reserved size v (omega (arith, leb→le _ _ moves)) in
              (r, rw (over, moves) run, ok)
          | inr full ↦ elim (Bool-cases (leb new_tail b.capacity)) [
            | inl behind ↦ (
              (true, record b { tail = new_tail }),
              rw (over, full, behind),
              record {
                valid = omega (arith, leb→le _ _ behind);
                kept = refl;
                room = λ e. omega arith;
                refused = λ e. cc;
                cursor = omega arith;
                steady = λ e. refl;
              },
            )
            | inr beyond ↦ (
              expand_buffer alloc new_tail b,
              rw (over, full, beyond),
              expand_buffer-Reserved size v small (ground arith),
            )
          ]
        ]
      ]

-- Where the bytes fit before the end of the block, or into what is free inside the size, the
-- allocator is not called, and the reservation succeeds.
pub reserve_buffer_fits :
    (alloc : Allocator) (size : ℕ) {b : Buffer}
    → IsValid b
    → ((b.write_cur + size ≤ b.capacity) ⊎ (b.write_cur + size ≤ b.read_cur + b.tail))
    → Returns (reserve_buffer alloc size b) (λ r. (r.0 ≡ true) × Reserved size b r)
unfolding reserve_buffer
reserve_buffer_fits alloc size {b} v space =
    let new_tail = b.write_cur + size in
    let reuse = sub_size (b.read_cur + b.tail) b.write_cur in
    elim (Bool-cases (leb new_tail b.tail)) [
      | inl fits ↦ (
        (true, b),
        rw fits,
        (
          refl,
          record {
            valid = v;
            kept = refl;
            room = λ e. leb→le _ _ fits;
            refused = λ e. cc;
            cursor = omega arith;
            steady = λ e. refl;
          },
        ),
      )
      | inr over ↦ elim (Bool-cases (leb size reuse)) [
        | inl moves ↦
            let (r, run, (granted, ok)) =
              compact-Reserved size v (omega (arith, leb→le _ _ moves)) in
            (r, rw (over, moves) run, (granted, ok))
        | inr full ↦
            let behind : new_tail ≤ b.capacity = elim space [
              | inl h ↦ h
              | inr h ↦ absurd (ground arith)
            ] in
            (
              (true, record b { tail = new_tail }),
              rw (over, full, le→leb _ _ behind),
              (
                refl,
                record {
                  valid = omega arith;
                  kept = refl;
                  room = λ e. omega arith;
                  refused = λ e. cc;
                  cursor = omega arith;
                  steady = λ e. refl;
                },
              ),
            )
      ]
    ]
