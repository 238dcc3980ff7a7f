-- ===== src/Buffer.antt =====
-- kit/Buffer.h, kit/Buffer.cpp and kit/impl/BufferImpl.h, class Buffer: bytes between a read and a
-- write cursor in one block from the C allocator.
pub mod Memory
pub mod Inv
pub mod Reserve
pub mod Write
pub mod Read
pub mod Varint
pub mod Stream
pub mod Appended
pub mod Fixtures
mod Tests
use Prim.Native.Nat.{max}
use gearkit.Base.{
  ℕ, ◌+◌, ◌*◌, ◌%◌, List, [], Option, none, some, Bool, true, false, ltb, leb, if◌then◌else◌,
  length,
}
use gearkit.Base.Run.{Run, done, ◌>>=◌}
use gearkit.Base.Words.{size_mod, add_size, sub_size}
use Memory.{Allocator, copy_in, copy_out}

-- `mem` is the block that `head_` points to (none, of no bytes, where `head_` is NULL); the other
-- three pointers are kept as distances from `head_`.
pub record Buffer : Type 0 where
  pub capacity : ℕ
  pub mem : List ℕ
  pub tail : ℕ
  pub write_cur : ℕ
  pub read_cur : ℕ

-- The constructor.
pub empty : Buffer
empty = record { capacity = 0; mem = []; tail = 0; write_cur = 0; read_cur = 0 }

-- `init` answers `true` also where the allocator returns NULL.
init : Option (List ℕ) → ℕ → Bool × Buffer
init none size =
    (true, record { capacity = size; mem = []; tail = size; write_cur = 0; read_cur = 0 })
init (some block) size =
    (true, record { capacity = size; mem = block; tail = size; write_cur = 0; read_cur = 0 })

unfoldable pub reset : Buffer → Buffer
reset b = record b { write_cur = 0; read_cur = 0 }

unfoldable pub set_size : ℕ → Buffer → Buffer
set_size size b = record b { tail = size }

pub get_size : Buffer → ℕ
get_size b = b.tail

unfoldable pub get_written_size : Buffer → ℕ
get_written_size b = b.write_cur

unfoldable pub get_writable_size : Buffer → ℕ
get_writable_size b = sub_size b.tail b.write_cur

pub get_read_size : Buffer → ℕ
get_read_size b = b.read_cur

unfoldable pub get_readable_size : Buffer → ℕ
get_readable_size b = sub_size b.write_cur b.read_cur

pub skip_write : ℕ → Buffer → Buffer
skip_write size b = record b { write_cur = b.write_cur + size }

unfoldable pub skip_read : ℕ → Buffer → Buffer
skip_read size b = record b { read_cur = b.read_cur + size }

-- What `expandBuffer` does with what `realloc` returns.
expanded : Buffer → ℕ → Option (List ℕ) → Bool × Buffer
unfolding get_written_size get_read_size
expanded b requested none = (false, b)
expanded b requested (some block) = (
  true,
  record {
    capacity = requested;
    mem = block;
    tail = requested;
    write_cur = get_written_size b;
    read_cur = get_read_size b;
  },
)

-- `memmove(head_, read_cur_, rsz)` and the cursors after it.
compact : Buffer → Run (Bool × Buffer)
unfolding get_readable_size
compact b = do
  let rsz = get_readable_size b
  bytes ← copy_out b.mem b.read_cur rsz
  block ← copy_in b.mem 0 bytes
  done (true, record b { mem = block; read_cur = 0; write_cur = rsz })

-- `memcpy(write_cur_, buf, size)`, where the reservation succeeded.
store : List ℕ → Bool × Buffer → Run (Bool × Buffer)
store bytes (false, b) = done (false, b)
store bytes (true, b) = do
  block ← copy_in b.mem b.write_cur bytes
  done (true, record b { mem = block; write_cur = b.write_cur + length bytes })

module _ (alloc : Allocator) where
  pub create : ℕ → Bool × Buffer
  unfolding init
  create size = init (alloc.malloc size) size

  pub expand_buffer : ℕ → Buffer → Bool × Buffer
  unfolding expanded
  expand_buffer required b =
      let requested = max (add_size required 64) (b.capacity * 2 % size_mod) in
      expanded b requested (alloc.realloc b.mem requested)

  pub reserve_buffer : ℕ → Buffer → Run (Bool × Buffer)
  unfolding compact expand_buffer
  reserve_buffer size b =
      let new_tail = b.write_cur + size in
      let reuse_size = sub_size (b.read_cur + b.tail) b.write_cur in
      if leb new_tail b.tail
      then done (true, b)
      else if leb size reuse_size
      then compact b
      else if leb new_tail b.capacity
      then done (true, record b { tail = new_tail })
      else done (expand_buffer new_tail b)

  -- The list is `buf[0 .. size)`.
  unfoldable pub write_buffer : List ℕ → Buffer → Run (Bool × Buffer)
  unfolding reserve_buffer store
  write_buffer bytes b = reserve_buffer (length bytes) b >>= store bytes

-- The result, what is put in `buf` (nothing, where it is `false`), and the buffer.
unfoldable pub read_buffer : ℕ → Buffer → Run (Bool × List ℕ × Buffer)
read_buffer size b = if ltb b.tail (b.read_cur + size) then done (false, [], b) else do
  bytes ← copy_out b.mem b.read_cur size
  done (true, bytes, record b { read_cur = b.read_cur + size })
