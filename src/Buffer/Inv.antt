-- ===== src/Buffer/Inv.antt =====
-- The buffer's representation invariant and the bytes that wait to be read.
use gearkit.Base.{ℕ, ◌+◌, ◌-◌, ◌≤◌, ◌≡◌, refl, arith, List, [], some, true, length}
use gearkit.Base.Slices.{slice, length-slice}
use gearkit.Buffer.{
  Buffer, empty, create, reset, get_readable_size, get_writable_size, get_size, get_written_size,
  get_read_size,
}
use gearkit.Buffer.Memory.{Allocator, IsAllocator, max_block}

-- The cursors stand in order inside the block, which has `capacity` bytes.
pub record IsValid (b : Buffer) : Type 0 where
  pub read_in : b.read_cur ≤ b.write_cur
  pub write_in : b.write_cur ≤ b.tail
  pub tail_in : b.tail ≤ b.capacity
  pub block : length b.mem ≡ b.capacity
  pub small : b.capacity ≤ max_block

-- What was written and not yet read.
abbrev pub content : Buffer → List ℕ
content b = slice b.read_cur (b.write_cur - b.read_cur) b.mem

pub length-content : {b : Buffer} → IsValid b → length (content b) ≡ b.write_cur - b.read_cur
length-content {b} v = length-slice b.read_cur (b.write_cur - b.read_cur) b.mem (omega arith)

-- In a valid buffer no size wraps: the readable size is the number of waiting bytes, and with
-- what was read and what can be written it makes up the size.
pub sizes :
    {b : Buffer}
    → IsValid b
    → (get_readable_size b ≡ length (content b))
      × (get_read_size b + get_readable_size b ≡ get_written_size b)
      × (get_written_size b + get_writable_size b ≡ get_size b)
unfolding get_readable_size get_writable_size get_size get_written_size get_read_size
sizes v = omega (arith, length-content v)

-- `reset` keeps a buffer valid and leaves nothing to read.
pub reset-IsValid : {b : Buffer} → IsValid b → IsValid (reset b) × (content (reset b) ≡ [])
unfolding reset
reset-IsValid v = (omega arith, refl)

pub empty-IsValid : IsValid empty × (content empty ≡ [])
unfolding empty
empty-IsValid = (omega arith, refl)

-- Where `malloc` grants the block, a buffer created with `size` is valid, of that size, and has
-- nothing to read.
create-IsValid :
    (alloc : Allocator)
    → IsAllocator alloc
    → (size : ℕ) {m : List ℕ} → alloc.malloc size ≡ some m
    → let (ok, b) = create alloc size in
      (ok ≡ true) × IsValid b × (content b ≡ []) × (get_size b ≡ size)
unfolding create get_size
create-IsValid alloc law size e =
    rw e (refl, omega (arith, law.malloc-length size e, law.malloc-le size e), refl, refl)
