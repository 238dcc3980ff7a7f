-- ===== src/Buffer/Stream.antt =====
-- kit/impl/BufferImpl.h: the operators `<<` and `>>` and the vectors.
pub mod Codec
pub mod Vector
pub mod Text
mod Tests
use gearkit.Base.{ℕ, zero, suc, ◌+◌, List, [], ◌∷◌, Bool, true, false, ◌==◌, if◌then◌else◌, length}
use gearkit.Base.Run.{Run, done, ◌>>=◌}
use gearkit.Buffer.{Buffer, write_buffer, read_buffer}
use gearkit.Buffer.Memory.{Allocator}
use gearkit.Buffer.Varint.{u64, write_varuint, read_varuint}

-- `<<` of a plain type, whose value is the list of its `sizeof(T)` bytes.
unfoldable pub write_plain : Allocator → List ℕ → Buffer → Run (Bool × Buffer)
write_plain alloc bytes b = write_buffer alloc bytes b

-- `>>` of a plain type of `size` bytes: the result, what is put in `v` (nothing, where it is
-- `false`), and the buffer.
unfoldable pub read_plain : ℕ → Buffer → Run (Bool × List ℕ × Buffer)
read_plain size b = read_buffer size b

-- `<<` of a `std::string`, or of the characters of a `char*`: the result of writing the length is
-- not looked at.
unfoldable pub write_string : Allocator → List ℕ → Buffer → Run (Bool × Buffer)
write_string alloc s b = do (ok, b') ← write_varuint alloc u64 (length s) b; write_buffer alloc s b'

-- `v = buf`: a string up to the first zero.
unfoldable pub c_string : List ℕ → List ℕ
c_string [] = []
c_string (c ∷ cs) = let rest = c_string cs in if c == 0 then [] else c ∷ rest

unfoldable string_of : Bool × List ℕ × Buffer → Bool × List ℕ × Buffer
string_of (true, buf, b) = (true, c_string buf, b)
string_of (false, buf, b) = (false, [], b)

-- `>>` of a `std::string`: the two branches differ only in where `buf` stands, and `new` is taken
-- to succeed. `size` is used even if reading it failed.
unfoldable pub read_string : Buffer → Run (Bool × List ℕ × Buffer)
unfolding string_of
read_string b = do (ok, size, b') ← read_varuint u64 b; r ← read_buffer size b'; done (string_of r)

module _ {T : Type 0} (put : T → Buffer → Run (Bool × Buffer)) where
  -- The loop of `writeVector`, with `<<` of the element type as a parameter.
  unfoldable pub put_all : List T → Buffer → Run (Bool × Buffer)
  put_all [] b = done (true, b)
  put_all (x ∷ xs) b =
      put x b >>= λ r. elim r.0 [ true ↦ put_all xs r.1 | false ↦ done (false, r.1) ]

  unfoldable pub write_vector : Allocator → List T → Buffer → Run (Bool × Buffer)
  write_vector alloc xs b = write_varuint alloc u64 (length xs) b >>= λ r. elim r.0 [
    | true ↦ put_all xs r.1
    | false ↦ done (false, r.1)
  ]

module _ {T : Type 0} (get : Buffer → Run (Bool × T × Buffer)) where
  -- The loop of `readVector`, with `>>` of the element type as a parameter: the list has the
  -- elements that were read.
  unfoldable pub get_all : ℕ → Buffer → Run (Bool × List T × Buffer)
  get_all zero b = done (true, [], b)
  get_all (suc n) b = get b >>= λ r. elim r.0 [
    | true ↦ get_all n r.2 >>= λ s. done (s.0, r.1 ∷ s.1, s.2)
    | false ↦ done (false, [], r.2)
  ]

  unfoldable pub read_vector : Buffer → Run (Bool × List T × Buffer)
  read_vector b = read_varuint u64 b >>= λ r. elim r.0 [
    | true ↦ get_all r.1 r.2
    | false ↦ done (false, [], r.2)
  ]
