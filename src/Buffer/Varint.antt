-- ===== src/Buffer/Varint.antt =====
-- kit/impl/BufferImpl.h: `writeVaruint`, `readVaruint` and the signed pair above them.
pub mod Leb
pub mod Encode
pub mod Decode
pub mod RoundTrip
pub mod Signed
use Prim.Native.Nat.{bit_and, bit_or}
use gearkit.Base.{
  ℕ, zero, suc, ◌+◌, ◌-◌, ◌*◌, ◌/◌, ◌%◌, ◌^◌, ◌≤◌, arith, List, [], ◌∷◌, Option, some, none, Bool,
  true, false, ltb, ◌==◌, if◌then◌else◌, get_elem?,
}
use gearkit.Base.Run.{Run, done, fault, ◌>>=◌}
use gearkit.Buffer.{Buffer, write_buffer}
use gearkit.Buffer.Memory.{Allocator}

-- The unsigned type that a template is instantiated with.
pub data Width : Type 0 where
  u8 u16 u32 u64 : Width

-- `sizeof(T) * 8`
abbrev pub bits : Width → ℕ
bits u8 = 8
bits u16 = 16
bits u32 = 32
bits u64 = 64

pub bits_le : (w : Width) → bits w ≤ 64
bits_le u8 = omega arith
bits_le u16 = omega arith
bits_le u32 = omega arith
bits_le u64 = omega arith

-- The loop over `next_byte` with `room` bytes of `stack_buf` left: a byte too many goes outside it.
unfoldable pub groups : ℕ → ℕ → Run (List ℕ)
groups zero value = fault
groups (suc room) value =
    let byte = bit_or (bit_and value 0x7f) 0x80 in
    let rest = groups room (value / 2 ^ 7) >>= (λ bytes. done (byte ∷ bytes)) in
    if value / 2 ^ 7 == 0 then done (byte ∷ []) else rest

-- `*(next_byte - 1) &= 0x7f`
unfoldable pub end_last : List ℕ → List ℕ
end_last [] = []
end_last (byte ∷ []) = bit_and byte 0x7f ∷ []
end_last (byte ∷ next ∷ bytes) = byte ∷ end_last (next ∷ bytes)

pub write_varuint : Allocator → Width → ℕ → Buffer → Run (Bool × Buffer)
write_varuint alloc w value b = do
  bytes ← groups (bits w / 7 + 1) value
  write_buffer alloc (end_last bytes) b

-- `*read_cur_`
unfoldable pub load : Option ℕ → Run ℕ
load none = fault
load (some byte) = done byte

-- `value |= static_cast<T>(byte & 0x7f) << shift`, where `shift` is below the width.
unfoldable pub add_group : Width → ℕ → ℕ → ℕ → ℕ
add_group w value shift byte =
    if ltb shift (bits w) then bit_or value (bit_and byte 0x7f * 2 ^ shift % 2 ^ bits w) else value

unfoldable pub next_shift : Width → ℕ → ℕ
next_shift w shift = if ltb shift (bits w) then shift + 7 else shift

-- The loop, `left` bytes before `tail_`, with `read_cur_` at `pos`: the result, `value` and
-- `read_cur_` at its end.
unfoldable pub read_groups : Width → List ℕ → ℕ → ℕ → ℕ → ℕ → Run (Bool × ℕ × ℕ)
unfolding load
read_groups w mem zero pos shift value = done (false, value, pos)
read_groups w mem (suc left) pos shift value = do
  byte ← load (get_elem? mem pos)
  let value' = add_group w value shift byte
  let more = read_groups w mem left (pos + 1) (next_shift w shift) value'
  if bit_and byte 0x80 == 0 then done (true, value', pos + 1) else more

-- The result, `value` (also where the result is `false`), and the buffer.
pub read_varuint : Width → Buffer → Run (Bool × ℕ × Buffer)
read_varuint w b = do
  (ok, value, pos) ← read_groups w b.mem (b.tail - b.read_cur) b.read_cur 0 0
  done (ok, value, record b { read_cur = pos })
