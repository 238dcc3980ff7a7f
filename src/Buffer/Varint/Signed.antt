-- ===== src/Buffer/Varint/Signed.antt =====
-- kit/impl/BufferImpl.h: `writeVarint` and `readVarint`. A value of a signed type is the number of
-- its two's complement bits; the template takes the types of 32 and of 64 bits only, as the
-- argument of `writeVaruint` is a signed `int` for the smaller ones.
pub mod ZigZag
mod Tests
use Prim.Native.Nat.{bit_and, bit_xor}
use gearkit.Base.{
  ℕ, ◌-◌, ◌*◌, ◌/◌, ◌%◌, ◌^◌, Option, none, some, Bool, true, false, ltb, if◌then◌else◌,
}
use gearkit.Base.Run.{Run, done, ◌>>=◌}
use gearkit.Buffer.{Buffer}
use gearkit.Buffer.Memory.{Allocator}
use gearkit.Buffer.Varint.{Width, bits, write_varuint, read_varuint}

-- `value >> (8 * sizeof(T) - 1)`: the sign in every bit.
unfoldable pub sign_bits : Width → ℕ → ℕ
sign_bits w v = if ltb v (2 ^ (bits w - 1)) then 0 else 2 ^ bits w - 1

-- `(static_cast<UnsignedT>(value) << 1) ^ (value >> (8 * sizeof(T) - 1))`
unfoldable pub zigzag : Width → ℕ → ℕ
unfolding sign_bits
zigzag w v = bit_xor (v * 2 % 2 ^ bits w) (sign_bits w v)

-- `(unsigned_value >> 1) ^ -static_cast<T>(unsigned_value & 1)`
unfoldable pub unzigzag : Width → ℕ → ℕ
unzigzag w u = bit_xor (u / 2) ((2 ^ bits w - bit_and u 1) % 2 ^ bits w)

pub write_varint : Allocator → Width → ℕ → Buffer → Run (Bool × Buffer)
write_varint alloc w v b = write_varuint alloc w (zigzag w v) b

-- What is put in `value`: nothing, where the result is `false`.
unfoldable signed_of : Width → Bool × ℕ × Buffer → Bool × Option ℕ × Buffer
signed_of w (true, u, b) = (true, some (unzigzag w u), b)
signed_of w (false, u, b) = (false, none, b)

pub read_varint : Width → Buffer → Run (Bool × Option ℕ × Buffer)
unfolding signed_of
read_varint w b = read_varuint w b >>= λ r. done (signed_of w r)
