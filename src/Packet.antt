-- ===== src/Packet.antt =====
-- network/Packet.h and network/Packet.cpp, class Packet: a header, and a buffer for the body.
pub mod Header
mod Tests
use gearkit.Base.{
  ℕ, zero, suc, ◌+◌, ◌*◌, ◌/◌, ◌%◌, ◌^◌, List, [], ◌∷◌, Option, none, some, Bool, true, false,
}
use gearkit.Base.Run.{Run, done, ◌>>=◌}
use gearkit.Buffer.{Buffer, get_written_size}
use gearkit.Buffer.Memory.{Allocator}
use gearkit.Buffer.Stream.{write_plain, read_plain}

-- PacketHeader; `pid` is the bit pattern of an int32_t.
pub record PacketHeader : Type 0 where
  pub pid : ℕ
  pub seed : ℕ
  pub length : ℕ

-- The members; the reference counts are left out.
pub record Packet : Type 0 where
  pub header : PacketHeader
  pub buf : Option Buffer

-- `setBuffer` and `delBuffer`
unfoldable pub set_buffer : Option Buffer → Packet → Packet
set_buffer buf p = record p { buf = buf }

unfoldable pub del_buffer : Packet → Packet
del_buffer p = record p { buf = none }

-- `(uint16_t)(buf ? buf->getWrittenSize() : 0)`
unfoldable pub body_length : Option Buffer → ℕ
body_length none = 0
body_length (some buf) = get_written_size buf % 2 ^ 16

-- `init`; the seed stays as it is.
pub init : ℕ → Option Buffer → Packet → Packet
init pid buf p = record p {
  header = record p.header { pid = pid; length = body_length buf };
  buf = (set_buffer buf p).buf;
}

unfoldable pub set_seed : ℕ → Packet → Packet
set_seed seed p = record p { header = record p.header { seed = seed } }

-- The `n` bytes of a number in memory, the low one first, and the number that they stand for.
abbrev pub bytes_of : ℕ → ℕ → List ℕ
bytes_of zero v = []
bytes_of (suc n) v = v % 256 ∷ bytes_of n (v / 256)

abbrev pub number_of : List ℕ → ℕ
number_of [] = 0
number_of (byte ∷ bytes) = byte + 256 * number_of bytes

-- `>>` of a number, which keeps its value where the read fails.
abbrev pub read_number : ℕ → Bool × List ℕ × Buffer → ℕ
read_number old (true, bytes, b) = number_of bytes
read_number old (false, bytes, b) = old

-- `packHeader`; the results of the writes are not looked at.
unfoldable pub pack_header : Allocator → Packet → Buffer → Run Buffer
pack_header alloc p head_buf = write_plain alloc (bytes_of 2 p.header.seed) head_buf >>= λ r.
    write_plain alloc (bytes_of 2 p.header.length) r.1 >>= λ s.
    write_plain alloc (bytes_of 4 p.header.pid) s.1 >>= λ t. done t.1

-- `unpackHeader`; nor are those of the reads.
unfoldable pub unpack_header : Packet → Buffer → Run (Packet × Buffer)
unpack_header p head_buf = read_plain 2 head_buf >>= λ r. read_plain 2 r.2 >>= λ s.
    read_plain 4 s.2 >>= λ t. done (
      record p {
        header = record {
          seed = read_number p.header.seed r;
          length = read_number p.header.length s;
          pid = read_number p.header.pid t;
        };
      },
      t.2,
    )
