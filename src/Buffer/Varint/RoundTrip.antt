-- ===== src/Buffer/Varint/RoundTrip.antt =====
-- `readVaruint` after `writeVaruint`.
use gearkit.Base.{ℕ, ◌+◌, ◌^◌, ◌≤◌, ◌<◌, ◌≡◌, sym, ◌∙◌, ap, [], ◌++◌, true}
use mathlib.Core.List.{append-nil}
use gearkit.Base.Run.{Returns}
use gearkit.Base.Words.{size_mod}
use gearkit.Buffer.{Buffer}
use gearkit.Buffer.Inv.{IsValid, content}
use gearkit.Buffer.Memory.{Allocator, IsAllocator}
use gearkit.Buffer.Varint.{Width, bits, write_varuint, read_varuint}
use gearkit.Buffer.Varint.Encode.{write_varuint_lem}
use gearkit.Buffer.Varint.Decode.{read_varuint_lem}

-- From a valid buffer with nothing to read, `writeVaruint` of a value of its type stays inside its
-- memory. It answers `true` at least where ten bytes fit before the end of the block; and where it
-- answers `true`, `readVaruint` at the same type answers `true` with the same value, and nothing is
-- left to read.
pub read_varuint-write_varuint :
    (alloc : Allocator) (w : Width) (v : ℕ) {b : Buffer}
    → IsAllocator alloc
    → IsValid b
    → content b ≡ []
    → v < 2 ^ bits w
    → b.write_cur + 74 < size_mod
    → Returns (write_varuint alloc w v b) λ r.
      (b.write_cur + 10 ≤ b.capacity → r.0 ≡ true)
      × (r.0 ≡ true
          → Returns
              (read_varuint w r.1)
              λ s. (s.0 ≡ true) × (s.1 ≡ v) × IsValid s.2 × (content s.2 ≡ []))
read_varuint-write_varuint alloc w v law valid nothing h room =
    let (r, run, (bytes, enc, short, ok, answers)) = write_varuint_lem alloc w v law valid h room in
    (
      r,
      run,
      (
        answers,
        λ answered.
            read_varuint_lem w [] ok.valid enc h short
              (ok.appended answered ∙ ap (λ l. l ++ bytes) nothing ∙ sym (append-nil bytes)),
      ),
    )
