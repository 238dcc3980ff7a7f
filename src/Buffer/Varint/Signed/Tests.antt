-- ===== src/Buffer/Varint/Signed/Tests.antt =====
-- Codes of small values, and the theorems at concrete inputs.
use gearkit.Base.{ℕ, ◌+◌, ◌-◌, ◌^◌, ◌≤◌, ◌≡◌, refl, arith, [], some, true}
use gearkit.Base.Run.{Returns}
use gearkit.Buffer.Fixtures.{refusing, refusing-IsAllocator, sixty_four, sixty_four-IsValid}
use gearkit.Buffer.Inv.{IsValid, content}
use gearkit.Buffer.Varint.{u32}
use gearkit.Buffer.Varint.Signed.{zigzag, sign_bits, write_varint, read_varint}
use gearkit.Buffer.Varint.Signed.ZigZag.{read_varint-write_varint}

-- -3
abbrev minus_three : ℕ
minus_three = 2 ^ 32 - 3

code_of_minus_three : zigzag u32 minus_three ≡ 5
unfolding zigzag sign_bits
code_of_minus_three = refl

read_varint-write_varint_example : Returns (write_varint refusing u32 minus_three sixty_four) λ r.
    (sixty_four.write_cur + 10 ≤ sixty_four.capacity → r.0 ≡ true)
    × (r.0 ≡ true
        → Returns
            (read_varint u32 r.1)
            λ s. (s.0 ≡ true) × (s.1 ≡ some minus_three) × IsValid s.2 × (content s.2 ≡ []))
read_varint-write_varint_example =
    read_varint-write_varint refusing u32 minus_three refusing-IsAllocator sixty_four-IsValid refl
      (omega arith) (omega arith)
