-- ===== src/Buffer/Varint/Signed/ZigZag.antt =====
-- The zigzag encoding, and `readVarint` after `writeVarint`.
use Prim.Native.Nat.{bit_and}
use gearkit.Base.{
  ℕ, ◌+◌, ◌-◌, ◌*◌, ◌/◌, ◌%◌, ◌^◌, ◌≤◌, ◌<◌, ◌≡◌, refl, ap, ◌∙◌, arith, [], some, Bool, true, false,
  ltb, if◌then◌else◌, Bool-cases, ltb→lt, lt→ltb, le→ltb_false, inl, inr,
}
use gearkit.Base.Bits.{and_low1}
use gearkit.Base.Run.{done, Returns, ◌>>=◌}
use gearkit.Base.Words.{size_mod}
use gearkit.Base.Xor.{xor-zero, xor_ones}
use gearkit.Buffer.{Buffer}
use gearkit.Buffer.Inv.{IsValid, content}
use gearkit.Buffer.Memory.{Allocator, IsAllocator}
use gearkit.Buffer.Varint.{Width, u8, u16, u32, u64, bits}
use gearkit.Buffer.Varint.RoundTrip.{read_varuint-write_varuint}
use gearkit.Buffer.Varint.Signed.{sign_bits, zigzag, unzigzag, write_varint, read_varint, signed_of}

-- What `<< 1` leaves of a value that is not negative, and of a negative one.
doubled :
    (w : Width) (v : ℕ)
    → v < 2 ^ bits w
    → (v < 2 ^ (bits w - 1) → (v * 2 % 2 ^ bits w ≡ 2 * v) × (2 * v < 2 ^ bits w))
      × (2 ^ (bits w - 1) ≤ v
          → (v * 2 % 2 ^ bits w ≡ 2 * v - 2 ^ bits w)
            × (2 * v - 2 ^ bits w < 2 ^ bits w)
            × (2 ^ bits w ≤ 2 * v))
doubled u8 v h = ground arith
doubled u16 v h = ground arith
doubled u32 v h = ground arith
doubled u64 v h = ground arith

-- The mask of `readVarint`.
mask :
    (w : Width)
    → ((2 ^ bits w - 0) % 2 ^ bits w ≡ 0) × ((2 ^ bits w - 1) % 2 ^ bits w ≡ 2 ^ bits w - 1)
mask u8 = (omega arith, omega arith)
mask u16 = (omega arith, omega arith)
mask u32 = (omega arith, omega arith)
mask u64 = (omega arith, omega arith)

-- Zero and up become the even numbers.
zigzag_small : (w : Width) (v : ℕ) → v < 2 ^ bits w → v < 2 ^ (bits w - 1) → zigzag w v ≡ 2 * v
unfolding zigzag sign_bits
zigzag_small w v all h =
    let (twice, fits) = (doubled w v all).0 h in
    rw (lt→ltb _ _ h, twice) (xor-zero (bits w) (2 * v) fits)

-- The negative values become the odd ones.
zigzag_big :
    (w : Width) (v : ℕ)
    → v < 2 ^ bits w
    → 2 ^ (bits w - 1) ≤ v
    → zigzag w v ≡ 2 * (2 ^ bits w - v) - 1
unfolding zigzag sign_bits
zigzag_big w v all lo =
    let (twice, fits, most) = (doubled w v all).1 lo in
    rw (le→ltb_false _ _ lo, twice) (xor_ones (bits w) (2 * v - 2 ^ bits w) fits ∙ omega arith)

unzigzag_even : (w : Width) (v : ℕ) → v < 2 ^ bits w → unzigzag w (2 * v) ≡ v
unfolding unzigzag
unzigzag_even w v h =
    let low : bit_and (2 * v) 1 ≡ 0 = omega (arith, and_low1 (2 * v)) in
    let half : 2 * v / 2 ≡ v = omega arith in rw (low, half, (mask w).0) (xor-zero (bits w) v h)

unzigzag_odd : (w : Width) (k : ℕ) → k < 2 ^ bits w → unzigzag w (2 * k + 1) ≡ 2 ^ bits w - 1 - k
unfolding unzigzag
unzigzag_odd w k h =
    let low : bit_and (2 * k + 1) 1 ≡ 1 = omega (arith, and_low1 (2 * k + 1)) in
    let half : (2 * k + 1) / 2 ≡ k = omega arith in
    rw (low, half, (mask w).1) (xor_ones (bits w) k h)

-- On the bits of every value of a signed type, the encoding stays inside the unsigned type and
-- decodes to the same bits; `v` stands for 2 * v if it is not negative, and for one less than twice
-- its distance from zero if it is.
pub unzigzag-zigzag :
    (w : Width) (v : ℕ)
    → v < 2 ^ bits w
    → (unzigzag w (zigzag w v) ≡ v)
      × (zigzag w v < 2 ^ bits w)
      × (zigzag w v ≡ (if ltb v (2 ^ (bits w - 1)) then 2 * v else 2 * (2 ^ bits w - v) - 1))
unzigzag-zigzag w v h = elim (Bool-cases (ltb v (2 ^ (bits w - 1)))) [
  | inl e ↦
      let low = ltb→lt v (2 ^ (bits w - 1)) e in
      let code = zigzag_small w v h low in
      let (_, fits) = (doubled w v h).0 low in rw (code, e) (unzigzag_even w v h, fits, refl)
  | inr e ↦
      let high : 2 ^ (bits w - 1) ≤ v = ground arith in
      let (_, fits, most) = (doubled w v h).1 high in
      let k = 2 ^ bits w - 1 - v in
      let code : zigzag w v ≡ 2 * k + 1 = zigzag_big w v h high ∙ omega arith in
      rw (code, e)
        (unzigzag_odd w k (omega arith) ∙ omega arith, omega (arith, fits, most), omega arith)
]

signed_of-read :
    (w : Width) (v : ℕ) (r : Bool × ℕ × Buffer)
    → r.0 ≡ true
    → unzigzag w r.1 ≡ v
    → signed_of w r ≡ (true, some v, r.2)
unfolding signed_of
signed_of-read w v (true, u, b) ok same = ap (λ x. (true, some x, b)) same
signed_of-read w v (false, u, b) ok same = cc

-- From a valid buffer with nothing to read, `writeVarint` of a value of its type stays inside its
-- memory, and answers `true` at least where ten bytes fit before the end of the block. Where it
-- answers `true`, `readVarint` answers `true` with the same value and leaves nothing to read.
pub read_varint-write_varint :
    (alloc : Allocator) (w : Width) (v : ℕ) {b : Buffer}
    → IsAllocator alloc
    → IsValid b
    → content b ≡ []
    → v < 2 ^ bits w
    → b.write_cur + 74 < size_mod
    → Returns (write_varint alloc w v b) λ r.
      (b.write_cur + 10 ≤ b.capacity → r.0 ≡ true)
      × (r.0 ≡ true
          → Returns
              (read_varint w r.1)
              λ s. (s.0 ≡ true) × (s.1 ≡ some v) × IsValid s.2 × (content s.2 ≡ []))
unfolding write_varint read_varint
read_varint-write_varint alloc w v law valid nil h room =
    let (same, fits, _) = unzigzag-zigzag w v h in
    let (r, run, (answers, reads)) =
      read_varuint-write_varuint alloc w (zigzag w v) law valid nil fits room in
    (
      r,
      run,
      (
        answers,
        λ e.
            let (s, run', (ok, got, valid', left)) = reads e in
            (
              (true, some v, s.2),
              rw (run', ◌>>=◌) (ap done (signed_of-read w v s ok (ap (unzigzag w) got ∙ same))),
              (refl, refl, valid', left),
            ),
      ),
    )
