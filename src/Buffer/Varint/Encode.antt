-- ===== src/Buffer/Varint/Encode.antt =====
-- The bytes that `writeVaruint` writes.
use Prim.Native.Nat.{bit_and, bit_or}
use gearkit.Base.{
  ℕ, zero, suc, ◌+◌, ◌*◌, ◌/◌, ◌%◌, ◌^◌, ◌≤◌, ◌<◌, ◌≡◌, refl, ap, ◌∙◌, subst, arith, List, [], ◌∷◌,
  Bool, true, ◌==◌, length, Bool-cases, inl, inr,
}
use native.Mathlib.Nat.{pow-suc}
use gearkit.Base.Bits.{and_low7, set_top_bit}
use gearkit.Base.Run.{Run, done, ◌>>=◌, Returns}
use gearkit.Base.Words.{size_mod}
use gearkit.Buffer.{Buffer}
use gearkit.Buffer.Inv.{IsValid}
use gearkit.Buffer.Memory.{Allocator, IsAllocator}
use gearkit.Buffer.Write.{Written, write_buffer-Written, write_buffer_fits}
use gearkit.Buffer.Varint.{Width, u8, u16, u32, u64, bits, bits_le, groups, end_last, write_varuint}
use gearkit.Buffer.Varint.Leb.{Encodes, last, more}

group_byte : (v : ℕ) → bit_or (bit_and v 0x7f) 0x80 ≡ v % 128 + 128
group_byte v = ap (λ n. bit_or n 0x80) (and_low7 v) ∙ set_top_bit (v % 128) (omega arith)

end_last-cons :
    (x : ℕ) (bytes : List ℕ) → 0 < length bytes → end_last (x ∷ bytes) ≡ x ∷ end_last bytes
unfolding end_last
end_last-cons x [] h = elim h [ ]
end_last-cons x (y ∷ ys) h = refl

-- What the loop leaves in `stack_buf`, once its last byte is ended.
pub record Grouped (room v : ℕ) (bytes : List ℕ) : Type 0 where
  pub encodes : Encodes (end_last bytes) v
  pub some_bytes : 0 < length bytes
  pub short : length (end_last bytes) ≤ room

last_group : (room v : ℕ) → v / 2 ^ 7 ≡ 0 → Grouped (suc room) v (bit_or (bit_and v 0x7f) 0x80 ∷ [])
unfolding end_last
last_group room v small =
    let byte : bit_and (bit_or (bit_and v 0x7f) 0x80) 0x7f ≡ v =
      ap (λ n. bit_and n 0x7f) (group_byte v) ∙ and_low7 (v % 128 + 128) ∙ omega arith in
    record {
      encodes = rw byte (last v (omega arith));
      some_bytes = omega arith;
      short = omega arith;
    }

next_group :
    (room v : ℕ) (bytes : List ℕ)
    → Grouped room (v / 2 ^ 7) bytes
    → Grouped (suc room) v (bit_or (bit_and v 0x7f) 0x80 ∷ bytes)
next_group room v bytes g =
    let whole : v % 128 + 128 * (v / 2 ^ 7) ≡ v = omega arith in
    record {
      encodes =
          rw (end_last-cons _ bytes g.some_bytes, group_byte v)
            (subst (Encodes ((v % 128 + 128) ∷ end_last bytes)) whole
              (more (v % 128) (v / 2 ^ 7) (omega arith) g.encodes));
      some_bytes = omega arith;
      short =
          rw (end_last-cons (bit_or (bit_and v 0x7f) 0x80) bytes g.some_bytes)
            (omega (arith, g.short));
    }

-- In `suc room` bytes the loop finds place for any value below `128 ^ suc room`.
groups-Grouped :
    (room v : ℕ) → v < 128 ^ suc room → Returns (groups (suc room) v) (Grouped (suc room) v)
unfolding groups
groups-Grouped zero v h =
    let small : (v / 2 ^ 7 == 0) ≡ true = ground arith in
    (_, rw small, last_group 0 v (omega arith))
groups-Grouped (suc room) v h = elim (Bool-cases (v / 2 ^ 7 == 0)) [
  | inl small ↦ (_, rw small, last_group (suc room) v (ground arith))
  | inr big ↦
      let (bytes, run, g) =
        groups-Grouped room (v / 2 ^ 7) (omega (arith, pow-suc 128 (suc room))) in
      (bit_or (bit_and v 0x7f) 0x80 ∷ bytes, rw (big, run), next_group (suc room) v bytes g)
]

same_answer :
    {m : Run (Bool × Buffer)} {r r' : Bool × Buffer}
    → m ≡ done r
    → m ≡ done r'
    → r'.0 ≡ true
    → r.0 ≡ true
same_answer {r = r} {r' = r'} e e' h = let same : r ≡ r' = cc in ap (λ p. p.0) same ∙ h

-- Every value of the type fits the `sizeof(T) * 8 / 7 + 1` bytes of `stack_buf`.
pub groups-width :
    (w : Width) (v : ℕ)
    → v < 2 ^ bits w
    → Returns (groups (bits w / 7 + 1) v) (Grouped (bits w / 7 + 1) v)
groups-width u8 v h = groups-Grouped 1 v (omega arith)
groups-width u16 v h = groups-Grouped 2 v (omega arith)
groups-width u32 v h = groups-Grouped 4 v (omega arith)
groups-width u64 v h = groups-Grouped 9 v (omega arith)

-- `writeVaruint` of any value of its type, on a valid buffer, goes outside neither `stack_buf` nor
-- the block. Either at most `sizeof(T) * 8 / 7 + 1` bytes that encode the value stand behind what
-- waits to be read, and the result is `true`, or the result is `false` and nothing has changed. It
-- is `true` at least where ten bytes fit before the end of the block.
pub write_varuint_lem :
    (alloc : Allocator) (w : Width) (v : ℕ) {b : Buffer}
    → IsAllocator alloc
    → IsValid b
    → v < 2 ^ bits w
    → b.write_cur + 74 < size_mod
    → Returns (write_varuint alloc w v b) λ r.
      (bytes : List ℕ) × Encodes bytes v
      × (length bytes ≤ bits w / 7 + 1)
      × Written bytes b r
      × (b.write_cur + 10 ≤ b.capacity → r.0 ≡ true)
unfolding write_varuint
write_varuint_lem alloc w v {b} law valid h room =
    let (bytes, run, g) = groups-width w v h in
    let few : length (end_last bytes) ≤ 10 = omega (arith, g.short, bits_le w) in
    let (r, written, ok) = write_buffer-Written alloc law (end_last bytes) valid (omega arith) in
    (
      r,
      rw (run, ◌>>=◌) written,
      (
        end_last bytes,
        g.encodes,
        g.short,
        ok,
        λ fits.
            let (r', run', (answered, _)) =
              write_buffer_fits alloc (end_last bytes) valid (inl (omega arith)) in
            same_answer written run' answered,
      ),
    )
