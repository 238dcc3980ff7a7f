-- ===== src/Buffer/Varint/Decode.antt =====
-- `readVaruint` on bytes that encode a value.
use Prim.Native.Nat.{bit_and}
use gearkit.Base.{
  ℕ, zero, suc, ◌+◌, ◌-◌, ◌*◌, ◌/◌, ◌%◌, ◌^◌, ◌≤◌, ◌<◌, ◌≡◌, refl, sym, ap, ◌∙◌, arith, List, [],
  ◌∷◌, ◌++◌, some, true, false, ◌==◌, length, get_elem?, drop, take, ltb, lt→ltb, ne_false,
  length-append,
}
use native.Mathlib.Nat.{mod-eq_of_lt, mul-le-mul_right}
use native.Mathlib.Numerals.{towards_suc, add-one}
use mathlib.Core.List.{append_assoc}
use gearkit.Base.Bits.{and_low7, top_bit, or_shifted}
use gearkit.Base.Run.{done, Returns}
use gearkit.Base.Slices.{slice, drop-drop, drop-take, drop-append_length, take-append-drop}
use gearkit.Buffer.{Buffer}
use gearkit.Buffer.Inv.{IsValid, content, length-content}
use gearkit.Buffer.Varint.{
  Width, u8, u16, u32, u64, bits, add_group, next_shift, read_groups, read_varuint,
}
use gearkit.Buffer.Varint.Leb.{Encodes, last, more}

-- The byte at the front of what is left of a block.
drop-cons :
    (pos : ℕ) (mem : List ℕ) {x : ℕ} {xs : List ℕ}
    → drop pos mem ≡ x ∷ xs
    → (get_elem? mem pos ≡ some x) × (drop (pos + 1) mem ≡ xs)
drop-cons zero [] e = cc
drop-cons zero (y ∷ ys) e = (cc, cc)
drop-cons (suc pos) [] e = cc
drop-cons (suc pos) (y ∷ ys) e =
    let (here, after) = drop-cons pos ys e in (here, simp towards_suc (rw add-one at after))

-- One group, while the shift is below the width and the value stays in range.
add_group_lem :
    (w : Width) (value shift g byte : ℕ)
    → byte % 128 ≡ g
    → shift < bits w
    → value < 2 ^ shift
    → value + g * 2 ^ shift < 2 ^ bits w
    → add_group w value shift byte ≡ value + g * 2 ^ shift
unfolding add_group
add_group_lem w value shift g byte e hs hv fits =
    let low : bit_and byte 0x7f ≡ g = and_low7 byte ∙ e in
    let whole : g * 2 ^ shift % 2 ^ bits w ≡ g * 2 ^ shift = mod-eq_of_lt (omega arith) in
    rw (lt→ltb _ _ hs, low, whole) (or_shifted shift value g hv)

shift_seven : (s : ℕ) → 2 ^ (s + 7) ≡ 128 * 2 ^ s
shift_seven s = simp towards_suc (omega arith)

-- The value and the room for the next group, after one more group.
value_bound : (value g s : ℕ) → g < 128 → value < 2 ^ s → value + g * 2 ^ s < 2 ^ (s + 7)
value_bound value g s hg hv =
    omega (arith, shift_seven s, mul-le-mul_right {m = g} {n = 127} (2 ^ s) (omega arith))

split_value :
    (value g v s : ℕ) → value + g * 2 ^ s + v * 2 ^ (s + 7) ≡ value + (g + 128 * v) * 2 ^ s
split_value value g v s = omega (arith, ap (λ (t : ℕ). v * t) (shift_seven s))

-- What the loop returns from `pos` on, when the bytes there encode `v`.
read_groups-Encodes :
    (w : Width) (mem : List ℕ) {bytes : List ℕ} {v : ℕ}
    → Encodes bytes v
    → (left pos shift value : ℕ) (rest : List ℕ) → drop pos mem ≡ bytes ++ rest
    → length bytes ≤ left
    → shift + 7 * length bytes < bits w + 7
    → value < 2 ^ shift
    → value + v * 2 ^ shift < 2 ^ bits w
    → read_groups w mem left pos shift value
      ≡ done (true, value + v * 2 ^ shift, pos + length bytes)
unfolding read_groups next_shift
read_groups-Encodes w mem (last g hg) zero pos shift value rest e room hs hv fits =
    absurd (omega arith)
read_groups-Encodes w mem (last g hg) (suc left) pos shift value rest e room hs hv fits =
    let here = (drop-cons pos mem e).0 in
    let added = add_group_lem w value shift g g (omega arith) (omega arith) hv fits in
    let top : bit_and g 0x80 ≡ 0 = top_bit g (omega arith) ∙ omega arith in rw (here, added, top)
read_groups-Encodes w mem (more g v {bytes = bytes} hg enc) zero pos shift value rest e room hs hv
      fits =
    absurd (omega arith)
read_groups-Encodes w mem (more g v {bytes = bytes} hg enc) (suc left) pos shift value rest e room
      hs hv fits =
    let (here, after) = drop-cons pos mem e in
    let whole = split_value value g v shift in
    let added =
      add_group_lem w value shift g (g + 128) (omega arith) (omega arith) hv
        (omega (arith, whole)) in
    let moved : ltb shift (bits w) ≡ true = lt→ltb _ _ (omega arith) in
    let top : (bit_and (g + 128) 0x80 == 0) ≡ false =
      ne_false (λ z. omega (arith, z, top_bit (g + 128) (omega arith))) in
    let rec =
      read_groups-Encodes w mem enc left (pos + 1) (shift + 7) (value + g * 2 ^ shift) rest after
        (omega arith) (omega arith) (value_bound value g shift hg hv) (rw whole fits) in
    rw (here, added, moved, top, rec, whole)
      (ap (λ k. done (true, value + (g + 128 * v) * 2 ^ shift, k)) (omega arith))

read_loop_from :
    (w : Width) {bytes : List ℕ} {v : ℕ} (mem : List ℕ) (left pos : ℕ) (rest : List ℕ)
    → Encodes bytes v
    → v < 2 ^ bits w
    → length bytes ≤ bits w / 7 + 1
    → drop pos mem ≡ bytes ++ rest
    → length bytes ≤ left
    → read_groups w mem left pos 0 0 ≡ done (true, v, pos + length bytes)
read_loop_from w {bytes} {v} mem left pos rest enc h short at room =
    read_groups-Encodes w mem enc left pos 0 0 rest at room (omega (arith, seven w)) (omega arith)
      (omega arith)
    ∙ ap (λ k. done (true, k, pos + length bytes)) (omega arith)
  where
    seven : (w : Width) → 7 * (bits w / 7) < bits w
    seven u8 = omega arith
    seven u16 = omega arith
    seven u32 = omega arith
    seven u64 = omega arith

content_front :
    (b : Buffer) (bytes rest : List ℕ)
    → content b ≡ bytes ++ rest
    → drop b.read_cur b.mem
      ≡ bytes ++ (rest ++ drop (b.write_cur - b.read_cur) (drop b.read_cur b.mem))
content_front b bytes rest e =
    sym (take-append-drop (b.write_cur - b.read_cur) (drop b.read_cur b.mem))
    ∙ ap (λ l. l ++ drop (b.write_cur - b.read_cur) (drop b.read_cur b.mem)) e
    ∙ append_assoc bytes rest _

-- If what waits to be read starts with bytes that encode a value of the type, no more of them than
-- `writeVaruint` uses, then `readVaruint` stays inside the block, answers `true` with
-- that value, and leaves a valid buffer with the rest to read.
pub read_varuint_lem :
    (w : Width) {bytes : List ℕ} {v : ℕ} {b : Buffer} (rest : List ℕ)
    → IsValid b
    → Encodes bytes v
    → v < 2 ^ bits w
    → length bytes ≤ bits w / 7 + 1
    → content b ≡ bytes ++ rest
    → Returns (read_varuint w b) λ r. (r.0 ≡ true) × (r.1 ≡ v) × IsValid r.2 × (content r.2 ≡ rest)
unfolding read_varuint
read_varuint_lem w {bytes} {v} {b} rest valid enc h short e =
    let n = b.write_cur - b.read_cur in
    let size : n ≡ length bytes + length rest =
      sym (length-content valid) ∙ ap length e ∙ length-append bytes rest in
    let run =
      read_loop_from w b.mem (b.tail - b.read_cur) b.read_cur
        (rest ++ drop n (drop b.read_cur b.mem)) enc h short (content_front b bytes rest e)
        (omega arith) in
    let left : slice (b.read_cur + length bytes) (b.write_cur - (b.read_cur + length bytes)) b.mem
        ≡ rest =
      ap (λ k. take k (drop (b.read_cur + length bytes) b.mem)) (omega arith)
      ∙ sym (ap (take (n - length bytes)) (drop-drop (length bytes) b.read_cur b.mem))
      ∙ sym (drop-take (length bytes) n (drop b.read_cur b.mem))
      ∙ ap (drop (length bytes)) e
      ∙ drop-append_length bytes rest in
    (
      (true, v, record b { read_cur = b.read_cur + length bytes }),
      rw run,
      (refl, refl, omega arith, left),
    )
