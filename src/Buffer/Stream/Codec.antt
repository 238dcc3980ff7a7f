-- ===== src/Buffer/Stream/Codec.antt =====
-- What a pair of `<<` and `>>` promises: they agree on the bytes of a value.
use gearkit.Base.{
  ℕ, ◌^◌, ◌≤◌, ◌<◌, ◌≡◌, refl, sym, ap, ◌∙◌, arith, List, [], ◌∷◌, ◌++◌, Bool, true, length, take,
  drop, length-append,
}
use gearkit.Base.Run.{Run, Returns}
use gearkit.Buffer.{Buffer}
use gearkit.Buffer.Inv.{IsValid, content}
use gearkit.Buffer.Memory.{Allocator, IsAllocator}
use gearkit.Buffer.Read.{read_buffer-Taken}
use gearkit.Buffer.Write.{write_buffer-Written}
use gearkit.Buffer.Stream.{write_plain, read_plain}

-- The values that satisfy `Ok` are written as bytes that `Coded` relates to them, or the answer is
-- `false`; and from those bytes the same value is read.
pub record IsCodec {T : Type 0} (Ok : T → Type 0) (Coded : T → List ℕ → Type 0)
    (put : T → Buffer → Run (Bool × Buffer)) (get : Buffer → Run (Bool × T × Buffer)) : Type 0 where
  pub puts :
      (x : T) {b : Buffer}
      → Ok x
      → IsValid b
      → Returns (put x b) λ r.
        IsValid r.1
        × (r.0 ≡ true → (bytes : List ℕ) × Coded x bytes × (content r.1 ≡ content b ++ bytes))
  pub gets :
      (x : T) {b : Buffer} (bytes rest : List ℕ)
      → Ok x
      → Coded x bytes
      → IsValid b
      → content b ≡ bytes ++ rest
      → Returns (get b) λ s. (s.0 ≡ true) × (s.1 ≡ x) × IsValid s.2 × (content s.2 ≡ rest)

pub take_front : (xs ys : List ℕ) → take (length xs) (xs ++ ys) ≡ xs
take_front [] ys = refl
take_front (x ∷ xs) ys = ap (λ l. x ∷ l) (take_front xs ys)

pub drop_front : (xs ys : List ℕ) → drop (length xs) (xs ++ ys) ≡ ys
drop_front [] ys = refl
drop_front (x ∷ xs) ys = drop_front xs ys

-- Reading as many bytes as stand in front.
pub read_front :
    {b : Buffer} (bytes rest : List ℕ)
    → IsValid b
    → content b ≡ bytes ++ rest
    → Returns
        (read_plain (length bytes) b)
        λ s. (s.0 ≡ true) × (s.1 ≡ bytes) × IsValid s.2 × (content s.2 ≡ rest)
unfolding read_plain
read_front {b} bytes rest valid e =
    let n = length bytes in
    let enough : n ≤ length (content b) = omega (arith, ap length e, length-append bytes rest) in
    let (s, run, t) = read_buffer-Taken n valid enough in
    (
      s,
      run,
      (
        t.answer,
        t.bytes ∙ ap (take n) e ∙ take_front bytes rest,
        t.valid,
        t.left ∙ ap (drop n) e ∙ drop_front bytes rest,
      ),
    )

-- A plain type of `size` bytes.
pub plain-IsCodec :
    (alloc : Allocator) (size : ℕ)
    → IsAllocator alloc
    → size < 2 ^ 62
    → IsCodec (λ x. length x ≡ size) (λ x bytes. bytes ≡ x) (write_plain alloc) (read_plain size)
plain-IsCodec alloc size law small = record {
  puts = λ x {b} len valid.
      let (r, run, w) = write_buffer-Written alloc law x valid (omega (arith, len, valid.small)) in
      (r, unfold write_plain in run, (w.valid, λ e. (x, refl, w.appended e)));
  gets = λ x {b} bytes rest len code valid e.
      let (s, run, (ok, same, valid', left)) = read_front bytes rest valid e in
      (
        s,
        ap (λ n. read_plain n b) (sym len ∙ ap length (sym code)) ∙ run,
        (ok, same ∙ code, valid', left),
      );
}
