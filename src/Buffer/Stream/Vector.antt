-- ===== src/Buffer/Stream/Vector.antt =====
-- `writeVector` and `readVector` over any element type with a codec.
use gearkit.Base.{
  ℕ, ◌+◌, ◌/◌, ◌^◌, ◌≤◌, ◌<◌, ◌≡◌, refl, sym, ap, ap₂, ◌∙◌, arith, List, [], ◌∷◌, ◌++◌, Bool, true,
  false, length, All, Bool-cases, inl, inr,
}
use mathlib.Core.List.{append_assoc, append-nil}
use gearkit.Base.Run.{Run, Returns, ◌>>=◌}
use gearkit.Buffer.{Buffer}
use gearkit.Buffer.Inv.{IsValid, content}
use gearkit.Buffer.Memory.{Allocator, IsAllocator}
use gearkit.Buffer.Stream.{put_all, write_vector, get_all, read_vector}
use gearkit.Buffer.Stream.Codec.{IsCodec}
use gearkit.Buffer.Varint.{u64, bits}
use gearkit.Buffer.Varint.Leb.{Encodes}
use gearkit.Buffer.Varint.Encode.{write_varuint_lem}
use gearkit.Buffer.Varint.Decode.{read_varuint_lem}

-- The bytes of the elements, one after another.
pub data CodedAll {T : Type 0} (Coded : T → List ℕ → Type 0) : List T → List ℕ → Type 0 where
  nothing : CodedAll Coded [] []
  next :
      {x : T} {xs : List T} {bytes more : List ℕ}
      → Coded x bytes
      → CodedAll Coded xs more
      → CodedAll Coded (x ∷ xs) (bytes ++ more)

-- The number of elements as a varint, then the elements.
pub record CodedVector {T : Type 0} (Coded : T → List ℕ → Type 0) (xs : List T) (bytes : List ℕ)
    : Type 0 where
  pub count : List ℕ
  pub body : List ℕ
  pub whole : bytes ≡ count ++ body
  pub counted : Encodes count (length xs)
  pub short : length count ≤ bits u64 / 7 + 1
  pub coded : CodedAll Coded xs body

module _ {T : Type 0} {Ok : T → Type 0} {Coded : T → List ℕ → Type 0}
    {put : T → Buffer → Run (Bool × Buffer)} {get : Buffer → Run (Bool × T × Buffer)}
    (codec : IsCodec Ok Coded put get) where
  put_all_lem :
      (xs : List T) {b : Buffer}
      → All Ok xs
      → IsValid b
      → Returns (put_all put xs b) λ r.
        IsValid r.1
        × (r.0 ≡ true
            → (bytes : List ℕ) × CodedAll Coded xs bytes × (content r.1 ≡ content b ++ bytes))
  unfolding put_all
  put_all_lem [] {b} ok valid = ((true, b), refl, (valid, λ e. ([], nothing, sym (append-nil _))))
  put_all_lem (x ∷ xs) {b} ok valid =
      let (r, run, (ok_r, wrote)) = codec.puts x ok.0 valid in
      elim (Bool-cases r.0) [
        | inl e ↦
            let (s, run', (ok_s, wrote')) = put_all_lem xs ok.1 ok_r in
            (
              s,
              rw (run, ◌>>=◌, e) run',
              (
                ok_s,
                λ f.
                    let (bytes, code, here) = wrote e in
                    let (more, codes, after) = wrote' f in
                    (
                      bytes ++ more,
                      next code codes,
                      after ∙ ap (λ l. l ++ more) here ∙ append_assoc (content b) bytes more,
                    ),
              ),
            )
        | inr e ↦ ((false, r.1), rw (run, ◌>>=◌, e) refl, (ok_r, λ f. cc))
      ]

  get_all_lem :
      (xs : List T) {b : Buffer} {bytes : List ℕ} (rest : List ℕ)
      → All Ok xs
      → CodedAll Coded xs bytes
      → IsValid b
      → content b ≡ bytes ++ rest
      → Returns
          (get_all get (length xs) b)
          λ s. (s.0 ≡ true) × (s.1 ≡ xs) × IsValid s.2 × (content s.2 ≡ rest)
  unfolding get_all
  get_all_lem [] {b} rest ok nothing valid e = ((true, [], b), refl, (refl, refl, valid, e))
  get_all_lem (x ∷ xs) rest ok (next {bytes = bytes} {more = more} code codes) valid e =
      let (s, run, (read, same, ok_s, left)) =
        codec.gets x bytes (more ++ rest) ok.0 code valid (e ∙ append_assoc bytes more rest) in
      let (t, run', (read', same', ok_t, left')) = get_all_lem xs rest ok.1 codes ok_s left in
      (
        (t.0, s.1 ∷ t.1, t.2),
        rw (run, ◌>>=◌, read, run') refl,
        (read', ap₂ (λ y ys. y ∷ ys) same same', ok_t, left'),
      )

  -- `writeVector` on a valid buffer stays inside its memory and leaves a valid buffer; where it
  -- answers `true`, the number of elements and the elements stand behind what waits to be read.
  write_vector_lem :
      (alloc : Allocator) (xs : List T) {b : Buffer}
      → IsAllocator alloc
      → All Ok xs
      → length xs < 2 ^ 64
      → IsValid b
      → Returns (write_vector put alloc xs b) λ r.
        IsValid r.1
        × (r.0 ≡ true
            → (bytes : List ℕ) × CodedVector Coded xs bytes × (content r.1 ≡ content b ++ bytes))
  unfolding write_vector
  write_vector_lem alloc xs {b} law ok few valid =
      let (r, run, (count, counted, short, written, _)) =
        write_varuint_lem alloc u64 (length xs) law valid few (omega (arith, valid.small)) in
      elim (Bool-cases r.0) [
        | inl e ↦
            let (s, run', (ok_s, wrote)) = put_all_lem xs ok written.valid in
            (
              s,
              rw (run, ◌>>=◌, e) run',
              (
                ok_s,
                λ f.
                    let (body, coded, after) = wrote f in
                    (
                      count ++ body,
                      record {
                        count = count;
                        body = body;
                        whole = refl;
                        counted = counted;
                        short = short;
                        coded = coded;
                      },
                      after
                          ∙ ap (λ l. l ++ body) (written.appended e)
                          ∙ append_assoc (content b) count body,
                    ),
              ),
            )
        | inr e ↦ ((false, r.1), rw (run, ◌>>=◌, e) refl, (written.valid, λ f. cc))
      ]

  read_vector_lem :
      (xs : List T) {b : Buffer} {bytes : List ℕ} (rest : List ℕ)
      → All Ok xs
      → length xs < 2 ^ 64
      → CodedVector Coded xs bytes
      → IsValid b
      → content b ≡ bytes ++ rest
      → Returns
          (read_vector get b)
          λ s. (s.0 ≡ true) × (s.1 ≡ xs) × IsValid s.2 × (content s.2 ≡ rest)
  unfolding read_vector
  read_vector_lem xs {b} rest ok few code valid e =
      let (s, run, (read, same, ok_s, left)) =
        read_varuint_lem u64 (code.body ++ rest) valid code.counted few code.short
          (e ∙ ap (λ l. l ++ rest) code.whole ∙ append_assoc code.count code.body rest) in
      let (t, run', result) = get_all_lem xs rest ok code.coded ok_s left in
      (t, rw (run, ◌>>=◌, read, same) run', result)

  -- Where `<<` and `>>` of the element type agree, `writeVector` and `readVector` do: from a valid
  -- buffer with nothing to read, writing a vector of fewer than 2 ^ 64 elements stays inside the
  -- memory; if it answers `true`, `readVector` answers `true` with the same elements and leaves
  -- nothing to read.
  pub read_vector-write_vector :
      (alloc : Allocator) (xs : List T) {b : Buffer}
      → IsAllocator alloc
      → All Ok xs
      → length xs < 2 ^ 64
      → IsValid b
      → content b ≡ []
      → Returns (write_vector put alloc xs b) λ r.
        IsValid r.1
        × (r.0 ≡ true
            → Returns
                (read_vector get r.1)
                λ s. (s.0 ≡ true) × (s.1 ≡ xs) × IsValid s.2 × (content s.2 ≡ []))
  read_vector-write_vector alloc xs {b} law ok few valid nil =
      let (r, run, (ok_r, wrote)) = write_vector_lem alloc xs law ok few valid in
      (
        r,
        run,
        (
          ok_r,
          λ e.
              let (bytes, code, after) = wrote e in
              read_vector_lem xs [] ok few code ok_r
                (after ∙ ap (λ l. l ++ bytes) nil ∙ sym (append-nil bytes)),
        ),
      )

  -- Vectors are elements again.
  pub vector-IsCodec :
      (alloc : Allocator)
      → IsAllocator alloc
      → IsCodec
          (λ xs. All Ok xs × (length xs < 2 ^ 64))
          (CodedVector Coded)
          (write_vector put alloc)
          (read_vector get)
  vector-IsCodec alloc law = record {
    puts = λ xs ok valid. write_vector_lem alloc xs law ok.0 ok.1 valid;
    gets = λ xs bytes rest ok code valid e. read_vector_lem xs rest ok.0 ok.1 code valid e;
  }
