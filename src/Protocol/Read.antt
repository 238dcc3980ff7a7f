-- ===== src/Protocol/Read.antt =====
-- `unserialize` of what `serialize` wrote.
use gearkit.Base.{
  ℕ, zero, suc, ◌+◌, ◌^◌, ◌≤◌, ◌<◌, ◌≡◌, refl, sym, ap, ap₂, ◌∙◌, arith, List, [], ◌++◌, Option,
  some, Bool, true, false, length, ltb, lt→ltb,
}
use mathlib.Core.List.{append_assoc, append-nil}
use gearkit.Base.Run.{Run, done, Returns, ◌>>=◌}
use gearkit.Buffer.{Buffer}
use gearkit.Buffer.Inv.{IsValid, content}
use gearkit.Buffer.Memory.{Allocator, IsAllocator}
use gearkit.Buffer.Stream.{read_plain, read_string}
use gearkit.Buffer.Stream.Codec.{read_front}
use gearkit.Buffer.Stream.Text.{read_string_lem}
use gearkit.Buffer.Varint.{u32, u64, read_varuint}
use gearkit.Buffer.Varint.Decode.{read_varuint_lem}
use gearkit.Protocol.{
  PtType, PtData, PtDataVec, value, text, varint, bare, array, table, nil, null, item, size,
  size_of, nulls, add_data, clone, Fresh, serialize, unserialize, read_each, read_items, read_array,
  value_read, text_read,
}
use gearkit.Protocol.Cost.{cost}
use gearkit.Protocol.Shape.{
  IsSendable, AreSendable, Coded, CodedAll, Counted, height, height_all, Fits, FitsItems, FitsEach,
  received, received_onto, received_each,
}
use gearkit.Protocol.Write.{serialize_lem}

-- A read that answers `true` with `x` and leaves `rest` to read.
abbrev pub Reads : {X : Type 0} → X → List ℕ → (Bool × X × Buffer) → Type 0
Reads x rest s = (s.0 ≡ true) × (s.1 ≡ x) × IsValid s.2 × (content s.2 ≡ rest)

height_pos : (d : PtData) → 0 < height d
height_pos (value t x) = omega arith
height_pos (text s) = omega arith
height_pos (varint v) = omega arith
height_pos (bare ds) = omega arith
height_pos (array d ds) = omega arith
height_pos (table ds) = omega arith

value_read_lem :
    (t : PtType) (old x : List ℕ) (r : Bool × List ℕ × Buffer)
    → r.0 ≡ true
    → r.1 ≡ x
    → value_read t old r ≡ (true, value t x, r.2)
value_read_lem t old x (true, out, b) ok same = ap (λ y. (true, value t y, b)) same
value_read_lem t old x (false, out, b) ok same = cc

text_read_lem :
    (old x : List ℕ) (r : Bool × List ℕ × Buffer)
    → r.0 ≡ true
    → r.1 ≡ x
    → text_read old r ≡ (true, text x, r.2)
text_read_lem old x (true, out, b) ok same = ap (λ y. (true, text y, b)) same
text_read_lem old x (false, out, b) ok same = cc

-- The length in front of an array.
count_lem :
    (n : ℕ) (Body : List ℕ → Type 0) (bytes rest : List ℕ) (b : Buffer)
    → n < 2 ^ 32
    → Counted n Body bytes
    → IsValid b
    → content b ≡ bytes ++ rest
    → Returns (read_varuint u64 b) λ r. (body : List ℕ) × Body body × Reads n (body ++ rest) r
count_lem n Body bytes rest b few (count, body, enc, short, coded, whole) valid e =
    let (r, run, reads) =
      read_varuint_lem u64 (body ++ rest) valid enc (omega arith) short
        (e ∙ ap (λ l. l ++ rest) whole ∙ append_assoc count body rest) in
    (r, run, (body, coded, reads))

read_array_lem :
    (read : PtData → Buffer → Run (Bool × PtData × Buffer)) (template : Option PtData) (d : PtData)
    (n : ℕ) (ds : PtDataVec) (r : Bool × ℕ × Buffer)
    → r.0 ≡ true
    → r.1 ≡ n
    → n < 2 ^ 32
    → read_array read template d r ds
      ≡ (read_items read template n (nulls n) r.2 >>= λ s. done (s.0, array d s.1, s.2))
unfolding read_array
read_array_lem read template d n ds (true, len, b) ok same few =
    let small : ltb len (2 ^ 32) ≡ true = lt→ltb _ _ (omega (arith, same)) in rw (small, same) refl
read_array_lem read template d n ds (false, len, b) ok same few = cc

value_lem :
    (t u : PtType) (x y bytes rest : List ℕ) (b : Buffer)
    → t ≡ u
    → length y ≡ size_of u
    → bytes ≡ y
    → IsValid b
    → content b ≡ bytes ++ rest
    → Returns (read_plain (size_of t) b >>= λ r. done (value_read t x r)) (Reads (value t y) rest)
value_lem t u x y bytes rest b same len code valid e =
    let (r, run, (read, out, v', left)) = read_front bytes rest valid e in
    let wide : size_of t ≡ length bytes = ap size_of same ∙ sym len ∙ ap length (sym code) in
    (
      (true, value t y, r.2),
      rw (wide, run, ◌>>=◌) (ap done (value_read_lem t x y r read (out ∙ code))),
      (refl, refl, v', left),
    )

text_lem :
    (x s bytes rest : List ℕ) (b : Buffer)
    → IsSendable (text s)
    → Counted (length s) (λ body. body ≡ s) bytes
    → IsValid b
    → content b ≡ bytes ++ rest
    → Returns (read_string b >>= λ r. done (text_read x r)) (Reads (text s) rest)
text_lem x s bytes rest b ok (count, body, enc, short, code, whole) valid e =
    let all : s ++ [] ≡ s = append-nil s in
    let (r, run, (read, out, v', left)) =
      read_string_lem s [] count rest ok.0 tt (rw all ok.1) (rw all enc) short valid (
        e
        ∙ ap (λ l. l ++ rest) whole
        ∙ append_assoc count body rest
        ∙ ap (λ l. count ++ (l ++ rest)) (code ∙ sym all)) in
    (
      (true, text s, r.2),
      rw (run, ◌>>=◌) (ap done (text_read_lem x s r read out)),
      (refl, refl, v', left),
    )

module _ (fresh : Fresh) where
  array_lem :
      (read : PtData → Buffer → Run (Bool × PtData × Buffer)) (t c : PtData) (es ds : PtDataVec)
      (bytes rest : List ℕ) (b : Buffer)
      → clone fresh t ≡ some c
      → size ds < 2 ^ 32
      → Counted (size ds) (CodedAll ds) bytes
      → IsValid b
      → content b ≡ bytes ++ rest
      → ((body : List ℕ) (b' : Buffer)
          → CodedAll ds body
          → IsValid b'
          → content b' ≡ body ++ rest
          → Returns
              (read_items read (some c) (size ds) (nulls (size ds)) b')
              (Reads (received_onto fresh (some c) (nulls (size ds)) ds) rest))
      → Returns
          (read_varuint u64 b >>= λ r. read_array read (clone fresh t) t r es)
          (Reads (array t (received_onto fresh (clone fresh t) (nulls (size ds)) ds)) rest)
  array_lem read t c es ds bytes rest b cloned few coded valid e items =
      let (r, run, (body, code, (ok, n, v', left))) =
        count_lem (size ds) (CodedAll ds) bytes rest b few coded valid e in
      let (s, run', (ok', got, v'', left')) = items body r.2 code v' left in
      (
        (s.0, array t s.1, s.2),
        rw
            (
              run,
              ◌>>=◌,
              read_array_lem read (clone fresh t) t (size ds) es r ok n few,
              cloned,
              run',
              ◌>>=◌,
            )
            refl,
        (
          ok',
          ap (array t) (got ∙ ap (λ o. received_onto fresh o (nulls (size ds)) ds) (sym cloned)),
          v'',
          left',
        ),
      )

  mutual
    unfolding unserialize read_items read_each read_plain

    unserialize_lem :
        (d e : PtData) (fuel : ℕ) (bytes rest : List ℕ) (b : Buffer)
        → Fits fresh e d
        → IsSendable d
        → Coded d bytes
        → height d ≤ suc fuel
        → IsValid b
        → content b ≡ bytes ++ rest
        → Returns (unserialize fresh (suc fuel) e b) (Reads (received fresh e d) rest)
    unserialize_lem (value u y) (value t x) fuel bytes rest b fits ok coded high valid e =
        value_lem t u x y bytes rest b fits ok coded valid e
    unserialize_lem (value u y) other fuel bytes rest b fits ok coded high valid e = absurd fits
    unserialize_lem (text s) (text x) fuel bytes rest b fits ok coded high valid e =
        text_lem x s bytes rest b ok coded valid e
    unserialize_lem (text s) other fuel bytes rest b fits ok coded high valid e = absurd fits
    unserialize_lem (varint v) (varint x) fuel bytes rest b fits ok coded high valid e =
        let (r, run, (read, same, v', left)) =
          read_varuint_lem u32 rest valid coded.0 ok coded.1 e in
        ((r.0, varint r.1, r.2), rw (run, ◌>>=◌) refl, (read, ap varint same, v', left))
    unserialize_lem (varint v) other fuel bytes rest b fits ok coded high valid e = absurd fits
    unserialize_lem (bare ds) (array t es) fuel bytes rest b (c, cloned, fits) ok coded high valid
          e =
        array_lem (unserialize fresh fuel) t c es ds bytes rest b cloned ok.0 coded valid e
          (λ body b' code v' left.
            items_lem ds c fuel (nulls (size ds)) body rest b' fits ok.1 code (omega arith) v' left)
    unserialize_lem (bare ds) other fuel bytes rest b fits ok coded high valid e = absurd fits
    unserialize_lem (array d ds) (array t es) fuel bytes rest b (c, cloned, fits) ok coded high
          valid e =
        array_lem (unserialize fresh fuel) t c es ds bytes rest b cloned ok.0 coded valid e
          (λ body b' code v' left.
            items_lem ds c fuel (nulls (size ds)) body rest b' fits ok.1 code (omega arith) v' left)
    unserialize_lem (array d ds) other fuel bytes rest b fits ok coded high valid e = absurd fits
    unserialize_lem (table ds) (table es) fuel bytes rest b fits ok coded high valid e =
        let (r, run, (read, same, v', left)) =
          each_lem ds es fuel bytes rest b fits ok coded (omega arith) valid e in
        ((r.0, table r.1, r.2), rw (run, ◌>>=◌) refl, (read, ap table same, v', left))
    unserialize_lem (table ds) other fuel bytes rest b fits ok coded high valid e = absurd fits

    items_lem :
        (ds : PtDataVec) (c : PtData) (fuel : ℕ) (got : PtDataVec) (bytes rest : List ℕ)
        (b : Buffer)
        → FitsItems fresh c ds
        → AreSendable ds
        → CodedAll ds bytes
        → height_all ds ≤ fuel
        → IsValid b
        → content b ≡ bytes ++ rest
        → Returns
            (read_items (unserialize fresh fuel) (some c) (size ds) got b)
            (Reads (received_onto fresh (some c) got ds) rest)
    items_lem nil c fuel got bytes rest b fits ok coded high valid e =
        ((true, got, b), refl, (refl, refl, valid, e ∙ ap (λ l. l ++ rest) coded))
    items_lem (null ds) c fuel got bytes rest b fits ok coded high valid e = absurd ok
    items_lem (item d ds) c zero got bytes rest b fits ok coded high valid e =
        absurd (omega (arith, height_pos d))
    items_lem (item d ds) c (suc fuel) got bytes rest b fits ok (front, back, one, more, whole) high
          valid e =
        let (r, run, (read, same, v', left)) =
          unserialize_lem d c fuel front (back ++ rest) b fits.0 ok.0 one (omega arith) valid
            (e ∙ ap (λ l. l ++ rest) whole ∙ append_assoc front back rest) in
        let (s, run', result) =
          items_lem ds c (suc fuel) (add_data (received fresh c d) got) back rest r.2 fits.1 ok.1
            more (omega arith) v' left in
        (s, rw (run, ◌>>=◌, read, same) run', result)

    each_lem :
        (ds es : PtDataVec) (fuel : ℕ) (bytes rest : List ℕ) (b : Buffer)
        → FitsEach fresh es ds
        → AreSendable ds
        → CodedAll ds bytes
        → height_all ds ≤ fuel
        → IsValid b
        → content b ≡ bytes ++ rest
        → Returns (read_each (unserialize fresh fuel) es b) (Reads (received_each fresh es ds) rest)
    each_lem nil nil fuel bytes rest b fits ok coded high valid e =
        ((true, nil, b), refl, (refl, refl, valid, e ∙ ap (λ l. l ++ rest) coded))
    each_lem nil other fuel bytes rest b fits ok coded high valid e = absurd fits
    each_lem (null ds) es fuel bytes rest b fits ok coded high valid e = absurd ok
    each_lem (item d ds) (item t es) zero bytes rest b fits ok coded high valid e =
        absurd (omega (arith, height_pos d))
    each_lem (item d ds) (item t es) (suc fuel) bytes rest b fits ok (front, back, one, more, whole)
          high valid e =
        let (r, run, (read, same, v', left)) =
          unserialize_lem d t fuel front (back ++ rest) b fits.0 ok.0 one (omega arith) valid
            (e ∙ ap (λ l. l ++ rest) whole ∙ append_assoc front back rest) in
        let (s, run', (read', same', v'', left')) =
          each_lem ds es (suc fuel) back rest r.2 fits.1 ok.1 more (omega arith) v' left in
        (
          (s.0, item r.1 s.1, s.2),
          rw (run, ◌>>=◌, read, run', ◌>>=◌) refl,
          (read', ap₂ (λ x xs. item x xs) same same', v'', left'),
        )
    each_lem (item d ds) other fuel bytes rest b fits ok coded high valid e = absurd fits

  -- Where a buffer has nothing to read and room for the value's cost, `serialize` of a value that
  -- can be sent stays inside the memory and answers `true`; and `unserialize` of a receiver that has
  -- a place for it then answers `true`, leaves nothing to read, and sets the receiver to the value.
  -- A received array has a null pointer for each item in front of the items.
  pub unserialize-serialize :
      (alloc : Allocator) (d e : PtData) (fuel : ℕ) (b : Buffer)
      → IsAllocator alloc
      → IsSendable d
      → Fits fresh e d
      → height d ≤ fuel
      → IsValid b
      → content b ≡ []
      → b.write_cur + cost d ≤ b.capacity
      → Returns
          (serialize alloc d b)
          λ r. (r.0 ≡ true) × Returns (unserialize fresh fuel e r.1) (Reads (received fresh e d) [])
  unserialize-serialize alloc d e zero b law ok fits high valid nothing room =
      absurd (omega (arith, height_pos d))
  unserialize-serialize alloc d e (suc fuel) b law ok fits high valid nothing room =
      let (r, run, (bytes, coded, p)) = serialize_lem alloc law d b ok valid room in
      (
        r,
        run,
        (
          p.answer,
          unserialize_lem d e fuel bytes [] r.1 fits ok coded high p.valid
              (p.appended ∙ ap (λ l. l ++ bytes) nothing ∙ sym (append-nil bytes)),
        ),
      )
