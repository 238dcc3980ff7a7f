-- ===== src/Protocol/Write.antt =====
-- `serialize`.
use gearkit.Base.{ℕ, ◌+◌, ◌^◌, ◌≤◌, ◌<◌, refl, arith, List, [], ◌++◌, Bool, true, false}
use gearkit.Base.Run.{Run, done, Returns, ◌>>=◌}
use gearkit.Buffer.{Buffer}
use gearkit.Buffer.Inv.{IsValid}
use gearkit.Buffer.Memory.{Allocator, IsAllocator}
use gearkit.Buffer.Stream.{write_plain}
use gearkit.Buffer.Varint.{u32, u64, write_varuint}
use gearkit.Protocol.{
  PtData, PtDataVec, value, text, varint, bare, array, table, nil, null, item, size, serialize,
  serialize_all,
}
use gearkit.Buffer.Appended.{
  Appended, then_Appended, nothing_Appended, write_buffer-Appended, write_varuint-Appended,
  write_string-Appended,
}
use gearkit.Protocol.Cost.{cost, cost_all}
use gearkit.Protocol.Shape.{IsSendable, AreSendable, Coded, CodedAll, Counted}

module _ (alloc : Allocator) (law : IsAllocator alloc) where
  -- The number of items, and then what `more` writes.
  counted_lem :
      (n m : ℕ) (Body : List ℕ → Type 0) (more : Buffer → Run (Bool × Buffer)) (b : Buffer)
      → IsValid b
      → n < 2 ^ 32
      → b.write_cur + (10 + m) ≤ b.capacity
      → ((b' : Buffer)
          → IsValid b'
          → b'.write_cur + m ≤ b'.capacity
          → Returns (more b') λ r. (bytes : List ℕ) × Body bytes × Appended m bytes b' r)
      → Returns
          (write_varuint alloc u64 n b >>= λ r. elim r.0 [
            | true ↦ more r.1
            | false ↦ done (false, r.1)
          ])
          λ r. (bytes : List ℕ) × Counted n Body bytes × Appended (10 + m) bytes b r
  counted_lem n m Body more b valid few room rest =
      let (r, run, (count, enc, short, p)) =
        write_varuint-Appended alloc u64 n b law valid (omega arith) (omega arith) in
      let (s, run', (body, coded, q)) = rest r.1 p.valid (omega (arith, p.cursor, p.capacity)) in
      (
        s,
        rw (run, ◌>>=◌, p.answer) run',
        (
          count ++ body,
          (count, body, enc, short, coded, refl),
          then_Appended 10 m count body b r s p q,
        ),
      )

  -- With room for its cost, a value that can be sent is written whole, and the answer is `true`.
  mutual
    unfolding serialize write_plain

    pub serialize_lem :
        (d : PtData) (b : Buffer)
        → IsSendable d
        → IsValid b
        → b.write_cur + cost d ≤ b.capacity
        → Returns
            (serialize alloc d b)
            λ r. (bytes : List ℕ) × Coded d bytes × Appended (cost d) bytes b r
    serialize_lem (value t x) b ok valid room =
        let (r, run, p) = write_buffer-Appended alloc x b valid room in (r, run, (x, refl, p))
    serialize_lem (text s) b ok valid room =
        let (r, run, (count, enc, short, p)) =
          write_string-Appended alloc s b law valid (omega (arith, ok.1)) room in
        (r, run, (count ++ s, (count, s, enc, short, refl, refl), p))
    serialize_lem (varint v) b ok valid room =
        let (r, run, (bytes, enc, short, p)) =
          write_varuint-Appended alloc u32 v b law valid ok room in
        (r, run, (bytes, (enc, short), p))
    serialize_lem (bare ds) b ok valid room =
        counted_lem (size ds) (cost_all ds) (CodedAll ds) (serialize_all alloc ds) b valid ok.0 room
          (λ b' v h. serialize_all_lem ds b' ok.1 v h)
    serialize_lem (array d ds) b ok valid room =
        counted_lem (size ds) (cost_all ds) (CodedAll ds) (serialize_all alloc ds) b valid ok.0 room
          (λ b' v h. serialize_all_lem ds b' ok.1 v h)
    serialize_lem (table ds) b ok valid room = serialize_all_lem ds b ok valid room

    serialize_all_lem :
        (ds : PtDataVec) (b : Buffer)
        → AreSendable ds
        → IsValid b
        → b.write_cur + cost_all ds ≤ b.capacity
        → Returns
            (serialize_all alloc ds b)
            λ r. (bytes : List ℕ) × CodedAll ds bytes × Appended (cost_all ds) bytes b r
    serialize_all_lem nil b ok valid room = ((true, b), refl, ([], refl, nothing_Appended b valid))
    serialize_all_lem (null ds) b ok valid room = absurd ok
    serialize_all_lem (item d ds) b ok valid room =
        let (r, run, (front, coded, p)) = serialize_lem d b ok.0 valid (omega arith) in
        let (s, run', (back, coded', q)) =
          serialize_all_lem ds r.1 ok.1 p.valid (omega (arith, p.cursor, p.capacity)) in
        (
          s,
          rw (run, ◌>>=◌, p.answer) run',
          (
            front ++ back,
            (front, back, coded, coded', refl),
            then_Appended (cost d) (cost_all ds) front back b r s p q,
          ),
        )
