-- ===== src/Protocol/Resend.antt =====
-- An array that was received.
use gearkit.Base.{[], ℕ, zero, suc, ◌+◌, ◌^◌, ◌≤◌, ◌<◌, ◌≡◌, refl, ap, ◌∙◌, arith, some, Bool, true}
use gearkit.Base.Run.{done, fault, Returns, ◌>>=◌}
use gearkit.Buffer.{Buffer}
use gearkit.Buffer.Inv.{IsValid, content}
use gearkit.Buffer.Memory.{Allocator, IsAllocator}
use gearkit.Buffer.Varint.{u64, write_varuint}
use gearkit.Protocol.{
  PtData, PtDataVec, array, nil, null, item, size, nulls, add_data, Fresh, serialize, unserialize,
}
use gearkit.Buffer.Appended.{write_varuint-Appended}
use gearkit.Protocol.Cost.{cost}
use gearkit.Protocol.Read.{unserialize-serialize}
use gearkit.Protocol.Shape.{IsSendable, height, Fits, received, received_onto}

size-add_data : (d : PtData) (ds : PtDataVec) → size (add_data d ds) ≡ suc (size ds)
size-add_data d nil = refl
size-add_data d (null ds) = ap suc (size-add_data d ds)
size-add_data d (item e ds) = ap suc (size-add_data d ds)

size-nulls : (n : ℕ) → size (nulls n) ≡ n
size-nulls zero = refl
size-nulls (suc n) = ap suc (size-nulls n)

module _ (fresh : Fresh) where
  size-received_onto :
      (c : PtData) (got ds : PtDataVec)
      → size (received_onto fresh (some c) got ds) ≤ size got + size ds
  size-received_onto c got nil = omega arith
  size-received_onto c got (null ds) = omega arith
  size-received_onto c got (item d ds) = omega (
    arith,
    size-received_onto c (add_data (received fresh c d) got) ds,
    size-add_data (received fresh c d) got,
  )

  -- What stands in front stays in front.
  received_onto-null :
      (c : PtData) (got ds : PtDataVec)
      → received_onto fresh (some c) (null got) ds ≡ null (received_onto fresh (some c) got ds)
  received_onto-null c got nil = refl
  received_onto-null c got (null ds) = refl
  received_onto-null c got (item d ds) = received_onto-null c (add_data (received fresh c d) got) ds

  null_in_front :
      (c : PtData) (ds : PtDataVec)
      → 0 < size ds
      → (more : PtDataVec) × (received_onto fresh (some c) (nulls (size ds)) ds ≡ null more)
  null_in_front c nil h = absurd (omega arith)
  null_in_front c (null ds) h = (_, received_onto-null c (nulls (size ds)) (null ds))
  null_in_front c (item d ds) h = (_, received_onto-null c (nulls (size ds)) (item d ds))

  null_lem :
      (alloc : Allocator) (e : PtData) (more : PtDataVec) (b : Buffer) (r : Bool × Buffer)
      → write_varuint alloc u64 (suc (size more)) b ≡ done r
      → r.0 ≡ true
      → serialize alloc (array e (null more)) b ≡ fault
  unfolding serialize
  null_lem alloc e more b r run answer = rw (run, ◌>>=◌, answer) refl

  -- What was received, written again.
  received_faults :
      (alloc : Allocator) (e d : PtData) (es ds : PtDataVec) (b : Buffer)
      → IsAllocator alloc
      → Fits fresh (array e es) (array d ds)
      → 0 < size ds
      → size ds < 2 ^ 32
      → IsValid b
      → b.write_cur + 10 ≤ b.capacity
      → serialize alloc (received fresh (array e es) (array d ds)) b ≡ fault
  received_faults alloc e d es ds b law (c, cloned, fits) some_item few valid room =
      let (more, front) = null_in_front c ds some_item in
      let bound : suc (size more) < 2 ^ 64 =
        omega
          (arith, ap size front, size-received_onto c (nulls (size ds)) ds, size-nulls (size ds)) in
      let (r, run, (_, _, _, p)) =
        write_varuint-Appended alloc u64 (suc (size more)) b law valid bound room in
      let whole : received fresh (array e es) (array d ds) ≡ array e (null more) =
        ap (array e) (ap (λ o. received_onto fresh o (nulls (size ds)) ds) cloned ∙ front) in
      ap (λ x. serialize alloc x b) whole ∙ null_lem alloc e more b r run p.answer

  -- Where `serialize` of an array of one item or more, and fewer than 2 ^ 32, can be sent, and the
  -- array's receiver has a place for it, `unserialize` of what `serialize` wrote answers `true`, and the
  -- array that it leaves cannot be sent on: with ten bytes free in any valid buffer, its `serialize`
  -- writes the length and then follows a null pointer.
  pub serialize-unserialize :
      (alloc : Allocator) (d e : PtData) (es ds : PtDataVec) (fuel : ℕ) (b c : Buffer)
      → IsAllocator alloc
      → IsSendable (array d ds)
      → Fits fresh (array e es) (array d ds)
      → height (array d ds) ≤ fuel
      → IsValid b
      → content b ≡ []
      → b.write_cur + cost (array d ds) ≤ b.capacity
      → 0 < size ds
      → IsValid c
      → c.write_cur + 10 ≤ c.capacity
      → Returns (serialize alloc (array d ds) b) λ r.
        Returns
          (unserialize fresh fuel (array e es) r.1)
          λ s. (s.0 ≡ true) × (serialize alloc s.1 c ≡ fault)
  serialize-unserialize alloc d e es ds fuel b c law ok fits high valid nothing room some_item
        valid' room' =
      let (r, run, (_, (s, run', (answer, same, _, _)))) =
        unserialize-serialize fresh alloc (array d ds) (array e es) fuel b law ok fits high valid
          nothing room in
      (
        r,
        run,
        (
          s,
          run',
          (
            answer,
            ap (λ x. serialize alloc x c) same
                ∙ received_faults alloc e d es ds c law fits some_item ok.0 valid' room',
          ),
        ),
      )
