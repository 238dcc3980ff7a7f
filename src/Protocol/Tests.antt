-- ===== src/Protocol/Tests.antt =====
-- A table of a number, a text and an array of varints, and the theorems at concrete inputs.
use gearkit.Base.{◌≡◌, refl, arith, [], ◌∷◌, none, true, replicate}
use gearkit.Base.Run.{fault, Returns}
use gearkit.Buffer.Fixtures.{refusing, refusing-IsAllocator, sixty_four, sixty_four-IsValid}
use gearkit.Protocol.{
  PtData, uint16, value, text, varint, array, table, nil, item, serialize, unserialize, Fresh,
  clone,
}
use gearkit.Protocol.Read.{Reads, unserialize-serialize}
use gearkit.Protocol.Resend.{serialize-unserialize}
use gearkit.Protocol.Shape.{received}

abbrev fresh : Fresh
fresh = record { bytes = λ n. replicate n 0; number = 0 }

abbrev numbers : PtData
numbers = array (varint 0) (item (varint 300) (item (varint 5) nil))

abbrev sent : PtData
sent = table (item (value uint16 (1 ∷ 2 ∷ [])) (item (text (65 ∷ [])) (item numbers nil)))

abbrev blank : PtData
blank = table (item (value uint16 (0 ∷ 0 ∷ [])) (item (text []) (item (array (varint 7) nil) nil)))

-- A table as the template of an array cannot be cloned.
table_uncloned : clone fresh (table nil) ≡ none
unfolding clone
table_uncloned = refl

unserialize-serialize_example : Returns (serialize refusing sent sixty_four) λ r.
    (r.0 ≡ true) × Returns (unserialize fresh 3 blank r.1) (Reads (received fresh blank sent) [])
unfolding clone
unserialize-serialize_example =
    unserialize-serialize fresh refusing sent blank 3 sixty_four refusing-IsAllocator
      (
        refl,
        (
          (((λ e. omega (arith, e)), tt), omega arith),
          ((omega arith, (omega arith, (omega arith, tt))), tt),
        ),
      )
      (refl, (tt, ((_, refl, (tt, (tt, tt))), tt))) (omega arith) sixty_four-IsValid refl
      (omega arith)

serialize-unserialize_example : Returns (serialize refusing numbers sixty_four) λ r.
    Returns
      (unserialize fresh 2 (array (varint 7) nil) r.1)
      λ s. (s.0 ≡ true) × (serialize refusing s.1 sixty_four ≡ fault)
unfolding clone
serialize-unserialize_example =
    serialize-unserialize fresh refusing (varint 0) (varint 7) nil
      (item (varint 300) (item (varint 5) nil)) 2 sixty_four sixty_four refusing-IsAllocator
      (omega arith, (omega arith, (omega arith, tt))) (_, refl, (tt, (tt, tt))) (omega arith)
      sixty_four-IsValid refl (omega arith) (omega arith) sixty_four-IsValid (omega arith)
