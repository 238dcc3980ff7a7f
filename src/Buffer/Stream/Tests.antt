-- ===== src/Buffer/Stream/Tests.antt =====
-- A buffer of 64 bytes that cannot grow, and the theorems at concrete inputs.
use gearkit.Base.{ℕ, ◌≡◌, refl, arith, List, [], ◌∷◌, true}
use gearkit.Base.Run.{Returns}
use gearkit.Buffer.Inv.{IsValid, content}
use gearkit.Buffer.Fixtures.{refusing, refusing-IsAllocator, sixty_four, sixty_four-IsValid}
use gearkit.Buffer.Stream.{
  write_plain, read_plain, write_vector, read_vector, write_string, read_string, c_string,
}
use gearkit.Buffer.Stream.Codec.{plain-IsCodec}
use gearkit.Buffer.Stream.Vector.{read_vector-write_vector}
use gearkit.Buffer.Stream.Text.{read_string-write_string}

c_string_cuts : c_string (65 ∷ 66 ∷ 0 ∷ 67 ∷ []) ≡ 65 ∷ 66 ∷ []
unfolding c_string
c_string_cuts = refl

abbrev shorts : List (List ℕ)
shorts = (1 ∷ 2 ∷ []) ∷ (3 ∷ 4 ∷ []) ∷ []

read_vector-write_vector_example :
    Returns (write_vector (write_plain refusing) refusing shorts sixty_four) λ r.
      IsValid r.1
      × (r.0 ≡ true
          → Returns
              (read_vector (read_plain 2) r.1)
              λ s. (s.0 ≡ true) × (s.1 ≡ shorts) × IsValid s.2 × (content s.2 ≡ []))
read_vector-write_vector_example =
    read_vector-write_vector (plain-IsCodec refusing 2 refusing-IsAllocator (omega arith)) refusing
      shorts refusing-IsAllocator (refl, (refl, tt)) (omega arith) sixty_four-IsValid refl

read_string-write_string_example :
    Returns (write_string refusing (65 ∷ 66 ∷ 0 ∷ 67 ∷ []) sixty_four) λ r.
      IsValid r.1
      × (r.0 ≡ true
          → Returns
              (read_string r.1)
              λ t. (t.0 ≡ true) × (t.1 ≡ 65 ∷ 66 ∷ []) × IsValid t.2 × (content t.2 ≡ []))
read_string-write_string_example =
    read_string-write_string refusing (65 ∷ 66 ∷ []) (0 ∷ 67 ∷ []) refusing-IsAllocator
      ((λ e. omega (arith, e)), ((λ e. omega (arith, e)), tt)) refl (omega arith) sixty_four-IsValid
      refl (omega arith)
