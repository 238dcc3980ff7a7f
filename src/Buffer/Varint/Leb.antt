-- ===== src/Buffer/Varint/Leb.antt =====
-- What the bytes of a varint mean, apart from the code: base-128 digits, lowest first, with 128
-- added to every digit but the last.
use gearkit.Base.{ℕ, ◌+◌, ◌*◌, ◌<◌, List, [], ◌∷◌}

pub data Encodes : List ℕ → ℕ → Type 0 where
  last : (g : ℕ) → g < 128 → Encodes (g ∷ []) g
  more :
      (g v : ℕ) {bytes : List ℕ}
      → g < 128
      → Encodes bytes v
      → Encodes ((g + 128) ∷ bytes) (g + 128 * v)
