-- ===== src/Map.antt =====
-- base/Map.h, class Map: `Length` chains of items, each item at the chain of its key's remainder.
pub mod Items
pub mod Inv
pub mod Lookup
pub mod Del
pub mod Clear
pub mod Reach
mod Tests
use gearkit.Base.{
  ℕ, ◌%◌, List, [], ◌∷◌, ◌++◌, Option, none, some, Bool, true, false, length, get_elem?, replicate,
}
use gearkit.Base.{set as set_at}
use Items.{Chain, find, occurs, walk, link, unlink}

-- The array `vec_` of chains. Keys are numbers: those of an unsigned `KeyType`, and of `int` the
-- ones that are not negative (a negative key has a negative remainder, and no chain, unless the length divides it).
pub record Map {ℓ} (V : Type ℓ) : Type ℓ where
  pub vec : List (Chain V)

module _ {ℓ} {V : Type ℓ} where
  chain_or_empty : Option (Chain V) → Chain V
  chain_or_empty none = []
  chain_or_empty (some c) = c

  -- `vec_[index]`
  unfoldable pub chain_at : Map V → ℕ → Chain V
  unfolding chain_or_empty
  chain_at m i = chain_or_empty (get_elem? m.vec i)

  module _ (len : ℕ) where
    -- The constructor.
    pub new : Map V
    new = record { vec = replicate len [] }

    pub has : Map V → ℕ → Bool
    has m key = occurs key (chain_at m (key % len))

    -- What is put in `v`; `none` is the result `false`, with `v` not written.
    pub get : Map V → ℕ → Option V
    get m key = find key (chain_at m (key % len))

    pub set : ℕ → V → Map V → Map V
    set key v m =
        let index = key % len in record { vec = set_at m.vec index (link key v (chain_at m index)) }

    -- The result, and the value that the callback is called with.
    pub del : ℕ → Map V → Bool × Option V × Map V
    del key m =
        let index = key % len in
        let (found, gone, chain) = unlink (walk key (chain_at m index)) in
        (found, gone, record { vec = set_at m.vec index chain })

    -- The reference that `operator []` returns; `none` is the one to a temporary.
    pub at : Map V → ℕ → Option V
    at m key = find key (chain_at m (key % len))

  values : Chain V → List V
  values [] = []
  values ((k, v) ∷ c) = v ∷ values c

  -- The loop of `clear` over `vec_`: the values that the callback is called with, in order, and
  -- the array that is left.
  clear_all : List (Chain V) → List V × List (Chain V)
  unfolding values
  clear_all [] = ([], [])
  clear_all (c ∷ cs) = let (gone, rest) = clear_all cs in (values c ++ gone, [] ∷ rest)

  pub clear : Map V → List V × Map V
  unfolding clear_all
  clear m = let (gone, left) = clear_all m.vec in (gone, record { vec = left })
