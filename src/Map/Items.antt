-- ===== src/Map/Items.antt =====
-- One chain of base/Map.h: the loops of its methods, and what they do to a chain.
use gearkit.Base.{
  ℕ, List, [], ◌∷◌, ◌++◌, Option, none, some, Bool, true, false, ◌==◌, if◌then◌else◌,
}

-- The items of a chain in the order of their `next` pointers, each with its `key` and `value`.
abbrev pub Chain {ℓ} : Type ℓ → Type ℓ
Chain V = List (ℕ × V)

module _ {ℓ} {V : Type ℓ} where
  -- The loop of `has`.
  unfoldable pub occurs : ℕ → Chain V → Bool
  occurs key [] = false
  occurs key ((k, v) ∷ c) = if k == key then true else occurs key c

  -- The loop of `get` and of `operator []`.
  unfoldable pub find : ℕ → Chain V → Option V
  find key [] = none
  find key ((k, v) ∷ c) = if k == key then some v else find key c

  -- The loop of `set` and of `del`: the items before `plist`, of which `pprev` is the last if there
  -- is one, and the items from `plist` on.
  unfoldable pub walk : ℕ → Chain V → Chain V × Chain V
  walk key [] = ([], [])
  walk key ((k, v) ∷ c) =
      let (before, rest) = walk key c in
      if k == key then ([], (k, v) ∷ c) else ((k, v) ∷ before, rest)

  -- `if (plist == 0) plist = new struct Item(key, v, 0)`
  unfoldable pub fresh : ℕ → V → Chain V → Chain V
  fresh key v [] = (key, v) ∷ []
  fresh key v (item ∷ rest) = item ∷ rest

  -- The rest of `set`: `plist` goes behind `pprev`, or into `vec_[index]` where there is none.
  unfoldable pub link : ℕ → V → Chain V → Chain V
  unfolding walk fresh
  link key v c = let (before, rest) = walk key c in before ++ fresh key v rest

  -- The rest of `del`. With no `pprev` the code writes `vec_[index] = 0`.
  unfoldable pub unlink : Chain V × Chain V → Bool × Option V × Chain V
  unlink (before, []) = (false, none, before)
  unlink ([], (k, v) ∷ after) = (true, some v, [])
  unlink (item ∷ before, (k, v) ∷ after) = (true, some v, item ∷ (before ++ after))
