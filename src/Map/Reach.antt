-- ===== src/Map/Reach.antt =====
-- The maps that a client's calls lead to.
use gearkit.Base.{ℕ, ◌<◌, List, [], ◌∷◌}
use gearkit.Map.{Map, new, set, del, clear}
use gearkit.Map.Inv.{IsValid, set-IsValid}
use gearkit.Map.Del.{del-IsValid}
use gearkit.Map.Clear.{new-IsValid, cleared-IsValid}

-- A call that changes the map.
pub data Call {ℓ} (V : Type ℓ) : Type ℓ where
  set_call : ℕ → V → Call V
  del_call : ℕ → Call V
  clear_call : Call V

module _ {ℓ} {V : Type ℓ} (len : ℕ) where
  abbrev pub run : Map V → List (Call V) → Map V
  run m [] = m
  run m (set_call key v ∷ calls) = run (set len key v m) calls
  run m (del_call key ∷ calls) = run (del len key m).2 calls
  run m (clear_call ∷ calls) = run (clear m).1 calls

  run_from :
      (m : Map V) (calls : List (Call V)) → 0 < len → IsValid len m → IsValid len (run m calls)
  run_from m [] pos valid = valid
  run_from m (set_call key v ∷ calls) pos valid =
      run_from (set len key v m) calls pos (set-IsValid pos key v valid)
  run_from m (del_call key ∷ calls) pos valid =
      run_from (del len key m).2 calls pos (del-IsValid key pos valid)
  run_from m (clear_call ∷ calls) pos valid =
      run_from (clear m).1 calls pos (cleared-IsValid m valid)

  -- Whatever calls of set, del and clear follow the constructor, the map has its number of chains, every
  -- item stands in the chain of its key's remainder, and no key stands twice.
  pub run-IsValid : (calls : List (Call V)) → 0 < len → IsValid len (run (new len) calls)
  run-IsValid calls pos = run_from (new len) calls pos (new-IsValid len)
