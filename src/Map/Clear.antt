-- ===== src/Map/Clear.antt =====
-- The constructor and `clear`.
use gearkit.Base.{
  ℕ, zero, suc, ◌%◌, ◌≡◌, refl, ap, ◌∙◌, List, [], ◌∷◌, none, some, ◌==◌, length, Bool-cases, inl,
  inr, replicate, length-replicate,
}
use mathlib.Core.List.{Mem, mem-append, mem-cons}
use mathlib.Core.Logic.Or
use gearkit.Map.{Map, chain_at, new, get, clear, clear_all, values}
use gearkit.Map.Items.{Chain, find}
use gearkit.Map.Inv.{IsValid, Nil-IsChain}

module _ {ℓ} {V : Type ℓ} where
  chain_at-replicate : (n i : ℕ) → chain_at {V = V} (record { vec = replicate n [] }) i ≡ []
  unfolding chain_at
  chain_at-replicate zero i = refl
  chain_at-replicate (suc n) zero = refl
  chain_at-replicate (suc n) (suc i) = chain_at-replicate n i

  pub new-IsValid : (len : ℕ) → IsValid {V = V} len (new len)
  unfolding new
  new-IsValid len = record {
    width = length-replicate len [];
    chains = λ i. rw (chain_at-replicate len i) (Nil-IsChain len i);
  }

  -- No key is found in a new map.
  pub get-new : (len key : ℕ) → get {V = V} len (new len) key ≡ none
  unfolding new get
  get-new len key = rw (chain_at-replicate len (key % len)) (unfold find in refl)

  clear_all-replicate : (cs : List (Chain V)) → (clear_all cs).1 ≡ replicate (length cs) []
  unfolding clear_all
  clear_all-replicate [] = refl
  clear_all-replicate (c ∷ cs) = ap (λ r. [] ∷ r) (clear_all-replicate cs)

  find-values : (q : ℕ) (c : Chain V) (v : V) → find q c ≡ some v → Mem v (values c)
  unfolding find values
  find-values q [] v e = cc
  find-values q ((k, w) ∷ c) v e = elim (Bool-cases (k == q)) [
    | inl h ↦ let e' : some w ≡ some v = rw h at e in mem-cons.1 (Or.inl (cc))
    | inr h ↦ mem-cons.1 (Or.inr (find-values q c v (rw h at e)))
  ]

  find-clear_all :
      (q i : ℕ) (cs : List (Chain V)) (v : V)
      → find q (chain_at (record { vec = cs }) i) ≡ some v
      → Mem v (clear_all cs).0
  unfolding clear_all chain_at
  find-clear_all q i [] v e = unfold find in cc
  find-clear_all q zero (c ∷ cs) v e = mem-append.1 (Or.inl (find-values q c v e))
  find-clear_all q (suc i) (c ∷ cs) v e = mem-append.1 (Or.inr (find-clear_all q i cs v e))

  pub cleared-IsValid : {len : ℕ} (m : Map V) → IsValid len m → IsValid len (clear m).1
  unfolding clear
  cleared-IsValid {len} m valid =
      let emptied = clear_all-replicate m.vec ∙ ap (λ n. replicate n []) valid.width in
      rw emptied (unfold new in new-IsValid len)

  -- `clear` leaves a valid map in which no key is found, and every value that a key found before
  -- is among those that the callback was called with.
  pub clear_lem :
      {len : ℕ} (m : Map V) (q : ℕ) (v : V)
      → IsValid len m
      → IsValid len (clear m).1
        × (get len (clear m).1 q ≡ none)
        × (get len m q ≡ some v → Mem v (clear m).0)
  unfolding clear get
  clear_lem {len} m q v valid =
      let emptied = clear_all-replicate m.vec ∙ ap (λ n. replicate n []) valid.width in
      (
        cleared-IsValid m valid,
        rw (emptied, chain_at-replicate len (q % len)) (unfold find in refl),
        λ e. find-clear_all q (q % len) m.vec v e,
      )
