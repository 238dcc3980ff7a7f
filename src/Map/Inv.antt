-- ===== src/Map/Inv.antt =====
-- The representation invariant of the map: its array has `len` chains, an item stands in the chain
-- of its key's remainder, and no key stands twice in a chain.
use gearkit.Base.{
  ℕ, ◌%◌, ◌<◌, ◌≡◌, ◌≢◌, refl, subst, ◌∙◌, arith, [], ◌∷◌, none, ◌==◌, length, Bool-cases,
  length-set, All, inl, inr,
}
use gearkit.Base.{set as set_at}
use native.Mathlib.Decide.{ℕ_discrete}
use gearkit.Map.{Map, chain_at, set}
use gearkit.Map.Items.{Chain, find, link}
use gearkit.Map.Lookup.{chain_at-set_self, chain_at-set_ne, link-cons, find-link_ne}

module _ {ℓ} {V : Type ℓ} where
  abbrev pub Distinct : Chain V → Type ℓ
  Distinct [] = Unit {ℓ}
  Distinct ((k, v) ∷ c) = (find k c ≡ none) × Distinct c

  -- What one chain has to satisfy at place `i`.
  pub record IsChain (len i : ℕ) (c : Chain V) : Type ℓ where
    pub placed : All (λ e. e.0 % len ≡ i) c
    pub distinct : Distinct c

  pub record IsValid (len : ℕ) (m : Map V) : Type ℓ where
    pub width : length m.vec ≡ len
    pub chains : (i : ℕ) → IsChain len i (chain_at m i)

  pub Nil-IsChain : (len i : ℕ) → IsChain len i []
  Nil-IsChain len i = record { placed = tt; distinct = tt }

  -- `link` and what follows `key` elsewhere.
  find-link-none :
      (key q : ℕ) (v : V) (c : Chain V) → key ≢ q → find q c ≡ none → find q (link key v c) ≡ none
  find-link-none key q v c ne e = find-link_ne key q v c ne ∙ e

  link-Distinct : (key : ℕ) (v : V) (c : Chain V) → Distinct c → Distinct (link key v c)
  link-Distinct key v [] d = unfold link find in (refl, tt)
  link-Distinct key v ((k, w) ∷ c) d = rw link-cons (elim (Bool-cases (k == key)) [
    | inl e ↦ rw e d
    | inr e ↦ rw e (find-link-none key k v c (λ p. ground arith) d.0, link-Distinct key v c d.1)
  ])

  link-placed :
      (len : ℕ) {i : ℕ} (key : ℕ) (v : V) (c : Chain V)
      → key % len ≡ i
      → All (λ e. e.0 % len ≡ i) c
      → All (λ e. e.0 % len ≡ i) (link key v c)
  link-placed len key v [] h a = unfold link in (h, tt)
  link-placed len key v ((k, w) ∷ c) h a = rw link-cons (elim (Bool-cases (k == key)) [
    | inl e ↦ rw e a
    | inr e ↦ rw e (a.0, link-placed len key v c h a.1)
  ])

  -- A chain written at its place keeps the invariant.
  pub set_at-IsValid :
      {len : ℕ} {m : Map V} (i : ℕ) (c : Chain V)
      → i < len
      → IsValid len m
      → IsChain len i c
      → IsValid len (record { vec = set_at m.vec i c })
  set_at-IsValid {len} {m} i c lt valid ok = record {
    width = length-set m.vec i c ∙ valid.width;
    chains = λ j. elim (ℕ_discrete i j) [
      | yes e ↦
          subst (λ k. IsChain len k (chain_at (record { vec = set_at m.vec i c }) k)) e
            (rw (chain_at-set_self m.vec i c (rw valid.width lt)) ok)
      | no ne ↦ rw (chain_at-set_ne m.vec c ne) (valid.chains j)
    ];
  }

  module _ {len : ℕ} (pos : 0 < len) where
    -- `set` keeps the invariant, whether or not the key is there.
    pub set-IsValid : {m : Map V} (key : ℕ) (v : V) → IsValid len m → IsValid len (set len key v m)
    unfolding set
    set-IsValid {m} key v valid =
        let old = valid.chains (key % len) in
        set_at-IsValid (key % len) (link key v (chain_at m (key % len))) (omega arith) valid
          (record {
            placed = link-placed len key v _ refl old.placed;
            distinct = link-Distinct key v _ old.distinct;
          })
