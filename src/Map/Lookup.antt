-- ===== src/Map/Lookup.antt =====
-- What `set` does to later lookups, and `has` against `get`.
use gearkit.Base.{
  ℕ, ◌%◌, ◌<◌, ◌≡◌, ◌≢◌, refl, arith, List, [], ◌∷◌, Option, none, some, Bool, true, false, ◌==◌,
  if◌then◌else◌, length, Bool-cases, get_elem?-set_self, get_elem?-set_ne, inl, inr, eq_refl,
  ne_false,
}
use gearkit.Base.{set as set_at}
use mathlib.Core.Option.{get_or}
use native.Mathlib.Decide.{ℕ_discrete}
use native.Mathlib.Nat.{mod-lt}
use gearkit.Map.{Map, chain_at, has, get, set}
use gearkit.Map.Items.{Chain, occurs, find, link}

abbrev pub is_some {ℓ} : {A : Type ℓ} → Option A → Bool
is_some none = false
is_some (some a) = true

module _ {ℓ} {V : Type ℓ} where
  -- A write to one entry of the array.
  pub chain_at-set_self :
      (vec : List (Chain V)) (i : ℕ) (c : Chain V)
      → i < length vec
      → chain_at (record { vec = set_at vec i c }) i ≡ c
  unfolding chain_at
  chain_at-set_self vec i c h = rw (get_elem?-set_self vec i c h)

  pub chain_at-set_ne :
      (vec : List (Chain V)) {i j : ℕ} (c : Chain V)
      → i ≢ j
      → chain_at (record { vec = set_at vec i c }) j ≡ chain_at (record { vec = vec }) j
  unfolding chain_at
  chain_at-set_ne vec c h = rw (get_elem?-set_ne vec c h)

  -- `link` as a recursion: an item with the key is left as it is.
  pub link-cons :
      (key : ℕ) (v : V) (k : ℕ) (w : V) (c : Chain V)
      → link key v ((k, w) ∷ c) ≡ (if k == key then (k, w) ∷ c else (k, w) ∷ link key v c)
  unfolding link
  link-cons key v k w c = elim (Bool-cases (k == key)) [ inl e ↦ rw (e) | inr e ↦ rw (e) ]

  find-link_self :
      (key : ℕ) (v : V) (c : Chain V) → find key (link key v c) ≡ some (get_or (find key c) v)
  unfolding find
  find-link_self key v [] = unfold link in ground arith
  find-link_self key v ((k, w) ∷ c) = rw link-cons (elim (Bool-cases (k == key)) [
    | inl e ↦ rw (e, e)
    | inr e ↦ rw (e, e, find-link_self key v c)
  ])

  pub find-link_ne : (key q : ℕ) (v : V) (c : Chain V) → key ≢ q → find q (link key v c) ≡ find q c
  unfolding find
  find-link_ne key q v [] ne = unfold link in ground arith
  find-link_ne key q v ((k, w) ∷ c) ne =
      rw link-cons (elim (Bool-cases (k == key)) [
        | inl e ↦ rw (e)
        | inr e ↦ rw (e, find-link_ne key q v c ne)
      ])

  pub occurs-find : (q : ℕ) (c : Chain V) → occurs q c ≡ is_some (find q c)
  unfolding occurs find
  occurs-find q [] = refl
  occurs-find q ((k, v) ∷ c) = elim (Bool-cases (k == q)) [
    | inl e ↦ rw (e)
    | inr e ↦ rw (e, occurs-find q c)
  ]

  -- A write to the chain of `key` that leaves the lookups of the other keys alone.
  pub find-set_at :
      (m : Map V) {len : ℕ} (key q : ℕ) (c : Chain V)
      → 0 < len
      → length m.vec ≡ len
      → key ≢ q
      → find q c ≡ find q (chain_at m (key % len))
      → find q (chain_at (record { vec = set_at m.vec (key % len) c }) (q % len))
        ≡ find q (chain_at m (q % len))
  find-set_at m {len} key q c pos width ne same = elim (ℕ_discrete (key % len) (q % len)) [
    | yes e ↦ rw (← e, chain_at-set_self m.vec (key % len) c (rw width (mod-lt key pos))) same
    | no apart ↦ rw (chain_at-set_ne m.vec c apart)
  ]

  -- What any key reads after `set`: at the key itself the value that was there before, if there
  -- was one, and the new one otherwise; at all others what it read before.
  pub get-set :
      (m : Map V) {len : ℕ} (key q : ℕ) (v : V)
      → 0 < len
      → length m.vec ≡ len
      → get len (set len key v m) q
        ≡ (if key == q then some (get_or (get len m key) v) else get len m q)
  unfolding get set
  get-set m {len} key q v pos width = elim (ℕ_discrete key q) [
    | yes e ↦
        rw
          (
            ← e,
            eq_refl key,
            chain_at-set_self m.vec (key % len) (link key v (chain_at m (key % len)))
                (rw width (mod-lt key pos)),
          )
          (find-link_self key v (chain_at m (key % len)))
    | no ne ↦ rw (ne_false ne) (
        find-set_at m key q (link key v (chain_at m (key % len))) pos width ne
          (find-link_ne key q v (chain_at m (key % len)) ne))
  ]

  -- `has` answers `true` exactly where `get` finds a value.
  pub has-get : (len : ℕ) (m : Map V) (q : ℕ) → has len m q ≡ is_some (get len m q)
  unfolding has get
  has-get len m q = occurs-find q (chain_at m (q % len))
