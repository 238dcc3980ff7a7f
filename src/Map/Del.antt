-- ===== src/Map/Del.antt =====
-- `del`: its result, what it releases, and what every key reads afterwards.
use gearkit.Base.{
  ℕ, ◌%◌, ◌<◌, ◌≡◌, ◌≢◌, refl, ap, ◌∙◌, arith, [], ◌∷◌, none, some, Bool, false, ◌==◌, ◌&&◌,
  if◌then◌else◌, length, Bool-cases, inl, inr, eq_refl, ne_false, All, length-set,
}
use gearkit.Base.{set as set_at}
use native.Mathlib.Decide.{ℕ_discrete}
use native.Mathlib.Nat.{mod-lt}
use gearkit.Map.{Map, chain_at, has, get, set, del}
use gearkit.Map.Items.{Chain, find, walk, link, unlink}
use gearkit.Map.Inv.{Distinct, IsChain, IsValid, Nil-IsChain, set_at-IsValid, set-IsValid}
use gearkit.Map.Lookup.{is_some, occurs-find, chain_at-set_self, chain_at-set_ne}

module _ {ℓ} {V : Type ℓ} where
  -- The key stands in the first item of its chain.
  pub at_head : ℕ → Chain V → Bool
  at_head key [] = false
  at_head key ((k, v) ∷ c) = k == key

  -- Taking the item with the key out of a chain, the others kept in order.
  pub erase : ℕ → Chain V → Chain V
  erase key [] = []
  erase key ((k, v) ∷ c) = if k == key then c else (k, v) ∷ erase key c

  unlink-cons :
      (e f : ℕ × V) (before rest : Chain V)
      → unlink (e ∷ f ∷ before, rest)
        ≡ (let (found, gone, c) = unlink (f ∷ before, rest) in (found, gone, e ∷ c))
  unfolding unlink
  unlink-cons e f before [] = refl
  unlink-cons e f before ((k, v) ∷ rest) = refl

  -- Behind a first item with another key, `del` takes out the item with the key.
  unlink-behind :
      (key : ℕ) (e : ℕ × V) (c : Chain V)
      → unlink (e ∷ (walk key c).0, (walk key c).1)
        ≡ (is_some (find key c), find key c, e ∷ erase key c)
  unfolding walk find erase
  unlink-behind key e [] = unfold unlink in refl
  unlink-behind key e ((k, v) ∷ c) = elim (Bool-cases (k == key)) [
    | inl h ↦ rw h (unfold unlink in refl)
    | inr h ↦
        rw (h)
          (unlink-cons e (k, v) (walk key c).0 (walk key c).1 ∙ rw (unlink-behind key (k, v) c))
  ]

  -- `del` on one chain: with the key in the first item nothing of the chain is left.
  unlink-walk :
      (key : ℕ) (c : Chain V)
      → unlink (walk key c)
        ≡ (is_some (find key c), find key c, if at_head key c then [] else erase key c)
  unfolding walk find erase at_head
  unlink-walk key [] = unfold unlink in refl
  unlink-walk key ((k, v) ∷ c) = elim (Bool-cases (k == key)) [
    | inl h ↦ rw h (unfold unlink in refl)
    | inr h ↦ rw h (unlink-behind key (k, v) c)
  ]

  find-erase_ne : (key q : ℕ) (c : Chain V) → key ≢ q → find q (erase key c) ≡ find q c
  unfolding find erase
  find-erase_ne key q [] ne = refl
  find-erase_ne key q ((k, v) ∷ c) ne = elim (Bool-cases (k == key)) [
    | inl h ↦ let other : (k == q) ≡ false = ground arith in rw (h, other)
    | inr h ↦ rw (h, find-erase_ne key q c ne)
  ]

  find-erase_self : (key : ℕ) (c : Chain V) → Distinct c → find key (erase key c) ≡ none
  unfolding find erase
  find-erase_self key [] d = refl
  find-erase_self key ((k, v) ∷ c) d = elim (Bool-cases (k == key)) [
    | inl h ↦ let same : k ≡ key = ground arith in rw h (rw same at d.0)
    | inr h ↦ rw (h, h) (find-erase_self key c d.1)
  ]

  erase-Distinct : (key : ℕ) (c : Chain V) → Distinct c → Distinct (erase key c)
  unfolding erase
  erase-Distinct key [] d = tt
  erase-Distinct key ((k, v) ∷ c) d = elim (Bool-cases (k == key)) [
    | inl h ↦ rw h d.1
    | inr h ↦ rw h (find-erase_ne key k c (λ e. ground arith) ∙ d.0, erase-Distinct key c d.1)
  ]

  erase-placed :
      (len i key : ℕ) (c : Chain V)
      → All (λ e. e.0 % len ≡ i) c
      → All (λ e. e.0 % len ≡ i) (erase key c)
  unfolding erase
  erase-placed len i key [] a = tt
  erase-placed len i key ((k, v) ∷ c) a = elim (Bool-cases (k == key)) [
    | inl h ↦ rw h a.1
    | inr h ↦ rw h (a.0, erase-placed len i key c a.1)
  ]

  after_IsChain :
      {len i : ℕ} (key : ℕ) (c : Chain V)
      → IsChain len i c
      → IsChain len i (if at_head key c then [] else erase key c)
  after_IsChain {len} {i} key c ok = elim (Bool-cases (at_head key c)) [
    | inl h ↦ rw h (Nil-IsChain len i)
    | inr h ↦ rw h (record {
      placed = erase-placed len i key c ok.placed;
      distinct = erase-Distinct key c ok.distinct;
    })
  ]

  -- The chain of `key` after `del`.
  del_vec :
      (len key : ℕ) (m : Map V)
      → del len key m ≡ (
        has len m key,
        get len m key,
        record {
          vec = set_at m.vec (key % len) (
              if at_head key (chain_at m (key % len))
              then []
              else erase key (chain_at m (key % len)));
        },
      )
  unfolding del has get
  del_vec len key m = rw (unlink-walk, occurs-find)

  -- `del` keeps the invariant, on each of its branches.
  pub del-IsValid :
      {len : ℕ} {m : Map V} (key : ℕ) → 0 < len → IsValid len m → IsValid len (del len key m).2
  del-IsValid {len} {m} key pos valid = rw del_vec (
      set_at-IsValid (key % len) _ (mod-lt key pos) valid
        (after_IsChain key (chain_at m (key % len)) (valid.chains (key % len))))

  -- Is the item that `key` would be deleted from at the head of the chain that `q` is looked up in?
  pub loses : ℕ → Map V → ℕ → ℕ → Bool
  loses len m key q = (key % len == q % len) && at_head key (chain_at m (key % len))

  find-after :
      (key q : ℕ) (c : Chain V)
      → Distinct c
      → find q (if at_head key c then [] else erase key c)
        ≡ (if at_head key c then none else if key == q then none else find q c)
  find-after key q c d = elim (Bool-cases (at_head key c)) [
    | inl h ↦ rw h (unfold find in refl)
    | inr h ↦ rw h (elim (ℕ_discrete key q) [
      | yes e ↦ rw (← e, eq_refl key) (find-erase_self key c d)
      | no ne ↦ rw (ne_false ne) (find-erase_ne key q c ne)
    ])
  ]

  get_after :
      {len : ℕ} (m : Map V) (key q : ℕ)
      → 0 < len
      → IsValid len m
      → get len
          (record {
            vec = set_at m.vec (key % len) (
                if at_head key (chain_at m (key % len))
                then []
                else erase key (chain_at m (key % len)));
          })
          q
        ≡ (if loses len m key q then none else if key == q then none else get len m q)
  unfolding loses get
  get_after {len} m key q pos valid =
      let i = key % len in
      let c = chain_at m i in
      let left : Chain V = if at_head key c then [] else erase key c in
      elim (ℕ_discrete i (q % len)) [
        | yes e ↦
            rw (← e, eq_refl i, chain_at-set_self m.vec i left (rw valid.width (mod-lt key pos)))
              (find-after key q c (valid.chains i).distinct)
        | no apart ↦
            let other : (key == q) ≡ false = ne_false (λ e. apart (ap (λ k. k % len) e)) in
            rw (ne_false apart, other, chain_at-set_ne m.vec left apart)
      ]

  -- `del` answers whether the key is there and hands its value to the callback; afterwards
  -- the key is gone, a key that shares the chain is gone too if the deleted item was the
  -- chain's first, and every other key reads what it did.
  pub del_lem :
      {len : ℕ} {m : Map V} (key q : ℕ)
      → 0 < len
      → IsValid len m
      → ((del len key m).0 ≡ has len m key)
        × ((del len key m).1 ≡ get len m key)
        × (get len (del len key m).2 q
            ≡ (if loses len m key q then none else if key == q then none else get len m q))
  unfolding loses
  del_lem {len} {m} key q pos valid = rw del_vec (refl, refl, get_after m key q pos valid)

  chain_of_two :
      {len : ℕ} (m : Map V) (a b : ℕ) (x y : V)
      → 0 < len
      → length m.vec ≡ len
      → a ≢ b
      → a % len ≡ b % len
      → chain_at m (a % len) ≡ []
      → chain_at (set len b y (set len a x m)) (a % len) ≡ (a, x) ∷ (b, y) ∷ []
  unfolding set
  chain_of_two {len} m a b x y pos width ne same empty =
      let i = a % len in
      let lt : i < length m.vec = rw width (mod-lt a pos) in
      let one : Chain V = link a x (chain_at m i) in
      let there : (a == b) ≡ false = ne_false ne in
      rw
        (
          ← same,
          chain_at-set_self m.vec i one lt,
          chain_at-set_self (set_at m.vec i one) i (link b y one) (rw length-set lt),
          empty,
        )
        (unfold link in rw there)

  -- On any valid map: two keys are set into one empty chain, and both read their values. Deleting
  -- the first one makes the other unreadable.
  pub del_loses :
      {len : ℕ} {m : Map V} (a b : ℕ) (x y : V)
      → 0 < len
      → IsValid len m
      → a ≢ b
      → a % len ≡ b % len
      → chain_at m (a % len) ≡ []
      → let m' = set len b y (set len a x m) in
        (get len m' a ≡ some x) × (get len m' b ≡ some y) × (get len (del len a m').2 b ≡ none)
  del_loses {len} {m} a b x y pos valid ne same empty =
      let v' = set-IsValid pos b y (set-IsValid pos a x valid) in
      let two = chain_of_two m a b x y pos valid.width ne same empty in
      let there : (a == b) ≡ false = ne_false ne in
      (
        unfold get find in rw (two, eq_refl a),
        unfold get find in rw (← same, two, there, eq_refl b),
        (del_lem a b pos v').2
            ∙ unfold loses at_head in rw (two, ← same, eq_refl (a % len), eq_refl a),
      )
