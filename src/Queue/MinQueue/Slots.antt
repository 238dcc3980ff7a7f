-- ===== src/Queue/MinQueue/Slots.antt =====
-- The places of the array, and the values that stand in the places from 1 to a count.
use mathlib.Core.List.{Perm}
use mathlib.Core.List.Perm
use gearkit.Base.{
  ℕ, zero, suc, ◌≤◌, ◌<◌, ◌≡◌, ◌≢◌, inl, inr, refl, sym, ap, ◌∙◌, subst, arith, List, [], ◌∷◌, some,
  length, get_elem?, set, length-set, ◌==◌, Bool-cases, ==_iff, eq_false, eq_refl, ne_false,
  if◌then◌else◌,
}
use gearkit.Base.Run.{done, Returns, ◌>>=◌}
use gearkit.Queue.MinQueue.{load, exchange}

module _ {ℓ} {A : Type ℓ} (d : A) where
  -- What stands at a place; `d` outside the array.
  unfoldable pub at : List A → ℕ → A
  at [] i = d
  at (x ∷ que) zero = x
  at (x ∷ que) (suc i) = at que i

  pub get_elem?-at : (que : List A) (i : ℕ) → i < length que → get_elem? que i ≡ some (at que i)
  unfolding at
  get_elem?-at [] i h = absurd (omega (arith, h))
  get_elem?-at (x ∷ que) zero h = refl
  get_elem?-at (x ∷ que) (suc i) h = get_elem?-at que i (omega arith)

  pub load-at : (que : List A) (i : ℕ) → i < length que → load que i ≡ done (at que i)
  unfolding load
  load-at que i h = rw (load, get_elem?-at que i h) refl

  pub at-set_self : (que : List A) (i : ℕ) (v : A) → i < length que → at (set que i v) i ≡ v
  unfolding at
  at-set_self [] i v h = absurd (omega (arith, h))
  at-set_self (x ∷ que) zero v h = refl
  at-set_self (x ∷ que) (suc i) v h = at-set_self que i v (omega arith)

  pub at-set_ne : (que : List A) (i j : ℕ) (v : A) → i ≢ j → at (set que i v) j ≡ at que j
  unfolding at
  at-set_ne [] i j v h = refl
  at-set_ne (x ∷ que) zero zero v h = absurd (h refl)
  at-set_ne (x ∷ que) zero (suc j) v h = refl
  at-set_ne (x ∷ que) (suc i) zero v h = refl
  at-set_ne (x ∷ que) (suc i) (suc j) v h = at-set_ne que i j v (λ e. h (ap suc e))

  -- The values at the places from 1 to `n`, the last one first.
  unfoldable pub items : (ℕ → A) → ℕ → List A
  items f zero = []
  items f (suc n) = f (suc n) ∷ items f n

  pub items_same : (f g : ℕ → A) (n : ℕ) → ((k : ℕ) → k ≤ n → f k ≡ g k) → items f n ≡ items g n
  unfolding items
  items_same f g zero h = refl
  items_same f g (suc n) h =
      ap (λ x. x ∷ items f n) (h (suc n) (omega arith))
      ∙ ap (λ l. g (suc n) ∷ l) (items_same f g n (λ k le. h k (omega arith)))

  -- A write at a place trades the old value for the new one.
  pub items_write :
      (f g : ℕ → A) (i n : ℕ)
      → 0 < i
      → i ≤ n
      → ((k : ℕ) → i ≢ k → f k ≡ g k)
      → Perm (f i ∷ items g n) (g i ∷ items f n)
  unfolding items
  items_write f g i zero pos le same = absurd (omega (arith, pos, le))
  items_write f g i (suc n) pos le same = elim (Bool-cases (i == suc n)) [
    | inl is ↦
        let e : i ≡ suc n = (==_iff i (suc n)).0 is in
        let below : items f n ≡ items g n =
          items_same f g n (λ k h. same k (λ t. omega (arith, e, t, h))) in
        subst (λ k. Perm (f k ∷ g (suc n) ∷ items g n) (g k ∷ f (suc n) ∷ items f n)) (sym e)
          (subst (λ l. Perm (f (suc n) ∷ g (suc n) ∷ items g n) (g (suc n) ∷ f (suc n) ∷ l))
            (sym below) (Perm.swap (g (suc n)) (f (suc n)) (items g n)))
    | inr not_last ↦
        let ne = eq_false not_last in
        let rest = items_write f g i n pos (omega (arith, le, ne)) same in
        subst (λ x. Perm (f i ∷ x ∷ items g n) (g i ∷ f (suc n) ∷ items f n)) (same (suc n) ne)
          (Perm.trans (Perm.swap (f (suc n)) (f i) (items g n))
            (Perm.trans (Perm.cons (f (suc n)) rest) (Perm.swap (g i) (f (suc n)) (items f n))))
  ]

  -- Two values have changed their places.
  pub record Swapped (i j : ℕ) (que que' : List A) : Type ℓ where
    pub len : length que' ≡ length que
    pub first : at que' i ≡ at que j
    pub second : at que' j ≡ at que i
    pub others : (k : ℕ) → i ≢ k → j ≢ k → at que' k ≡ at que k

  exchange_run :
      (i j : ℕ) (que : List A)
      → i < length que
      → j < length que
      → exchange i j que ≡ done (set (set que i (at que j)) j (at que i))
  unfolding exchange
  exchange_run i j que hi hj = rw (exchange, load-at que i hi, ◌>>=◌, load-at que j hj) refl

  pub exchange-Swapped :
      (i j : ℕ) (que : List A)
      → i < length que
      → j < length que
      → i ≢ j
      → Returns (exchange i j que) (Swapped i j que)
  exchange-Swapped i j que hi hj ne =
      let half = set que i (at que j) in
      let len = length-set que i (at que j) in
      (
        set half j (at que i),
        exchange_run i j que hi hj,
        record {
          len = length-set half j (at que i) ∙ len;
          first = at-set_ne half j i (at que i) (λ e. ne (sym e)) ∙ at-set_self que i (at que j) hi;
          second = at-set_self half j (at que i) (omega (arith, len, hj));
          others = λ k a b. at-set_ne half j k (at que i) b ∙ at-set_ne que i k (at que j) a;
        },
      )

  pub swapped-Perm :
      (i j n : ℕ) (que que' : List A)
      → 0 < i
      → i ≤ n
      → 0 < j
      → j ≤ n
      → i ≢ j
      → Swapped i j que que'
      → Perm (items (at que') n) (items (at que) n)
  swapped-Perm i j n que que' pi li pj lj ne s =
      let h : ℕ → A = λ k. if k == i then at que j else at que k in
      let hi : h i ≡ at que j = rw (eq_refl i) refl in
      let hj : h j ≡ at que j = elim (Bool-cases (j == i)) [
        | inl is ↦ rw is refl
        | inr is_not ↦ rw is_not refl
      ] in
      let other : (k : ℕ) → i ≢ k → h k ≡ at que k = λ k a. rw (ne_false (λ e. a (sym e))) refl in
      let one : Perm (h i ∷ items (at que) n) (at que i ∷ items h n) =
        items_write h (at que) i n pi li other in
      let two : Perm (at que' j ∷ items h n) (h j ∷ items (at que') n) =
        items_write (at que') h j n pj lj (λ k a. elim (Bool-cases (i == k)) [
          | inl is ↦ let e = (==_iff i k).0 is in subst (λ t. at que' t ≡ h t) e (s.first ∙ sym hi)
          | inr is_not ↦ s.others k (eq_false is_not) a ∙ sym (other k (eq_false is_not))
        ]) in
      Perm.cons_inv {a = at que j} (
        Perm.trans
          (subst (λ x. Perm (x ∷ items (at que') n) (at que' j ∷ items h n)) hj (Perm.symm two))
          (subst (λ x. Perm (x ∷ items h n) (at que j ∷ items (at que) n)) (sym s.second)
            (subst (λ x. Perm (at que i ∷ items h n) (x ∷ items (at que) n)) hi (Perm.symm one))))
