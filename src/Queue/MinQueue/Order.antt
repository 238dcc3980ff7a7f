-- ===== src/Queue/MinQueue/Order.antt =====
-- The order of the heap: a value never compares above one of its two children.
use gearkit.Base.{
  ℕ, zero, suc, ◌/◌, ◌≤◌, ◌<◌, ◌≡◌, ◌≢◌, inl, inr, sym, subst, arith, List, Bool, true, false, ◌==◌,
  Bool-cases, ==_iff, eq_false,
}
use gearkit.Queue.MinQueue.Slots.{at}

module _ {ℓ} {A : Type ℓ} where
  -- What the queue relies on: `compare` is the strict part of a total order.
  pub record IsOrder (gt : A → A → Bool) : Type ℓ where
    pub one_way : (a b : A) → gt a b ≡ true → gt b a ≡ false
    pub steps : (a b c : A) → gt a b ≡ false → gt b c ≡ false → gt a c ≡ false

  pub never_above : (gt : A → A → Bool) → IsOrder gt → (a : A) → gt a a ≡ false
  never_above gt o a = elim (Bool-cases (gt a a)) [
    | inl is ↦ o.one_way a a is
    | inr is_not ↦ is_not
  ]

  -- The places up to `n` are in order, but for the value at `lo` under its parent.
  abbrev pub IsHeapBut : A → (A → A → Bool) → ℕ → ℕ → List A → Type 0
  IsHeapBut d gt lo n que =
      (c : ℕ) → 2 ≤ c → c ≤ n → c ≢ lo → gt (at d que (c / 2)) (at d que c) ≡ false

  abbrev pub IsHeap : A → (A → A → Bool) → ℕ → List A → Type 0
  IsHeap d gt n que = IsHeapBut d gt 1 n que

  root_below :
      (d : A) (gt : A → A → Bool) (fuel n : ℕ) (que : List A) (i : ℕ)
      → IsOrder gt
      → IsHeap d gt n que
      → i < fuel
      → 0 < i
      → i ≤ n
      → gt (at d que 1) (at d que i) ≡ false
  root_below d gt zero n que i o h f pos le = absurd (omega (arith, f))
  root_below d gt (suc fuel) n que i o h f pos le = elim (Bool-cases (i == 1)) [
    | inl is ↦
        let e = (==_iff i 1).0 is in
        subst (λ k. gt (at d que 1) (at d que k) ≡ false) (sym e) (never_above gt o (at d que 1))
    | inr is_not ↦
        let ne = eq_false is_not in
        o.steps _ _ _
          (root_below d gt fuel n que (i / 2) o h (omega (arith, f, pos)) (omega (arith, pos, ne))
            (omega (arith, le)))
          (h i (omega (arith, pos, ne)) le ne)
  ]

  -- The value at place 1 comes first.
  pub root_first :
      (d : A) (gt : A → A → Bool) (n : ℕ) (que : List A) (i : ℕ)
      → IsOrder gt
      → IsHeap d gt n que
      → 0 < i
      → i ≤ n
      → gt (at d que 1) (at d que i) ≡ false
  root_first d gt n que i o h pos le = root_below d gt (suc i) n que i o h (omega arith) pos le
