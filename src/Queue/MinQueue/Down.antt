-- ===== src/Queue/MinQueue/Down.antt =====
-- `adjustDown`: a value goes down to its place.
use gearkit.Base.{
  ℕ, ◌+◌, ◌*◌, ◌/◌, ◌≤◌, ◌<◌, ◌≡◌, ◌≢◌, ◌⊎◌, inl, inr, refl, sym, ◌∙◌, subst, arith, List, Bool,
  true, false, length, leb, le→leb, leb→le, lt→leb_false, ◌==◌, Bool-cases, ==_iff, eq_false,
  if◌then◌else◌,
}
use gearkit.Base.Run.{done, Returns, ◌>>=◌}
use gearkit.Queue.MinQueue.{target_of, is_below}
use gearkit.Queue.MinQueue.Slots.{at, load-at}
use gearkit.Queue.MinQueue.Order.{IsOrder, never_above}

module _ {ℓ} {A : Type ℓ} (d : A) (gt : A → A → Bool) (order : IsOrder gt) where
  -- Only the places under `i` may be out of order, and `lo` under its parent.
  pub record DownInv (lo n i : ℕ) (que : List A) : Type 0 where
    pub edges :
        (c : ℕ) → 2 ≤ c → c ≤ n → c ≢ lo → c / 2 ≢ i → gt (at d que (c / 2)) (at d que c) ≡ false
    pub bridged :
        (c : ℕ) → 2 ≤ c → c ≤ n → c / 2 ≡ i → i ≢ lo → gt (at d que (i / 2)) (at d que c) ≡ false

  -- The child of `i` that comes first, if `i` has children.
  pub record IsTarget (n i : ℕ) (que : List A) (m : ℕ) : Type 0 where
    pub child : (m ≡ i * 2) ⊎ (m ≡ i * 2 + 1)
    pub inside : i * 2 ≤ n → m ≤ n
    pub first : (c : ℕ) → 2 ≤ c → c ≤ n → c / 2 ≡ i → gt (at d que m) (at d que c) ≡ false

  below_self : (a : A) → gt a a ≡ false
  below_self a = never_above gt order a

  -- `c` is one of the two children.
  child_of : (c i : ℕ) → c / 2 ≡ i → (c ≡ i * 2) ⊎ (c ≡ i * 2 + 1)
  child_of c i e = elim (Bool-cases (c == i * 2)) [
    | inl is ↦ inl ((==_iff c (i * 2)).0 is)
    | inr is_not ↦ inr (omega (arith, e, eq_false is_not))
  ]

  both_run :
      (n i : ℕ) (que : List A)
      → i * 2 + 1 ≤ n
      → n < length que
      → target_of gt n (i * 2) que
        ≡ done (if gt (at d que (i * 2)) (at d que (i * 2 + 1)) then i * 2 + 1 else i * 2)
  unfolding target_of
  both_run n i que le h =
      rw
        (
          target_of,
          le→leb (i * 2 + 1) n le,
          load-at d que (i * 2) (omega (arith, le, h)),
          ◌>>=◌,
          load-at d que (i * 2 + 1) (omega (arith, le, h)),
        )
        refl

  one_run : (n i : ℕ) (que : List A) → n < i * 2 + 1 → target_of gt n (i * 2) que ≡ done (i * 2)
  unfolding target_of
  one_run n i que h = rw (target_of, lt→leb_false (i * 2 + 1) n h) refl

  pub target_lem :
      (n i : ℕ) (que : List A)
      → n < length que
      → Returns (target_of gt n (i * 2) que) (IsTarget n i que)
  target_lem n i que h = elim (Bool-cases (leb (i * 2 + 1) n)) [
    | inr one ↦
        let less : n < i * 2 + 1 = ground (arith, one) in
        (
          i * 2,
          one_run n i que less,
          record {
            child = inl refl;
            inside = λ le. le;
            first = λ c two le e.
                let is : c ≡ i * 2 = omega (arith, e, le, less) in
                subst (λ k. gt (at d que (i * 2)) (at d que k) ≡ false) (sym is) (below_self _);
          },
        )
    | inl both ↦
        let le = leb→le _ _ both in
        elim (Bool-cases (gt (at d que (i * 2)) (at d que (i * 2 + 1)))) [
          | inl right ↦ (
            i * 2 + 1,
            both_run n i que le h ∙ rw right refl,
            record {
              child = inr refl;
              inside = λ _. le;
              first = λ c two lc e. elim (child_of c i e) [
                | inl is ↦
                    subst (λ k. gt (at d que (i * 2 + 1)) (at d que k) ≡ false) (sym is)
                      (order.one_way _ _ right)
                | inr is ↦
                    subst (λ k. gt (at d que (i * 2 + 1)) (at d que k) ≡ false) (sym is)
                      (below_self _)
              ];
            },
          )
          | inr left ↦ (
            i * 2,
            both_run n i que le h ∙ rw left refl,
            record {
              child = inl refl;
              inside = λ lc. lc;
              first = λ c two lc e. elim (child_of c i e) [
                | inl is ↦
                    subst (λ k. gt (at d que (i * 2)) (at d que k) ≡ false) (sym is) (below_self _)
                | inr is ↦ subst (λ k. gt (at d que (i * 2)) (at d que k) ≡ false) (sym is) left
              ];
            },
          )
        ]
  ]

  -- Whether the child goes up.
  pub record IsBelow (n i m : ℕ) (que : List A) (below : Bool) : Type 0 where
    pub rises : below ≡ true → (m ≤ n) × (gt (at d que i) (at d que m) ≡ true)
    pub settles : below ≡ false → m ≤ n → gt (at d que i) (at d que m) ≡ false

  pub below_lem :
      (n i m : ℕ) (que : List A)
      → i < length que
      → n < length que
      → Returns (is_below gt n i m que) (IsBelow n i m que)
  unfolding is_below
  below_lem n i m que hi h = elim (Bool-cases (leb m n)) [
    | inl inside ↦ (
      gt (at d que i) (at d que m),
      rw
          (
            is_below,
            inside,
            load-at d que i hi,
            ◌>>=◌,
            load-at d que m (omega (arith, leb→le _ _ inside, h)),
          )
          refl,
      record { rises = λ e. (leb→le _ _ inside, e); settles = λ e _. e },
    )
    | inr outside ↦ (
      false,
      rw (is_below, outside) refl,
      record { rises = λ e. absurd (cc); settles = λ e le. absurd (ground (arith, outside, le)) },
    )
  ]
