-- ===== src/Queue/MinQueue/Sift.antt =====
-- The loop of `adjustDown`.
use mathlib.Core.List.{Perm}
use mathlib.Core.List.Perm
use gearkit.Base.{
  ℕ, zero, suc, ◌+◌, ◌*◌, ◌/◌, ◌≤◌, ◌<◌, ◌≡◌, inl, inr, refl, sym, ap, ap₂, ◌∙◌, ◌⊎◌, subst, arith,
  List, Bool, true, false, length, ltb, ltb→lt, ◌==◌, Bool-cases, ==_iff, eq_false,
}
use gearkit.Base.Run.{done, Returns, ◌>>=◌}
use gearkit.Queue.MinQueue.{target_of, is_below, exchange, adjust_loop, adjust_down}
use gearkit.Queue.MinQueue.Slots.{at, items, Swapped, exchange-Swapped, swapped-Perm}
use gearkit.Queue.MinQueue.Order.{IsOrder, IsHeapBut}
use gearkit.Queue.MinQueue.Down.{DownInv, IsTarget, target_lem, below_lem}

-- What a run of the loop does.
pub record Sifted {ℓ} {A : Type ℓ} (d : A) (gt : A → A → Bool) (lo n : ℕ) (changed : Bool)
    (que : List A) (r : Bool × List A) : Type ℓ where
  pub len : length r.1 ≡ length que
  pub perm : Perm (items d (at d r.1) n) (items d (at d que) n)
  pub order : IsHeapBut d gt lo n r.1
  pub same : r.0 ≡ false → (changed ≡ false) × (r.1 ≡ que)

module _ {ℓ} {A : Type ℓ} (d : A) (gt : A → A → Bool) (order : IsOrder gt) where
  moved : {x y x' y' : A} → x' ≡ x → y' ≡ y → gt x y ≡ false → gt x' y' ≡ false
  moved a b h = ap₂ gt a b ∙ h

  swap-DownInv :
      (lo n i m : ℕ) (que que' : List A)
      → 0 < lo
      → lo ≤ i
      → m / 2 ≡ i
      → m ≤ n
      → gt (at d que i) (at d que m) ≡ true
      → IsTarget d gt order n i que m
      → Swapped d i m que que'
      → DownInv d gt order lo n i que
      → DownInv d gt order lo n m que'
  swap-DownInv lo n i m que que' pos low half inside above t s v = record {
    edges = λ c two le nlo nm. elim (Bool-cases (c == i)) [
      | inl is ↦
          let e = (==_iff c i).0 is in
          moved (s.others (c / 2) (omega (arith, e, two)) (omega (arith, e, half, two)))
            (ap (at d que') e ∙ s.first)
            (subst (λ k. gt (at d que (k / 2)) (at d que m) ≡ false) (sym e)
              (v.bridged m (omega (arith, half, pos, low)) inside half (λ z. nlo (e ∙ z))))
      | inr not_i ↦ elim (Bool-cases (c == m)) [
        | inl is ↦
            let e = (==_iff c m).0 is in
            moved (ap (λ k. at d que' (k / 2)) e ∙ ap (at d que') half ∙ s.first)
              (ap (at d que') e ∙ s.second) (order.one_way _ _ above)
        | inr not_m ↦
            let here = s.others c (λ z. eq_false not_i (sym z)) (λ z. eq_false not_m (sym z)) in
            elim (Bool-cases (c / 2 == i)) [
              | inl is ↦
                  let e = (==_iff (c / 2) i).0 is in
                  moved (ap (at d que') e ∙ s.first) here (t.first c two le e)
              | inr not_half ↦
                  let ne = eq_false not_half in
                  moved (s.others (c / 2) (λ z. ne (sym z)) (λ z. nm (sym z))) here
                    (v.edges c two le nlo ne)
            ]
      ]
    ];
    bridged = λ c two le e nlo.
        moved (ap (at d que') half ∙ s.first ∙ ap (at d que) (sym e))
          (s.others c (omega (arith, e, half, pos, low)) (omega (arith, e, half, pos, low)))
          (v.edges c two le (omega (arith, e, half, pos, low)) (omega (arith, e, half, pos, low)));
  }

  loop_ends :
      (fuel n i : ℕ) (changed : Bool) (que : List A)
      → ltb i n ≡ false
      → adjust_loop gt (suc fuel) n i changed que ≡ done (changed, que)
  unfolding adjust_loop
  loop_ends fuel n i changed que all = rw (adjust_loop, all) refl

  loop_settles :
      (fuel n i m : ℕ) (changed : Bool) (que : List A)
      → ltb i n ≡ true
      → target_of gt n (i * 2) que ≡ done m
      → is_below gt n i m que ≡ done false
      → adjust_loop gt (suc fuel) n i changed que ≡ done (changed, que)
  unfolding adjust_loop
  loop_settles fuel n i m changed que more target below =
      rw (adjust_loop, more, target, ◌>>=◌, below) refl

  loop_goes :
      (fuel n i m : ℕ) (changed : Bool) (que que' : List A)
      → ltb i n ≡ true
      → target_of gt n (i * 2) que ≡ done m
      → is_below gt n i m que ≡ done true
      → exchange i m que ≡ done que'
      → adjust_loop gt (suc fuel) n i changed que ≡ adjust_loop gt fuel n m true que'
  unfolding adjust_loop
  loop_goes fuel n i m changed que que' more target below swap =
      rw (adjust_loop, more, target, ◌>>=◌, below, ◌>>=◌, swap) refl

  -- Where nothing rises the places are in order.
  settled_lem :
      (lo n i : ℕ) (changed : Bool) (que : List A)
      → DownInv d gt order lo n i que
      → ((c : ℕ) → 2 ≤ c → c ≤ n → c / 2 ≡ i → gt (at d que i) (at d que c) ≡ false)
      → Sifted d gt lo n changed que (changed, que)
  settled_lem lo n i changed que v below = record {
    len = refl;
    perm = Perm.rfl;
    order = λ c two le nlo. elim (Bool-cases (c / 2 == i)) [
      | inl is ↦
          let e = (==_iff (c / 2) i).0 is in
          subst (λ k. gt (at d que k) (at d que c) ≡ false) (sym e) (below c two le e)
      | inr is_not ↦ v.edges c two le nlo (eq_false is_not)
    ];
    same = λ e. (e, refl);
  }

  child_half : (m i : ℕ) → (m ≡ i * 2) ⊎ (m ≡ i * 2 + 1) → m / 2 ≡ i
  child_half m i (inl e) = omega (arith, e)
  child_half m i (inr e) = omega (arith, e)

  -- A round that moves a value.
  round_lem :
      (lo n i m : ℕ) (changed : Bool) (que que' : List A) (r : Bool × List A)
      → 0 < lo
      → lo ≤ i
      → i < m
      → m ≤ n
      → Swapped d i m que que'
      → Sifted d gt lo n true que' r
      → Sifted d gt lo n changed que r
  round_lem lo n i m changed que que' r pos low less inside s t = record {
    len = t.len ∙ s.len;
    perm = Perm.trans t.perm (
        swapped-Perm d i m n que que' (omega (arith, pos, low)) (omega (arith, less, inside))
          (omega (arith, less)) inside (λ z. omega (arith, z, less)) s);
    order = t.order;
    same = λ e. let bad : true ≡ false = (t.same e).0 in absurd (cc);
  }

  pub adjust_loop-Sifted :
      (fuel lo n i : ℕ) (changed : Bool) (que : List A)
      → 0 < fuel
      → n < fuel + i
      → 0 < lo
      → lo ≤ i
      → n < length que
      → i < length que
      → DownInv d gt order lo n i que
      → Returns (adjust_loop gt fuel n i changed que) (Sifted d gt lo n changed que)
  adjust_loop-Sifted zero lo n i changed que f g pos low h hi v = absurd (omega (arith, f))
  adjust_loop-Sifted (suc fuel) lo n i changed que f g pos low h hi v =
      elim (Bool-cases (ltb i n)) [
        | inr all ↦ (
          (changed, que),
          loop_ends fuel n i changed que all,
          settled_lem lo n i changed que v (λ c two le e. absurd (ground (arith, all, le, e, two))),
        )
        | inl more ↦
            let less = ltb→lt _ _ more in
            let (m, target, t) = target_lem d gt order n i que h in
            let (below, run, b) = below_lem d gt order n i m que hi h in
            let half = child_half m i t.child in
            elim (Bool-cases below) [
              | inr settles ↦ (
                (changed, que),
                loop_settles fuel n i m changed que more target (run ∙ ap done settles),
                settled_lem lo n i changed que v (λ c two le e.
                    order.steps _ _ _ (b.settles settles (t.inside (omega (arith, e, le))))
                      (t.first c two le e)),
              )
              | inl rises ↦
                  let (inside, above) = b.rises rises in
                  let down : i < m = omega (arith, half, pos, low) in
                  let (que', swap, s) =
                    exchange-Swapped d i m que hi (omega (arith, inside, h))
                      (λ z. omega (arith, z, down)) in
                  let (r, rest, u) =
                    adjust_loop-Sifted fuel lo n m true que' (omega (arith, g, down, inside))
                      (omega (arith, g, down)) pos (omega (arith, low, down))
                      (omega (arith, h, s.len)) (omega (arith, inside, h, s.len))
                      (swap-DownInv lo n i m que que' pos low half inside above t s v) in
                  (
                    r,
                    loop_goes fuel n i m changed que que' more target (run ∙ ap done rises) swap
                        ∙ rest,
                    round_lem lo n i m changed que que' r pos low down inside s u,
                  )
            ]
      ]

  pub adjust_down-Sifted :
      (lo n : ℕ) (que : List A)
      → 0 < lo
      → n < length que
      → lo < length que
      → DownInv d gt order lo n lo que
      → Returns (adjust_down gt n lo que) (Sifted d gt lo n false que)
  unfolding adjust_down
  adjust_down-Sifted lo n que pos h hl v =
      adjust_loop-Sifted (suc n) lo n lo false que (omega arith) (omega (arith, pos)) pos
        (omega arith) h hl v
