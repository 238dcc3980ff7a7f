-- ===== src/Array/Entries.antt =====
-- Insertion-ordered entries by themselves: looking up after `put` and `remove`.
use gearkit.Base.{
  ℕ, suc, ◌+◌, ◌≡◌, ◌≢◌, refl, sym, ap, ◌∙◌, arith, List, [], ◌∷◌, Option, none, some, true, false,
  ◌==◌, if◌then◌else◌, length, Bool-cases, ==_iff, eq_refl, ne_false, inl, inr,
}
use gearkit.Array.Cells.{find, put, remove, Distinct, last_or, cell}

module _ {ℓ} {A : Type ℓ} where
  pub find-put :
      (i j : ℕ) (v : A) (es : List (ℕ × A))
      → find j (put i v es) ≡ (if i == j then some v else find j es)
  find-put i j v [] = refl
  find-put i j v ((k, u) ∷ es) = elim (Bool-cases (k == i)) [
    | inl e ↦
        let same = (==_iff k i).0 e in
        rw (e, ← same) (elim (Bool-cases (k == j)) [ inl f ↦ rw f refl | inr f ↦ rw f refl ])
    | inr e ↦ rw e (elim (Bool-cases (k == j)) [
      | inl f ↦
          let other : (i == j) ≡ false =
            ne_false (λ t. let clash : true ≡ false = sym f ∙ ap (λ x. k == x) (sym t) ∙ e in cc) in
          rw (f, other) refl
      | inr f ↦ rw f (find-put i j v es)
    ])
  ]

  pub put-Distinct : (i : ℕ) (v : A) (es : List (ℕ × A)) → Distinct es → Distinct (put i v es)
  put-Distinct i v [] d = (refl, tt)
  put-Distinct i v ((k, u) ∷ es) d = elim (Bool-cases (k == i)) [
    | inl e ↦ rw e d
    | inr e ↦
        let other : (i == k) ≡ false =
          ne_false (λ t.
            let clash : true ≡ false = sym (eq_refl k) ∙ ap (λ x. k == x) (sym t) ∙ e in cc) in
        rw e ((find-put i k v es ∙ rw other d.0), put-Distinct i v es d.1)
  ]

  pub find-remove_ne : (i j : ℕ) (es : List (ℕ × A)) → j ≢ i → find j (remove i es) ≡ find j es
  find-remove_ne i j [] ne = refl
  find-remove_ne i j ((k, u) ∷ es) ne = elim (Bool-cases (k == i)) [
    | inl e ↦
        let off : (k == j) ≡ false = ne_false (λ f. ne (sym f ∙ (==_iff k i).0 e)) in
        rw (e, off) refl
    | inr e ↦
        rw e (elim (Bool-cases (k == j)) [
          | inl f ↦ rw f refl
          | inr f ↦ rw f (find-remove_ne i j es ne)
        ])
  ]

  pub find-remove_self : (i : ℕ) (es : List (ℕ × A)) → Distinct es → find i (remove i es) ≡ none
  find-remove_self i [] d = refl
  find-remove_self i ((k, u) ∷ es) d = elim (Bool-cases (k == i)) [
    | inl e ↦ rw e (ap (λ x. find x es) (sym ((==_iff k i).0 e)) ∙ d.0)
    | inr e ↦ rw (e, e) (find-remove_self i es d.1)
  ]

  pub remove-Distinct : (i : ℕ) (es : List (ℕ × A)) → Distinct es → Distinct (remove i es)
  remove-Distinct i [] d = tt
  remove-Distinct i ((k, u) ∷ es) d = elim (Bool-cases (k == i)) [
    | inl e ↦ rw e d.1
    | inr e ↦
        let other : k ≢ i =
          λ t. let clash : true ≡ false = sym (eq_refl k) ∙ ap (λ x. k == x) t ∙ e in cc in
        rw e (find-remove_ne i k es other ∙ d.0, remove-Distinct i es d.1)
  ]

  pub length-put :
      (i : ℕ) (v : A) (es : List (ℕ × A)) → find i es ≡ none → length (put i v es) ≡ length es + 1
  length-put i v [] h = refl
  length-put i v ((k, u) ∷ es) h = elim (Bool-cases (k == i)) [
    | inl e ↦ let hit = rw e at h in cc
    | inr e ↦ rw e (omega (arith, length-put i v es (rw e at h)))
  ]

  pub length-put_there :
      (i : ℕ) (v : A) (es : List (ℕ × A)) {w : A}
      → find i es ≡ some w
      → length (put i v es) ≡ length es
  length-put_there i v [] h = cc
  length-put_there i v ((k, u) ∷ es) h = elim (Bool-cases (k == i)) [
    | inl e ↦ rw e refl
    | inr e ↦ rw e (ap suc (length-put_there i v es (rw e at h)))
  ]

  pub length-remove :
      (i : ℕ) (es : List (ℕ × A)) {w : A}
      → find i es ≡ some w
      → length (remove i es) + 1 ≡ length es
  length-remove i [] h = cc
  length-remove i ((k, u) ∷ es) h = elim (Bool-cases (k == i)) [
    | inl e ↦ rw e (omega arith)
    | inr e ↦ rw e (omega (arith, length-remove i es (rw e at h)))
  ]

  pub last_or-put :
      (i : ℕ) (v : A) (es : List (ℕ × A)) (p : Option ℕ)
      → find i es ≡ none
      → last_or (put i v es) p ≡ some i
  last_or-put i v [] p h = refl
  last_or-put i v ((k, u) ∷ es) p h = elim (Bool-cases (k == i)) [
    | inl e ↦ let hit = rw e at h in cc
    | inr e ↦ rw e (last_or-put i v es (some k) (rw e at h))
  ]

  pub last_or-put_there :
      (i : ℕ) (v : A) (es : List (ℕ × A)) (p : Option ℕ) {w : A}
      → find i es ≡ some w
      → last_or (put i v es) p ≡ last_or es p
  last_or-put_there i v [] p h = cc
  last_or-put_there i v ((k, u) ∷ es) p h = elim (Bool-cases (k == i)) [
    | inl e ↦ rw e refl
    | inr e ↦ rw e (last_or-put_there i v es (some k) (rw e at h))
  ]

  -- The new last slot.
  pub cell-put_self :
      (i : ℕ) (v : A) (p : Option ℕ) (es : List (ℕ × A))
      → find i es ≡ none
      → cell i p (put i v es) ≡ some (record { next = none; prev = last_or es p; value = v })
  cell-put_self i v p [] h = rw (eq_refl i) refl
  cell-put_self i v p ((k, u) ∷ es) h = elim (Bool-cases (k == i)) [
    | inl e ↦ let hit = rw e at h in cc
    | inr e ↦ rw (e, e) (cell-put_self i v (some k) es (rw e at h))
  ]

  pub remove-none : (i : ℕ) (es : List (ℕ × A)) → find i es ≡ none → remove i es ≡ es
  remove-none i [] h = refl
  remove-none i ((k, u) ∷ es) h = elim (Bool-cases (k == i)) [
    | inl e ↦ let hit = rw e at h in cc
    | inr e ↦ rw e (ap (λ l. (k, u) ∷ l) (remove-none i es (rw e at h)))
  ]
