-- ===== src/Array/Removed.antt =====
-- What the slots hold after an entry is taken out.
use gearkit.Base.{
  ℕ, ◌≡◌, ◌≢◌, refl, sym, ap, subst, ◌∙◌, List, [], ◌∷◌, Option, none, some, false, ◌==◌,
  if◌then◌else◌, Bool-cases, ==_iff, eq_refl, ne_false, inl, inr,
}
use gearkit.Array.{Item, is_at}
use gearkit.Array.Cells.{
  find, remove, Distinct, Apart, first_or, last_or, cell, fix_next, fix_prev, cell-none,
  is_at-first, is_at-last, Apart-tail,
}

module _ {ℓ} {A : Type ℓ} where
  -- What stands before the entries shows in the first of them only.
  pub cell-first :
      (j : ℕ) (p q : Option ℕ) (es : List (ℕ × A))
      → cell j p es ≡ fix_prev (is_at (first_or es none) j) p (cell j q es)
  cell-first j p q [] = refl
  cell-first j p q ((i, v) ∷ es) = elim (Bool-cases (i == j)) [
    | inl e ↦ rw e refl
    | inr e ↦ rw e refl
  ]

  fix_next-absent :
      (p n : Option ℕ) (j : ℕ) (es : List (ℕ × A)) (q : Option ℕ)
      → Apart p es
      → fix_next (is_at p j) n (cell j q es) ≡ cell j q es
  fix_next-absent none n j es q a = refl
  fix_next-absent (some k) n j es q a = elim (Bool-cases (k == j)) [
    | inl e ↦
        let gone : find j es ≡ none = ap (λ x. find x es) (sym ((==_iff k j).0 e)) ∙ a in
        rw (e, cell-none j q es gone) refl
    | inr e ↦ rw e refl
  ]

  abbrev pub prev_of : Option (Item A) → Option ℕ
  prev_of none = none
  prev_of (some c) = c.prev

  abbrev pub next_of : Option (Item A) → Option ℕ
  next_of none = none
  next_of (some c) = c.next

  -- A slot's neighbours are among the entries, or what stands before them.
  pub is_at-prev :
      (q i : ℕ) (p : Option ℕ) (es : List (ℕ × A))
      → find q es ≡ none
      → is_at p q ≡ false
      → is_at (prev_of (cell i p es)) q ≡ false
  is_at-prev q i p [] h out = refl
  is_at-prev q i p ((k, u) ∷ es) h out = elim (Bool-cases (k == i)) [
    | inl e ↦ rw e out
    | inr e ↦ rw e (elim (Bool-cases (k == q)) [
      | inl f ↦ let hit = rw f at h in cc
      | inr f ↦ is_at-prev q i (some k) es (rw f at h) f
    ])
  ]

  pub is_at-next :
      (q i : ℕ) (p : Option ℕ) (es : List (ℕ × A))
      → find q es ≡ none
      → is_at (next_of (cell i p es)) q ≡ false
  is_at-next q i p [] h = refl
  is_at-next q i p ((k, u) ∷ es) h = elim (Bool-cases (k == q)) [
    | inl f ↦ let hit = rw f at h in cc
    | inr f ↦
        let below = rw f at h in
        elim (Bool-cases (k == i)) [
          | inl e ↦ rw e (is_at-first q es below)
          | inr e ↦ rw e (is_at-next q i (some k) es below)
        ]
  ]

  remove-front :
      (i k : ℕ) (p : Option ℕ) (u : A) (es : List (ℕ × A))
      → find k es ≡ none
      → let c = cell i (some k) es in
        some (record { next = first_or (remove i es) none; prev = p; value = u }) ≡ (
          fix_prev (is_at (next_of c) k) (prev_of c) (
            fix_next
              (is_at (prev_of c) k)
              (next_of c)
              (some (record { next = first_or es none; prev = p; value = u }))))
  remove-front i k p u [] h = refl
  remove-front i k p u ((l, t) ∷ es) h =
      let differ : (l == k) ≡ false = is_at-first k ((l, t) ∷ es) h in
      let below : find k es ≡ none = rw differ at h in
      elim (Bool-cases (l == i)) [
        | inl e ↦ rw (e, is_at-first k es below, eq_refl k) refl
        | inr e ↦
            rw (e, is_at-next k i (some l) es below, is_at-prev k i (some l) es below differ) refl
      ]

  -- Taking an entry out links its neighbours with each other.
  pub cell-remove :
      (i j : ℕ) (p : Option ℕ) (es : List (ℕ × A))
      → j ≢ i
      → Distinct es
      → Apart p es
      → let c = cell i p es in
        cell j p (remove i es)
        ≡ fix_prev
            (is_at (next_of c) j)
            (prev_of c)
            (fix_next (is_at (prev_of c) j) (next_of c) (cell j p es))
  cell-remove i j p [] ne d a = refl
  cell-remove i j p ((k, u) ∷ es) ne d a = elim (Bool-cases (k == i)) [
    | inl e ↦
        let off : (k == j) ≡ false = ne_false (λ f. ne (sym f ∙ (==_iff k i).0 e)) in
        rw (e, off, fix_next-absent p (first_or es none) j es (some k) (Apart-tail p k u es a))
          (cell-first j p (some k) es)
    | inr e ↦ rw e (elim (Bool-cases (k == j)) [
      | inl f ↦ rw f (
          subst
            (λ x.
              let c = cell i (some k) es in
              some (record { next = first_or (remove i es) none; prev = p; value = u })
              ≡ fix_prev (is_at (next_of c) x) (prev_of c) (
                  fix_next (is_at (prev_of c) x) (next_of c)
                    (some (record { next = first_or es none; prev = p; value = u }))))
            ((==_iff k j).0 f) (remove-front i k p u es d.0))
      | inr f ↦ rw f (cell-remove i j (some k) es ne d.1 d.0)
    ])
  ]

  pub first_or-remove :
      (i : ℕ) (p : Option ℕ) (es : List (ℕ × A))
      → first_or (remove i es) none
        ≡ (if is_at (first_or es none) i then next_of (cell i p es) else first_or es none)
  first_or-remove i p [] = refl
  first_or-remove i p ((k, u) ∷ es) = elim (Bool-cases (k == i)) [
    | inl e ↦ rw e refl
    | inr e ↦ rw e refl
  ]

  pub last_or-remove :
      (i : ℕ) (p : Option ℕ) (es : List (ℕ × A))
      → Distinct es
      → last_or (remove i es) p
        ≡ (if is_at (last_or es none) i then prev_of (cell i p es) else last_or es p)
  last_or-remove i p [] d = refl
  last_or-remove i p ((k, u) ∷ []) d = elim (Bool-cases (k == i)) [
    | inl e ↦ rw e refl
    | inr e ↦ rw e refl
  ]
  last_or-remove i p ((k, u) ∷ (l, t) ∷ es) d = elim (Bool-cases (k == i)) [
    | inl e ↦
        let gone : find i ((l, t) ∷ es) ≡ none =
          ap (λ x. find x ((l, t) ∷ es)) (sym ((==_iff k i).0 e)) ∙ d.0 in
        rw (e, is_at-last i ((l, t) ∷ es) none gone refl) refl
    | inr e ↦ rw e (last_or-remove i (some k) ((l, t) ∷ es) d.1)
  ]
