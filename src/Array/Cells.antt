-- ===== src/Array/Cells.antt =====
-- What the slots hold, computed from the indices and values in the order in which they were set.
use gearkit.Base.{
  ℕ, ◌≡◌, ◌≢◌, refl, sym, ap, ◌∙◌, List, [], ◌∷◌, Option, none, some, Bool, true, false, ◌==◌, ◌&&◌,
  if◌then◌else◌, Bool-cases, ==_iff, eq_refl, ne_false, inl, inr,
}
use gearkit.Array.{Item, item_empty, is_zero, is_at}

module _ {ℓ} {A : Type ℓ} where
  abbrev pub find : ℕ → List (ℕ × A) → Option A
  find j [] = none
  find j ((i, v) ∷ es) = let rest = find j es in if i == j then some v else rest

  abbrev pub put : ℕ → A → List (ℕ × A) → List (ℕ × A)
  put i v [] = (i, v) ∷ []
  put i v ((k, w) ∷ es) = let rest = put i v es in if k == i then (k, v) ∷ es else (k, w) ∷ rest

  abbrev pub remove : ℕ → List (ℕ × A) → List (ℕ × A)
  remove i [] = []
  remove i ((k, w) ∷ es) = let rest = remove i es in if k == i then es else (k, w) ∷ rest

  abbrev pub Distinct : List (ℕ × A) → Type ℓ
  Distinct [] = Unit {ℓ}
  Distinct ((i, v) ∷ es) = (find i es ≡ none) × Distinct es

  abbrev pub first_or : List (ℕ × A) → Option ℕ → Option ℕ
  first_or [] n = n
  first_or ((i, v) ∷ es) n = some i

  abbrev pub last_or : List (ℕ × A) → Option ℕ → Option ℕ
  last_or [] p = p
  last_or ((i, v) ∷ es) p = last_or es (some i)

  -- The slot `j`, if `p` stands before the entries: `none` where `j` is not one of them.
  abbrev pub cell : ℕ → Option ℕ → List (ℕ × A) → Option (Item A)
  cell j p [] = none
  cell j p ((i, v) ∷ es) =
      let rest = cell j (some i) es in
      if i == j then some (record { next = first_or es none; prev = p; value = v }) else rest

  -- Nothing stands before the entries, or an index that is not one of them.
  abbrev pub Apart : Option ℕ → List (ℕ × A) → Type ℓ
  Apart none es = Unit {ℓ}
  Apart (some k) es = find k es ≡ none

  abbrev pub fix_next : Bool → Option ℕ → Option (Item A) → Option (Item A)
  fix_next false n c = c
  fix_next true n none = none
  fix_next true n (some c) = some (record c { next = n })

  abbrev pub fix_prev : Bool → Option ℕ → Option (Item A) → Option (Item A)
  fix_prev false p c = c
  fix_prev true p none = none
  fix_prev true p (some c) = some (record c { prev = p })

  abbrev pub fix_value : Bool → A → Option (Item A) → Option (Item A)
  fix_value false v c = c
  fix_value true v none = none
  fix_value true v (some c) = some (record c { value = v })

  pub cell-none : (j : ℕ) (p : Option ℕ) (es : List (ℕ × A)) → find j es ≡ none → cell j p es ≡ none
  cell-none j p [] h = refl
  cell-none j p ((i, v) ∷ es) h = elim (Bool-cases (i == j)) [
    | inl e ↦ let hit = rw e at h in cc
    | inr e ↦ rw e (cell-none j (some i) es (rw e at h))
  ]

  pub cell-some :
      (j : ℕ) (p : Option ℕ) (es : List (ℕ × A)) {v : A}
      → find j es ≡ some v
      → (c : Item A) × (cell j p es ≡ some c) × (some c.value ≡ some v)
  cell-some j p [] h = cc
  cell-some j p ((i, v) ∷ es) h = elim (Bool-cases (i == j)) [
    | inl e ↦ rw e (_, refl, rw e at h)
    | inr e ↦ rw e (cell-some j (some i) es (rw e at h))
  ]

  -- The first and the last of the entries are among them.
  pub is_at-first :
      (q : ℕ) (es : List (ℕ × A)) → find q es ≡ none → is_at (first_or es none) q ≡ false
  is_at-first q [] h = refl
  is_at-first q ((i, v) ∷ es) h = elim (Bool-cases (i == q)) [
    | inl e ↦ let hit = rw e at h in cc
    | inr e ↦ e
  ]

  pub is_at-last :
      (q : ℕ) (es : List (ℕ × A)) (p : Option ℕ)
      → find q es ≡ none
      → is_at p q ≡ false
      → is_at (last_or es p) q ≡ false
  is_at-last q [] p h out = out
  is_at-last q ((i, v) ∷ es) p h out = elim (Bool-cases (i == q)) [
    | inl e ↦ let hit = rw e at h in cc
    | inr e ↦ is_at-last q es (some i) (rw e at h) e
  ]

  both_zero :
      (p : Option ℕ) (es : List (ℕ × A))
      → Apart p es
      → (is_zero (first_or es none) && is_zero p) ≡ false
  both_zero p [] h = refl
  both_zero none ((i, v) ∷ es) h = elim (Bool-cases (i == 0)) [
    | inl e ↦ rw e refl
    | inr e ↦ rw e refl
  ]
  both_zero (some k) ((i, v) ∷ es) h = elim (Bool-cases (i == 0)) [
    | inl e ↦ elim (Bool-cases (k == 0)) [
      | inl f ↦
          let same : i ≡ k = (==_iff i 0).0 e ∙ sym ((==_iff k 0).0 f) in
          let hit = rw (same, eq_refl k) at h in cc
      | inr f ↦ rw (e, f) refl
    ]
    | inr e ↦ rw e refl
  ]

  pub Apart-tail :
      (p : Option ℕ) (i : ℕ) (v : A) (es : List (ℕ × A)) → Apart p ((i, v) ∷ es) → Apart p es
  Apart-tail none i v es a = tt
  Apart-tail (some k) i v es a = elim (Bool-cases (i == k)) [
    | inl e ↦ let hit = rw e at a in cc
    | inr e ↦ rw e at a
  ]

  abbrev looks_empty : Option (Item A) → Bool
  looks_empty none = false
  looks_empty (some c) = item_empty c

  -- A slot that is one of the entries does not look empty: its neighbours are not both 0.
  pub item_empty-cell :
      (j : ℕ) (p : Option ℕ) (es : List (ℕ × A)) {c : Item A}
      → Distinct es
      → Apart p es
      → cell j p es ≡ some c
      → item_empty c ≡ false
  item_empty-cell j p [] d a h = cc
  item_empty-cell j p ((i, v) ∷ es) {c} d a h = elim (Bool-cases (i == j)) [
    | inl e ↦ sym (ap looks_empty (rw e at h)) ∙ both_zero p es (Apart-tail p i v es a)
    | inr e ↦ item_empty-cell j (some i) es d.1 d.0 (rw e at h)
  ]

  pub first_or-put_cons :
      (i : ℕ) (v : A) (k : ℕ) (u : A) (es : List (ℕ × A))
      → first_or (put i v ((k, u) ∷ es)) none ≡ some k
  first_or-put_cons i v k u es = elim (Bool-cases (k == i)) [
    | inl e ↦ rw e refl
    | inr e ↦ rw e refl
  ]

  pub first_or-put :
      (i : ℕ) (v : A) (es : List (ℕ × A)) {w : A}
      → find i es ≡ some w
      → first_or (put i v es) none ≡ first_or es none
  first_or-put i v [] h = cc
  first_or-put i v ((k, u) ∷ es) h = first_or-put_cons i v k u es

  -- Setting the value of an entry.
  pub cell-put :
      (i j : ℕ) (v : A) (p : Option ℕ) (es : List (ℕ × A)) {w : A}
      → find i es ≡ some w
      → cell j p (put i v es) ≡ fix_value (i == j) v (cell j p es)
  cell-put i j v p [] h = cc
  cell-put i j v p ((k, u) ∷ es) h = elim (Bool-cases (k == i)) [
    | inl e ↦
        let same = (==_iff k i).0 e in
        rw (e, ← same) (elim (Bool-cases (k == j)) [ inl f ↦ rw f refl | inr f ↦ rw f refl ])
    | inr e ↦
        let there = rw e at h in
        let ih = cell-put i j v (some k) es there in
        rw e (elim (Bool-cases (k == j)) [
          | inl f ↦
              let other : (i == j) ≡ false =
                ne_false
                  (λ t. let clash : true ≡ false = sym f ∙ ap (λ x. k == x) (sym t) ∙ e in cc) in
              rw (f, other, first_or-put i v es there) refl
          | inr f ↦ rw f ih
        ])
  ]

  -- Adding an entry at the end.
  pub cell-append :
      (i j : ℕ) (v : A) (p : Option ℕ) (es : List (ℕ × A))
      → find i es ≡ none
      → Distinct es
      → j ≢ i
      → cell j p (put i v es) ≡ fix_next (is_at (last_or es none) j) (some i) (cell j p es)
  cell-append i j v p [] h d ne = rw (ne_false (λ e. ne (sym e))) refl
  cell-append i j v p ((k, u) ∷ []) h d ne = elim (Bool-cases (k == i)) [
    | inl e ↦ let hit = rw e at h in cc
    | inr e ↦
        rw (e, ne_false (λ f. ne (sym f)))
          (elim (Bool-cases (k == j)) [ inl f ↦ rw f refl | inr f ↦ rw f refl ])
  ]
  cell-append i j v p ((k, u) ∷ (l, t) ∷ es) h d ne = elim (Bool-cases (k == i)) [
    | inl e ↦ let hit = rw e at h in cc
    | inr e ↦
        let ih = cell-append i j v (some k) ((l, t) ∷ es) (rw e at h) d.1 ne in
        rw e (elim (Bool-cases (k == j)) [
          | inl f ↦
              let last : is_at (last_or es (some l)) j ≡ false =
                ap (λ x. is_at (last_or es (some l)) x) (sym ((==_iff k j).0 f))
                ∙ is_at-last k ((l, t) ∷ es) none d.0 refl in
              rw (f, last, first_or-put_cons i v l t es) refl
          | inr f ↦ rw f ih
        ])
  ]
