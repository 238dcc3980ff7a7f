-- ===== src/LinkedList/Nodes.antt =====
-- What a list holds: its nodes' addresses and values from the head on.
use gearkit.Base.{
  ℕ, ◌≡◌, refl, ap, arith, List, [], ◌∷◌, ◌++◌, none, some, ◌==◌, length, get_elem?, Bool-cases,
  inl, inr, lt_of_get_elem?, Option-cases,
}
use gearkit.Array.Cells.{find, put, Distinct, first_or, last_or, cell}
use gearkit.LinkedList.{LinkedList, Heap}

module _ {ℓ} {A : Type ℓ} where
  -- The values alone.
  abbrev pub values : List (ℕ × A) → List A
  values [] = []
  values ((i, v) ∷ es) = v ∷ values es

  -- Every node stands on the heap with the links that its place calls for.
  abbrev pub Linked : Heap A → List (ℕ × A) → Type ℓ
  Linked heap es = (j : ℕ) (v : A) → find j es ≡ some v → get_elem? heap j ≡ some (cell j none es)

  pub record Holds (l : LinkedList A) (es : List (ℕ × A)) : Type ℓ where
    pub counted : l.count ≡ length es
    pub head : l.head ≡ first_or es none
    pub tail : l.tail ≡ last_or es none
    pub distinct : Distinct es
    pub linked : Linked l.heap es

  pub values-put :
      (i : ℕ) (v : A) (es : List (ℕ × A))
      → find i es ≡ none
      → values (put i v es) ≡ values es ++ (v ∷ [])
  values-put i v [] h = refl
  values-put i v ((k, u) ∷ es) h = elim (Bool-cases (k == i)) [
    | inl e ↦ let hit = rw e at h in cc
    | inr e ↦ rw e (ap (λ l. u ∷ l) (values-put i v es (rw e at h)))
  ]

  -- The address behind the heap is new.
  pub find-fresh :
      (heap : Heap A) (es : List (ℕ × A)) → Linked heap es → find (length heap) es ≡ none
  find-fresh heap es h = elim (Option-cases (find (length heap) es)) [
    | inl e ↦ e
    | inr (v, e) ↦ absurd (omega (arith, lt_of_get_elem? heap (length heap) (h (length heap) v e)))
  ]
