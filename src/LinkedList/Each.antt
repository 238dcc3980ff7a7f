-- ===== src/LinkedList/Each.antt =====
-- The iterator.
use gearkit.Base.{
  ℕ, zero, suc, ◌≤◌, ◌≡◌, refl, sym, ap, ◌∙◌, arith, List, [], ◌∷◌, Option, none, some, false, ◌==◌,
  length, get_elem?, eq_refl, ne_false,
}
use gearkit.Base.Run.{done, ◌>>=◌}
use gearkit.Array.{Item}
use gearkit.Array.Cells.{find, Distinct, first_or, cell}
use gearkit.LinkedList.{LinkedList, Heap, load, visit, visit_all}
use gearkit.LinkedList.Nodes.{values, Holds}

module _ {ℓ} {A : Type ℓ} where
  visit_from :
      (fuel : ℕ) (p : Option ℕ) (es : List (ℕ × A)) (heap : Heap A)
      → length es ≤ fuel
      → Distinct es
      → ((j : ℕ) (w : A) → find j es ≡ some w → get_elem? heap j ≡ some (cell j p es))
      → visit fuel (first_or es none) heap ≡ done (values es)
  unfolding visit
  visit_from fuel p [] heap le d linked = refl
  visit_from zero p ((k, u) ∷ es) heap le d linked = absurd (omega arith)
  visit_from (suc fuel) p ((k, u) ∷ es) heap le d linked =
      let first : Item A = record { next = first_or es none; prev = p; value = u } in
      let here : get_elem? heap k ≡ some (some first) =
        linked k u (rw (eq_refl k) refl) ∙ rw (eq_refl k) refl in
      let apart : (j : ℕ) (w : A) → find j es ≡ some w → (k == j) ≡ false =
        λ j w e. ne_false (λ t. let gone = ap (λ x. find x es) (sym t) ∙ d.0 in cc) in
      let next : (j : ℕ) (w : A)
          → find j es ≡ some w
          → get_elem? heap j ≡ some (cell j (some k) es) =
        λ j w e. linked j w (rw (apart j w e) e) ∙ rw (apart j w e) refl in
      rw (here, load, ◌>>=◌, visit_from fuel (some k) es heap (omega arith) d.1 next, ◌>>=◌) refl

  -- Iterating from `begin()` to `end()` reads no deleted node, and meets each value once, in order.
  visit_all-values :
      (fuel : ℕ) {l : LinkedList A} {es : List (ℕ × A)}
      → Holds l es
      → length es ≤ fuel
      → visit_all fuel l ≡ done (values es)
  unfolding visit_all
  visit_all-values fuel {l} {es} h le =
      ap (λ p. visit fuel p l.heap) h.head ∙ visit_from fuel none es l.heap le h.distinct h.linked
