-- ===== src/LinkedList/Clear.antt =====
-- `clear`.
use gearkit.Base.{
  ℕ, zero, suc, ◌≤◌, ◌<◌, ◌≡◌, refl, sym, ap, ◌∙◌, arith, List, [], ◌∷◌, Option, none, some, false,
  ◌==◌, length, get_elem?, set, Bool-cases, ==_iff, eq_refl, eq_false, ne_false, inl, inr,
  get_elem?-set_self, get_elem?-set_ne, lt_of_get_elem?,
}
use gearkit.Base.Run.{fault, Returns, ◌>>=◌}
use gearkit.Array.{Item}
use gearkit.Array.Cells.{find, Distinct, first_or, cell}
use gearkit.LinkedList.{LinkedList, Heap, load, front, pop, pop_node, delete_from, clear}
use gearkit.LinkedList.Nodes.{Holds}

module _ {ℓ} {A : Type ℓ} where
  delete_from_lem :
      (fuel : ℕ) (p : Option ℕ) (es : List (ℕ × A)) (heap : Heap A)
      → length es ≤ fuel
      → Distinct es
      → ((j : ℕ) (w : A) → find j es ≡ some w → get_elem? heap j ≡ some (cell j p es))
      → Returns (delete_from fuel (first_or es none) heap) λ heap'.
        ((j : ℕ) (w : A) → find j es ≡ some w → get_elem? heap' j ≡ some none)
        × ((j : ℕ) → find j es ≡ none → get_elem? heap' j ≡ get_elem? heap j)
  unfolding delete_from
  delete_from_lem fuel p [] heap le d linked = (heap, refl, ((λ j w e. cc), (λ j e. refl)))
  delete_from_lem zero p ((k, u) ∷ es) heap le d linked = absurd (omega arith)
  delete_from_lem (suc fuel) p ((k, u) ∷ es) heap le d linked =
      let first : Item A = record { next = first_or es none; prev = p; value = u } in
      let here : get_elem? heap k ≡ some (some first) =
        linked k u (rw (eq_refl k) refl) ∙ rw (eq_refl k) refl in
      let apart : (j : ℕ) (w : A) → find j es ≡ some w → (k == j) ≡ false =
        λ j w e. ne_false (λ t. let gone = ap (λ x. find x es) (sym t) ∙ d.0 in cc) in
      let next : (j : ℕ) (w : A)
          → find j es ≡ some w
          → get_elem? (set heap k none) j ≡ some (cell j (some k) es) =
        λ j w e.
          get_elem?-set_ne heap none (eq_false (apart j w e))
          ∙ linked j w (rw (apart j w e) e)
          ∙ rw (apart j w e) refl in
      let (heap', run, (gone, kept)) =
        delete_from_lem fuel (some k) es (set heap k none) (omega arith) d.1 next in
      (
        heap',
        rw (here, load, ◌>>=◌) run,
        (
          (λ j w e. elim (Bool-cases (k == j)) [
            | inl f ↦
                let same = (==_iff k j).0 f in
                rw (← same)
                  (kept k d.0 ∙ get_elem?-set_self heap k none (lt_of_get_elem? heap k here))
            | inr f ↦ gone j w (rw f at e)
          ]),
          (λ j e. elim (Bool-cases (k == j)) [
            | inl f ↦ let hit = rw f at e in cc
            | inr f ↦ kept j (rw f at e) ∙ get_elem?-set_ne heap none (eq_false f)
          ]),
        ),
      )

  -- `clear` comes to its end in as many rounds as there are nodes, and deletes each of them once. The
  -- list still has its head and its count: if there was a node, `front` and `pop` then read a node
  -- that is deleted.
  pub clear_dangles :
      (fuel : ℕ) {l : LinkedList A} {es : List (ℕ × A)}
      → Holds l es
      → length es ≤ fuel
      → 0 < length es
      → Returns (clear fuel l) λ l'.
        ((j : ℕ) (v : A) → find j es ≡ some v → get_elem? l'.heap j ≡ some none)
        × (l'.count ≡ length es)
        × (front l' ≡ fault)
        × (pop l' ≡ fault)
  unfolding clear front pop
  clear_dangles fuel {l} {es = []} h le some_node = absurd (omega arith)
  clear_dangles fuel {l} {es = (k, u) ∷ es} h le some_node =
      let (heap, run, (gone, _)) =
        delete_from_lem fuel none ((k, u) ∷ es) l.heap le h.distinct h.linked in
      let first : get_elem? heap k ≡ some none = gone k u (rw (eq_refl k) refl) in
      let full : (l.count == 0) ≡ false = ground (arith, h.counted) in
      (
        record l { heap = heap },
        rw (h.head, run, ◌>>=◌) refl,
        (
          gone,
          h.counted,
          rw (h.head, full, first, load, ◌>>=◌) refl,
          rw (h.head, full, pop_node, first, load, ◌>>=◌) refl,
        ),
      )
