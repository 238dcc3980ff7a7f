-- ===== src/Array/Each.antt =====
-- The iterator.
use gearkit.Base.{
  ℕ, ◌≡◌, refl, sym, ap, ap₂, ◌∙◌, arith, List, [], ◌∷◌, Option, none, some, ◌==◌, length,
  get_elem?, Bool-cases, ==_iff, eq_refl, inl, inr, ltb, ltb→lt,
}
use gearkit.Base.Run.{done, ◌>>=◌}
use gearkit.Array.{Item, Array, load, visit}
use gearkit.Array.Cells.{find, Distinct, first_or, cell}
use gearkit.Array.Ops.{Holds, occupied}

module _ {ℓ} {A : Type ℓ} where
  visit_cells :
      (arr : List (Item A)) (p : Option ℕ) (es : List (ℕ × A))
      → Distinct es
      → ((j : ℕ) (v : A) → find j es ≡ some v → get_elem? arr j ≡ cell j p es)
      → visit (length es) (first_or es none) arr ≡ done es
  unfolding visit
  visit_cells arr p [] d shows = refl
  visit_cells arr p ((k, u) ∷ es) d shows =
      let here : get_elem? arr k ≡ some (record { next = first_or es none; prev = p; value = u }) =
        shows k u (rw (eq_refl k) refl) ∙ rw (eq_refl k) refl in
      let rest = visit_cells arr (some k) es d.1 (λ j v e. elim (Bool-cases (k == j)) [
        | inl f ↦
            let gone : find j es ≡ none = ap (λ x. find x es) (sym ((==_iff k j).0 f)) ∙ d.0 in cc
        | inr f ↦ shows j v (rw f e) ∙ rw f refl
      ]) in
      rw (here, load, ◌>>=◌, rest, ◌>>=◌) refl

  -- The loop from `begin()` to `end()` comes to its end after `count` steps: it visits each entry
  -- once, with its value, in the order in which the slots were filled.
  pub visit_lem :
      {len : ℕ} {a : Array A} {es : List (ℕ × A)}
      → Holds len a es
      → visit a.count a.head a.array ≡ done es
  visit_lem {len} {a} {es} h =
      ap₂ (λ n p. visit n p a.array) h.counted h.head
      ∙ visit_cells a.array none es h.distinct (λ j v e. elim (Bool-cases (ltb j len)) [
        | inl f ↦ let (c, is, here, _, _) = occupied j h (ltb→lt j len f) e in here ∙ sym is
        | inr f ↦ let gone = h.inside j (ground arith) in cc
      ])
