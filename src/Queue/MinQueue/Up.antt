-- ===== src/Queue/MinQueue/Up.antt =====
-- `adjust`: a value at the end goes up to its place.
use mathlib.Core.List.{Perm}
use mathlib.Core.List.Perm
use gearkit.Base.{
  ℕ, zero, suc, ◌/◌, ◌≤◌, ◌<◌, ◌≡◌, inl, inr, refl, sym, ap, ◌∙◌, subst, arith, List, Bool, true,
  false, length, ltb, ltb→lt, ◌==◌, Bool-cases, ==_iff, eq_false,
}
use gearkit.Base.Run.{done, Returns, ◌>>=◌}
use gearkit.Queue.MinQueue.{adjust_down, adjust}
use gearkit.Queue.MinQueue.Slots.{at, items}
use gearkit.Queue.MinQueue.Order.{IsOrder, IsHeapBut, IsHeap}
use gearkit.Queue.MinQueue.Down.{DownInv}
use gearkit.Queue.MinQueue.Sift.{Sifted, adjust_down-Sifted}

-- The same values, as a heap.
pub record Heaped {ℓ} {A : Type ℓ} (d : A) (gt : A → A → Bool) (n : ℕ) (que r : List A)
    : Type ℓ where
  pub len : length r ≡ length que
  pub perm : Perm (items d (at d r) n) (items d (at d que) n)
  pub order : IsHeap d gt n r

module _ {ℓ} {A : Type ℓ} (d : A) (gt : A → A → Bool) (order : IsOrder gt) where
  up_ends :
      (fuel n j : ℕ) (que : List A)
      → ltb 0 (j / 2) ≡ false
      → adjust gt (suc fuel) n j que ≡ done que
  unfolding adjust
  up_ends fuel n j que top = rw (adjust, top) refl

  up_stops :
      (fuel n j : ℕ) (que : List A) (r : Bool × List A)
      → ltb 0 (j / 2) ≡ true
      → adjust_down gt n (j / 2) que ≡ done r
      → r.0 ≡ false
      → adjust gt (suc fuel) n j que ≡ done r.1
  unfolding adjust
  up_stops fuel n j que r more run stop = rw (adjust, more, run, ◌>>=◌, stop) refl

  up_goes :
      (fuel n j : ℕ) (que : List A) (r : Bool × List A)
      → ltb 0 (j / 2) ≡ true
      → adjust_down gt n (j / 2) que ≡ done r
      → r.0 ≡ true
      → adjust gt (suc fuel) n j que ≡ adjust gt fuel n (j / 2) r.1
  unfolding adjust
  up_goes fuel n j que r more run go = rw (adjust, more, run, ◌>>=◌, go) refl

  -- Where the parent did not change the value was in order under it.
  stopped_lem :
      (n j : ℕ) (que : List A) (r : Bool × List A)
      → 0 < j / 2
      → IsHeapBut d gt j n que
      → Sifted d gt (j / 2) n false que r
      → r.0 ≡ false
      → Heaped d gt n que r.1
  stopped_lem n j que r pos heap s stop =
      let same : r.1 ≡ que = (s.same stop).1 in
      record {
        len = s.len;
        perm = s.perm;
        order = λ c two le ne. elim (Bool-cases (c == j / 2)) [
          | inl is ↦
              let e = (==_iff c (j / 2)).0 is in
              subst (λ l. gt (at d l (c / 2)) (at d l c) ≡ false) (sym same)
                (heap c two le (omega (arith, e, pos)))
          | inr is_not ↦ s.order c two le (eq_false is_not)
        ];
      }

  pub adjust-Heaped :
      (fuel n j : ℕ) (que : List A)
      → j < fuel
      → 0 < j
      → j ≤ n
      → n < length que
      → IsHeapBut d gt j n que
      → Returns (adjust gt fuel n j que) (Heaped d gt n que)
  adjust-Heaped zero n j que f pos le h heap = absurd (omega (arith, f))
  adjust-Heaped (suc fuel) n j que f pos le h heap = elim (Bool-cases (ltb 0 (j / 2))) [
    | inr top ↦
        let one : j ≡ 1 = ground (arith, top, pos) in
        (
          que,
          up_ends fuel n j que top,
          record {
            len = refl;
            perm = Perm.rfl;
            order = λ c two lc ne. heap c two lc (omega (arith, one, two));
          },
        )
    | inl more ↦
        let half = ltb→lt _ _ more in
        let inv : DownInv d gt order (j / 2) n (j / 2) que = record {
          edges = λ c two lc ne nh. heap c two lc (λ z. nh (ap (λ k. k / 2) z));
          bridged = λ c two lc e ne. absurd (ne refl);
        } in
        let (r, run, s) =
          adjust_down-Sifted d gt order (j / 2) n que half h (omega (arith, le, h)) inv in
        elim (Bool-cases r.0) [
          | inr stop ↦
              (r.1, up_stops fuel n j que r more run stop, stopped_lem n j que r half heap s stop)
          | inl go ↦
              let (u, rest, t) =
                adjust-Heaped fuel n (j / 2) r.1 (omega (arith, f, pos)) half (omega (arith, le))
                  (omega (arith, h, s.len)) s.order in
              (
                u,
                up_goes fuel n j que r more run go ∙ rest,
                record { len = t.len ∙ s.len; perm = Perm.trans t.perm s.perm; order = t.order },
              )
        ]
  ]
