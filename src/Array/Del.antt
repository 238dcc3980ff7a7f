-- ===== src/Array/Del.antt =====
-- `del`.
use gearkit.Base.{
  ℕ, ◌-◌, ◌<◌, ◌≡◌, ◌≢◌, refl, sym, ap, subst, ◌∙◌, arith, List, Option, none, some, Bool, true,
  false, ◌==◌, if◌then◌else◌, length, get_elem?, Bool-cases, Option-cases, ==_iff, eq_false, inl,
  inr, length-set, get_elem?-set_self, get_elem?-set_ne, get_elem?-lt,
}
use gearkit.Base.{set as set_at}
use gearkit.Base.Run.{Returns, ◌>>=◌}
use gearkit.Array.{Item, Array, is_at, empty_item, load, set_prev, unlink, del}
use gearkit.Array.Cells.{find, remove, first_or, last_or, cell, fix_next, fix_prev, cell-none}
use gearkit.Array.Entries.{
  find-remove_ne, find-remove_self, remove-Distinct, length-remove, remove-none,
}
use gearkit.Array.Removed.{
  prev_of, next_of, is_at-prev, is_at-next, cell-remove, first_or-remove, last_or-remove,
}
use gearkit.Array.Ops.{Shows, Holds, Within, Within-lt, set_next_lem, vacant, occupied}

module _ {ℓ} {A : Type ℓ} where
  set_prev_lem :
      (p n : Option ℕ) (arr : List (Item A))
      → Within (length arr) p
      → Returns (set_prev p n arr) λ arr'.
        (length arr' ≡ length arr)
        × ((j : ℕ) → get_elem? arr' j ≡ fix_prev (is_at p j) n (get_elem? arr j))
  unfolding set_prev
  set_prev_lem none n arr h = (arr, refl, (refl, λ j. refl))
  set_prev_lem (some k) n arr h =
      let (item, e) = get_elem?-lt arr k (Within-lt h) in
      let item' : Item A = record item { prev = n } in
      (
        set_at arr k item',
        rw (e, load, ◌>>=◌) refl,
        (
          length-set arr k item',
          λ j. elim (Bool-cases (k == j)) [
            | inl f ↦
                let same = (==_iff k j).0 f in
                rw (f, ← same, e) (get_elem?-set_self arr k item' (Within-lt h))
            | inr f ↦ rw f (get_elem?-set_ne arr item' (eq_false f))
          ],
        ),
      )

  Shows-fix_both :
      (b b' : Bool) (n p : Option ℕ) (c : Item A)
      → Shows (fix_prev b' p (fix_next b n (some c))) (fix_prev b' p (fix_next b n (some c)))
  Shows-fix_both true true n p c = refl
  Shows-fix_both true false n p c = refl
  Shows-fix_both false true n p c = refl
  Shows-fix_both false false n p c = refl

  -- The slots after both links are written.
  unlinked-Shows :
      {len : ℕ} {a : Array A} {es : List (ℕ × A)} (i j : ℕ) {c : Item A}
      → Holds len a es
      → j < len
      → j ≢ i
      → cell i none es ≡ some c
      → Shows (cell j none (remove i es)) (
          fix_prev (is_at c.next j) c.prev (fix_next (is_at c.prev j) c.next (get_elem? a.array j)))
  unlinked-Shows {a = a} {es = es} i j {c} h lt ne is =
      let linked =
        cell-remove i j none es ne h.distinct tt
        ∙ ap
            (λ x.
              fix_prev (is_at (next_of x) j) (prev_of x)
                (fix_next (is_at (prev_of x) j) (next_of x) (cell j none es)))
            is in
      rw linked (elim (Option-cases (find j es)) [
        | inl g ↦
            let before : is_at c.prev j ≡ false =
              ap (λ x. is_at (prev_of x) j) (sym is) ∙ is_at-prev j i none es g refl in
            let after : is_at c.next j ≡ false =
              ap (λ x. is_at (next_of x) j) (sym is) ∙ is_at-next j i none es g in
            rw (before, after, cell-none j none es g) (vacant j h lt g)
        | inr (u, g) ↦
            let (d, at, place, _, _) = occupied j h lt g in
            rw (at, place) (Shows-fix_both _ _ _ _ d)
      ])

  unlink-Holds :
      {len : ℕ} {a : Array A} {es : List (ℕ × A)} (i : ℕ) {c : Item A} {v : A}
      → Holds len a es
      → i < len
      → find i es ≡ some v
      → cell i none es ≡ some c
      → Returns (unlink i c.next c.prev a) (λ a'. Holds len a' (remove i es))
  unfolding unlink
  unlink-Holds {len} {a} {es} i {c} h lt e is =
      let before : (q : ℕ) → find q es ≡ none → is_at c.prev q ≡ false =
        λ q out. ap (λ x. is_at (prev_of x) q) (sym is) ∙ is_at-prev q i none es out refl in
      let after : (q : ℕ) → find q es ≡ none → is_at c.next q ≡ false =
        λ q out. ap (λ x. is_at (next_of x) q) (sym is) ∙ is_at-next q i none es out in
      let (arr, run, (kept, shows)) =
        set_next_lem c.prev c.next a.array
          (λ q le. before q (h.inside q (omega (arith, h.size)))) in
      let (arr', run', (kept', shows')) =
        set_prev_lem c.next c.prev arr
          (λ q le. after q (h.inside q (omega (arith, h.size, kept)))) in
      let long : length arr' ≡ len = kept' ∙ kept ∙ h.size in
      let (item, here) = get_elem?-lt arr' i (omega (arith, long)) in
      (
        record {
          count = a.count - 1;
          head = if is_at a.head i then c.next else a.head;
          tail = if is_at a.tail i then c.prev else a.tail;
          array = set_at arr' i (empty_item item);
        },
        rw (run, ◌>>=◌, run', ◌>>=◌, here, load, ◌>>=◌) refl,
        record {
          size = length-set arr' i (empty_item item) ∙ long;
          counted = omega (arith, h.counted, length-remove i es e);
          head =
              ap (λ t. if is_at t i then c.next else t) h.head
              ∙ sym (
                  first_or-remove i none es
                  ∙ ap (λ x. if is_at (first_or es none) i then next_of x else first_or es none)
                      is);
          tail =
              ap (λ t. if is_at t i then c.prev else t) h.tail
              ∙ sym (
                  last_or-remove i none es h.distinct
                  ∙ ap (λ x. if is_at (last_or es none) i then prev_of x else last_or es none) is);
          distinct = remove-Distinct i es h.distinct;
          inside = λ j out. find-remove_ne i j es (λ t. omega (arith, t)) ∙ h.inside j out;
          slots = λ j ltj. elim (Bool-cases (i == j)) [
            | inl f ↦
                let same = (==_iff i j).0 f in
                rw (← same, cell-none i none (remove i es) (find-remove_self i es h.distinct))
                  (_, get_elem?-set_self arr' i _ (omega (arith, long)), refl)
            | inr f ↦
                rw (get_elem?-set_ne arr' (empty_item item) (eq_false f), shows' j, shows j)
                  (unlinked-Shows i j h ltj (λ t. eq_false f (sym t)) is)
          ];
        },
      )

  -- In a slot of the array, `del` stays inside the array, takes the slot's entry out if there is one,
  -- and keeps the others in the order in which their slots were filled.
  pub del_refines :
      {len : ℕ} {a : Array A} {es : List (ℕ × A)} (i : ℕ)
      → Holds len a es
      → i < len
      → Returns (del i a) (λ a'. Holds len a' (remove i es))
  unfolding del
  del_refines {len} {a} {es} i h lt = elim (Option-cases (find i es)) [
    | inl e ↦
        let (item, here, looks) = vacant i h lt e in
        rw (here, load, ◌>>=◌, looks) (a, refl, subst (Holds len a) (sym (remove-none i es e)) h)
    | inr (w, e) ↦
        let (c, is, here, looks, _) = occupied i h lt e in
        rw (here, load, ◌>>=◌, looks) (unlink-Holds i h lt e is)
  ]
