-- ===== src/Array/Set.antt =====
-- `set` and `clear`.
use gearkit.Base.{
  ℕ, zero, suc, ◌+◌, ◌<◌, ◌≡◌, refl, sym, ap, ◌∙◌, arith, List, [], ◌∷◌, Option, none, some, Bool,
  true, false, ◌==◌, length, get_elem?, replicate, Bool-cases, Option-cases, ==_iff, ne_false,
  eq_false, inl, inr, length-set, get_elem?-set_self, get_elem?-set_ne, length-replicate,
}
use gearkit.Base.{set as set_at}
use gearkit.Base.Run.{Returns, ◌>>=◌}
use gearkit.Array.{Item, Array, is_at, load, clear, or_index, append, set}
use gearkit.Array.Cells.{
  find, put, first_or, cell, fix_next, cell-none, cell-put, cell-append, is_at-last, first_or-put,
  first_or-put_cons, first_or-put_cons,
}
use gearkit.Array.Entries.{
  find-put, put-Distinct, length-put, length-put_there, last_or-put, last_or-put_there,
  cell-put_self,
}
use gearkit.Array.Ops.{Shows, Holds, set_next_lem, vacant, occupied}

module _ {ℓ} {A : Type ℓ} where
  set_value-Holds :
      {len : ℕ} {a : Array A} {es : List (ℕ × A)} (i : ℕ) (v : A) {c : Item A} {w : A}
      → Holds len a es
      → i < len
      → find i es ≡ some w
      → cell i none es ≡ some c
      → Holds len (record a { array = set_at a.array i (record c { value = v }) }) (put i v es)
  set_value-Holds {a = a} {es = es} i v {c} h lt e is = record {
    size = length-set a.array i _ ∙ h.size;
    counted = h.counted ∙ sym (length-put_there i v es e);
    head = h.head ∙ sym (first_or-put i v es e);
    tail = h.tail ∙ sym (last_or-put_there i v es none e);
    distinct = put-Distinct i v es h.distinct;
    inside = λ j out.
        find-put i j v es ∙ rw (ne_false {a = i} {b = j} (λ t. omega (arith, t))) (h.inside j out);
    slots = λ j ltj. rw (cell-put i j v none es e) (elim (Bool-cases (i == j)) [
      | inl f ↦
          let same = (==_iff i j).0 f in
          rw (f, ← same, is) (get_elem?-set_self a.array i _ (omega (arith, h.size)))
      | inr f ↦
          rw (f, get_elem?-set_ne a.array (record c { value = v }) (eq_false f)) (h.slots j ltj)
    ]);
  }

  pub Shows-fix_next :
      (b : Bool) (n : Option ℕ) (c : Item A) → Shows (fix_next b n (some c)) (fix_next b n (some c))
  Shows-fix_next true n c = refl
  Shows-fix_next false n c = refl

  pub or_index-first :
      (i : ℕ) (v : A) (es : List (ℕ × A))
      → or_index (first_or es none) i ≡ first_or (put i v es) none
  or_index-first i v [] = refl
  or_index-first i v ((k, u) ∷ es) = sym (first_or-put_cons i v k u es)

  append-Holds :
      {len : ℕ} {a : Array A} {es : List (ℕ × A)} (i : ℕ) (v : A)
      → Holds len a es
      → i < len
      → find i es ≡ none
      → Returns (append i v a) (λ a'. Holds len a' (put i v es))
  unfolding append
  append-Holds {len} {a} {es} i v h lt e =
      let new : Item A = record { next = none; prev = a.tail; value = v } in
      let arr = set_at a.array i new in
      let long : length arr ≡ len = length-set a.array i new ∙ h.size in
      let off : (q : ℕ) → find q es ≡ none → is_at a.tail q ≡ false =
        λ q out. ap (λ t. is_at t q) h.tail ∙ is_at-last q es none out refl in
      let (arr', run, (kept, shows)) =
        set_next_lem a.tail (some i) arr (λ q le. off q (h.inside q (omega (arith, long)))) in
      (
        record { count = a.count + 1; head = or_index a.head i; tail = some i; array = arr' },
        rw (run, ◌>>=◌) refl,
        record {
          size = kept ∙ long;
          counted = omega (arith, h.counted, length-put i v es e);
          head = ap (λ t. or_index t i) h.head ∙ or_index-first i v es;
          tail = sym (last_or-put i v es none e);
          distinct = put-Distinct i v es h.distinct;
          inside = λ j out.
              find-put i j v es
              ∙ rw (ne_false {a = i} {b = j} (λ t. omega (arith, t))) (h.inside j out);
          slots = λ j ltj. rw (shows j) (elim (Bool-cases (i == j)) [
            | inl f ↦
                let same = (==_iff i j).0 f in
                rw
                  (
                    ← same,
                    cell-put_self i v none es e,
                    off i e,
                    get_elem?-set_self a.array i new (omega (arith, h.size)),
                  )
                  (ap (λ t. some (record { next = none; prev = t; value = v })) h.tail)
            | inr f ↦
                rw
                  (
                    cell-append i j v none es e h.distinct (λ t. eq_false f (sym t)),
                    get_elem?-set_ne a.array new (eq_false f),
                    h.tail,
                  )
                  (elim (Option-cases (find j es)) [
                    | inl g ↦
                        rw (is_at-last j es none g refl, cell-none j none es g) (vacant j h ltj g)
                    | inr (u, g) ↦
                        let (c, is, here, _, _) = occupied j h ltj g in
                        rw (is, here) (Shows-fix_next _ _ c)
                  ])
          ]);
        },
      )

  -- In a slot of the array, `set` stays inside the array, and it keeps the entries in the order in
  -- which their slots were filled: a slot that is filled gets the new value at its place in that
  -- order, and an empty one comes last.
  pub set_refines :
      {len : ℕ} {a : Array A} {es : List (ℕ × A)} (i : ℕ) (v : A)
      → Holds len a es
      → i < len
      → Returns (set i v a) (λ a'. Holds len a' (put i v es))
  unfolding set
  set_refines {es = es} i v h lt = elim (Option-cases (find i es)) [
    | inl e ↦
        let (item, here, looks) = vacant i h lt e in
        rw (here, load, ◌>>=◌, looks) (append-Holds i v h lt e)
    | inr (w, e) ↦
        let (c, is, here, looks, _) = occupied i h lt e in
        rw (here, load, ◌>>=◌, looks) (_, refl, set_value-Holds i v h lt e is)
  ]

  get_elem?-replicate : (n j : ℕ) (x : Item A) → j < n → get_elem? (replicate n x) j ≡ some x
  get_elem?-replicate zero j x h = elim h [ ]
  get_elem?-replicate (suc n) zero x h = refl
  get_elem?-replicate (suc n) (suc j) x h = get_elem?-replicate n j x (omega arith)

  -- `clear` leaves no entry, whatever the array held.
  pub clear-Holds : (len : ℕ) (blank : A) (a : Array A) → Holds len (clear len blank a) []
  unfolding clear
  clear-Holds len blank a = record {
    size = length-replicate {A = Item A} len _;
    counted = refl;
    head = refl;
    tail = refl;
    distinct = tt;
    inside = λ j out. refl;
    slots = λ j lt. (_, get_elem?-replicate len j _ lt, refl);
  }
