-- ===== src/LinkedList/Refine.antt =====
-- `push`, `pop` and `front` against the list of values, oldest first.
use gearkit.Base.{
  ◌<◌, ◌^◌, lt→ltb, ℕ, suc, ◌+◌, ◌-◌, ◌≡◌, refl, sym, ap, ap₂, ◌∙◌, arith, List, [], ◌∷◌, ◌++◌,
  Option, none, some, true, false, ◌==◌, length, get_elem?, set, Bool-cases, ==_iff, eq_refl,
  eq_false, ne_false, inl, inr, get_elem?-set_self, get_elem?-set_ne, get_elem?-append_left,
  get_elem?-append_last, lt_of_get_elem?, Option-cases,
}
use gearkit.Base.Run.{done, Returns, ◌>>=◌}
use gearkit.Array.{Item, or_index, is_at}
use gearkit.Array.Cells.{
  find, put, first_or, last_or, cell, fix_next, fix_prev, cell-some, cell-append, is_at-last,
  is_at-first,
}
use gearkit.Array.Entries.{find-put, put-Distinct, length-put, last_or-put, cell-put_self}
use gearkit.Array.Removed.{cell-first}
use gearkit.Array.Set.{or_index-first}
use gearkit.Queue.Fifo
use gearkit.LinkedList.{
  LinkedList, Heap, count_up, load, new, front, cut_prev, tail_after, pop_node, pop, link_tail,
  push,
}
use gearkit.LinkedList.Nodes.{values, Linked, Holds, values-put, find-fresh}

pub count_up_lem : (n : ℕ) → suc n < 2 ^ 31 → count_up n ≡ done (n + 1)
unfolding count_up
count_up_lem n h = rw (lt→ltb _ _ h) refl

module _ {ℓ} {A : Type ℓ} where
  pub new-Holds : (heap : Heap A) → Holds (new heap) []
  unfolding new
  new-Holds heap = record {
    counted = refl;
    head = refl;
    tail = refl;
    distinct = tt;
    linked = λ j v e. cc;
  }

  -- Where a node stands on the heap.
  node :
      (heap : Heap A) (es : List (ℕ × A)) (j : ℕ) {v : A}
      → Linked heap es
      → find j es ≡ some v
      → (c : Item A) × (cell j none es ≡ some c)
        × (get_elem? heap j ≡ some (some c))
        × (some c.value ≡ some v)
  node heap es j h e =
      let (c, is, value) = cell-some j none es e in (c, is, h j _ e ∙ ap some is, value)

  abbrev relink : ℕ → Option (Option (Item A)) → Option (Option (Item A))
  relink n none = none
  relink n (some c) = some (fix_next true (some n) c)

  link_tail_lem :
      (p : Option ℕ) (n : ℕ) (heap : Heap A)
      → ((q : ℕ) → is_at p q ≡ true → (c : Item A) × (get_elem? heap q ≡ some (some c)))
      → Returns (link_tail p n heap) λ heap'.
        (j : ℕ) (c : Item A)
        → get_elem? heap j ≡ some (some c)
        → get_elem? heap' j ≡ some (fix_next (is_at p j) (some n) (some c))
  unfolding link_tail
  link_tail_lem none n heap there = (heap, refl, λ j c e. e)
  link_tail_lem (some t) n heap there =
      let (item, here) = there t (eq_refl t) in
      let item' : Item A = record item { next = some n } in
      (
        set heap t (some item'),
        rw (here, load, ◌>>=◌) refl,
        λ j c e. elim (Bool-cases (t == j)) [
          | inl f ↦
              let same = (==_iff t j).0 f in
              let this : some (some item) ≡ some (some c) =
                sym here ∙ ap (get_elem? heap) same ∙ e in
              rw (f, ← same)
                (get_elem?-set_self heap t _ (lt_of_get_elem? heap t here) ∙ ap (relink n) this)
          | inr f ↦ rw f (get_elem?-set_ne heap (some item') (eq_false f) ∙ e)
        ],
      )

  push_nodes :
      {l : LinkedList A} {es : List (ℕ × A)} (v : A)
      → Holds l es
      → suc l.count < 2 ^ 31
      → Returns (push v l) (λ l'. Holds l' (put (length l.heap) v es))
  unfolding push
  push_nodes {l} {es} v h few =
      let p = length l.heap in
      let new : Item A = record { next = none; prev = l.tail; value = v } in
      let heap = l.heap ++ (some new ∷ []) in
      let fresh : find p es ≡ none = find-fresh l.heap es h.linked in
      let off : is_at l.tail p ≡ false =
        ap (λ t. is_at t p) h.tail ∙ is_at-last p es none fresh refl in
      let old : (j : ℕ) (w : A) → find j es ≡ some w → get_elem? heap j ≡ some (cell j none es) =
        λ j w e.
          get_elem?-append_left l.heap (some new ∷ []) j (lt_of_get_elem? l.heap j (h.linked j w e))
          ∙ h.linked j w e in
      let there : (q : ℕ)
          → is_at l.tail q ≡ true
          → (c : Item A) × (get_elem? heap q ≡ some (some c)) =
        λ q at. elim (Option-cases (find q es)) [
          | inl e ↦
              let out : is_at l.tail q ≡ false =
                ap (λ t. is_at t q) h.tail ∙ is_at-last q es none e refl in
              cc
          | inr (w, e) ↦ let (c, _, here, _) = node heap es q old e in (c, here)
        ] in
      let (heap', run, linked) = link_tail_lem l.tail p heap there in
      (
        record { head = or_index l.head p; tail = some p; count = l.count + 1; heap = heap' },
        rw (run, ◌>>=◌, count_up_lem l.count few, ◌>>=◌) refl,
        record {
          counted = omega (arith, h.counted, length-put p v es fresh);
          head = ap (λ t. or_index t p) h.head ∙ or_index-first p v es;
          tail = sym (last_or-put p v es none fresh);
          distinct = put-Distinct p v es h.distinct;
          linked = λ j w e. elim (Bool-cases (p == j)) [
            | inl f ↦
                let same = (==_iff p j).0 f in
                rw (← same) (
                  linked p new (get_elem?-append_last l.heap (some new))
                  ∙ ap (λ b. some (fix_next b (some p) (some new))) off
                  ∙ ap (λ t. some (some (record { next = none; prev = t; value = v }))) h.tail
                  ∙ ap some (sym (cell-put_self p v none es fresh)))
            | inr f ↦
                let before : find j es ≡ some w = rw f at (sym (find-put p j v es) ∙ e) in
                let (c, is, here, _) = node heap es j old before in
                linked j c here
                ∙ ap some (
                    ap₂ (λ b x. fix_next b (some p) x) (ap (λ t. is_at t j) h.tail) (sym is)
                    ∙ sym (cell-append p j v none es fresh h.distinct (λ t. eq_false f (sym t))))
          ];
        },
      )

  abbrev uncut : Option (Option (Item A)) → Option (Option (Item A))
  uncut none = none
  uncut (some c) = some (fix_prev true none c)

  cut_prev_lem :
      (p : Option ℕ) (heap : Heap A)
      → ((q : ℕ) → is_at p q ≡ true → (c : Item A) × (get_elem? heap q ≡ some (some c)))
      → Returns (cut_prev p heap) λ heap'.
        (j : ℕ) (c : Item A)
        → get_elem? heap j ≡ some (some c)
        → get_elem? heap' j ≡ some (fix_prev (is_at p j) none (some c))
  unfolding cut_prev
  cut_prev_lem none heap there = (heap, refl, λ j c e. e)
  cut_prev_lem (some t) heap there =
      let (item, here) = there t (eq_refl t) in
      let item' : Item A = record item { prev = none } in
      (
        set heap t (some item'),
        rw (here, load, ◌>>=◌) refl,
        λ j c e. elim (Bool-cases (t == j)) [
          | inl f ↦
              let same = (==_iff t j).0 f in
              let this : some (some item) ≡ some (some c) =
                sym here ∙ ap (get_elem? heap) same ∙ e in
              rw (f, ← same)
                (get_elem?-set_self heap t _ (lt_of_get_elem? heap t here) ∙ ap uncut this)
          | inr f ↦ rw f (get_elem?-set_ne heap (some item') (eq_false f) ∙ e)
        ],
      )

  tail_after-first :
      (k : ℕ) (u : A) (es : List (ℕ × A))
      → tail_after (first_or es none) (last_or ((k, u) ∷ es) none) ≡ last_or es none
  tail_after-first k u [] = refl
  tail_after-first k u ((i, v) ∷ es) = refl

  pop_nodes :
      {l : LinkedList A} (k : ℕ) (u : A) (es : List (ℕ × A))
      → Holds l ((k, u) ∷ es)
      → Returns (pop l) λ r. (r.0 ≡ true) × (r.1 ≡ some u) × Holds r.2 es
  unfolding pop
  pop_nodes {l} k u es h =
      let first : Item A = record { next = first_or es none; prev = none; value = u } in
      let here : get_elem? l.heap k ≡ some (some first) =
        h.linked k u (rw (eq_refl k) refl) ∙ rw (eq_refl k) refl in
      let full : (l.count == 0) ≡ false = ground (arith, h.counted) in
      let apart : (j : ℕ) (w : A) → find j es ≡ some w → (k == j) ≡ false =
        λ j w e. ne_false (λ t. let gone = ap (λ x. find x es) (sym t) ∙ h.distinct.0 in cc) in
      let old : (j : ℕ) (w : A)
          → find j es ≡ some w
          → get_elem? l.heap j ≡ some (cell j (some k) es) =
        λ j w e. h.linked j w (rw (apart j w e) e) ∙ rw (apart j w e) refl in
      let there : (q : ℕ)
          → is_at (first_or es none) q ≡ true
          → (c : Item A) × (get_elem? l.heap q ≡ some (some c)) =
        λ q at. elim (Option-cases (find q es)) [
          | inl e ↦ let out = is_at-first q es e in cc
          | inr (w, e) ↦ let (c, is, _) = cell-some q (some k) es e in (c, old q w e ∙ ap some is)
        ] in
      let (heap, run, cut) = cut_prev_lem (first_or es none) l.heap there in
      (
        (
          true,
          some u,
          record {
            head = first_or es none;
            tail = tail_after (first_or es none) l.tail;
            count = l.count - 1;
            heap = set heap k none;
          },
        ),
        rw (h.head, full, pop_node, here, load, ◌>>=◌, run) refl,
        (
          refl,
          refl,
          record {
            counted = omega (arith, h.counted);
            head = refl;
            tail = ap (tail_after (first_or es none)) h.tail ∙ tail_after-first k u es;
            distinct = h.distinct.1;
            linked = λ j w e.
                let (c, is, _) = cell-some j (some k) es e in
                get_elem?-set_ne heap none (eq_false (apart j w e))
                ∙ cut j c (old j w e ∙ ap some is)
                ∙ ap some (
                    ap (fix_prev (is_at (first_or es none) j) none) (sym is)
                    ∙ sym (cell-first j none (some k) es));
          },
        ),
      )

  -- The list stands for its values, in order.
  pub Represents : LinkedList A → List A → Type ℓ
  Represents l xs = (es : List (ℕ × A)) × Holds l es × (values es ≡ xs)

  pub new_represents : (heap : Heap A) → Represents (new heap) []
  unfolding Represents
  new_represents heap = ([], new-Holds heap, refl)

  length-values : (es : List (ℕ × A)) → length (values es) ≡ length es
  length-values [] = refl
  length-values ((i, v) ∷ es) = ap suc (length-values es)

  -- The count is the number of values.
  pub count-length : (l : LinkedList A) (xs : List A) → Represents l xs → l.count ≡ length xs
  unfolding Represents
  count-length l xs (es, h, e) = h.counted ∙ sym (length-values es) ∙ ap length e

  -- `push` puts the value behind the others, of which there are so few that an `int` counts them.
  pub push_refines :
      (l : LinkedList A) (xs : List A) (v : A)
      → Represents l xs
      → suc (length xs) < 2 ^ 31
      → Returns (push v l) (λ l'. Represents l' (xs ++ (v ∷ [])))
  unfolding Represents
  push_refines l xs v (es, h, e) few =
      let counted = h.counted ∙ sym (length-values es) ∙ ap length e in
      let (l', run, h') = push_nodes v h (omega (arith, counted, few)) in
      (
        l',
        run,
        (
          put (length l.heap) v es,
          h',
          values-put (length l.heap) v es (find-fresh l.heap es h.linked)
              ∙ ap (λ t. t ++ (v ∷ [])) e,
        ),
      )

  abbrev first_of : List A → Option A
  first_of [] = none
  first_of (y ∷ ys) = some y

  abbrev rest_of : List A → List A
  rest_of [] = []
  rest_of (y ∷ ys) = ys

  -- `pop` and `front` find the first value, and are refused where there is none.
  pub pop_refines :
      (l : LinkedList A) (xs : List A)
      → Represents l xs
      → Returns
          (pop l)
          λ r. (r.0 ≡ (Fifo.pop xs).0) × (r.1 ≡ (Fifo.pop xs).1) × Represents r.2 (Fifo.pop xs).2
  unfolding Represents pop Fifo.pop
  pop_refines l [] ([], h, e) = ((false, none, l), rw h.head refl, (refl, refl, ([], h, e)))
  pop_refines l [] ((k, u) ∷ es, h, e) = cc
  pop_refines l (x ∷ xs) ([], h, e) = cc
  pop_refines l (x ∷ xs) ((k, u) ∷ es, h, e) =
      let (r, run, (ok, out, h')) = pop_nodes k u es h in
      (r, run, (ok, out ∙ ap first_of e, (es, h', ap rest_of e)))

  pub front_refines :
      (l : LinkedList A) (xs : List A) → Represents l xs → front l ≡ done (Fifo.front xs)
  unfolding Represents front Fifo.front
  front_refines l [] ([], h, e) = rw h.head refl
  front_refines l [] ((k, u) ∷ es, h, e) = cc
  front_refines l (x ∷ xs) ([], h, e) = cc
  front_refines l (x ∷ xs) ((k, u) ∷ es, h, e) =
      let first : Item A = record { next = first_or es none; prev = none; value = u } in
      let here : get_elem? l.heap k ≡ some (some first) =
        h.linked k u (rw (eq_refl k) refl) ∙ rw (eq_refl k) refl in
      let full : (l.count == 0) ≡ false = ground (arith, h.counted) in
      rw (h.head, full, here, load, ◌>>=◌) (ap (λ o. done (true, o)) (ap first_of e))
