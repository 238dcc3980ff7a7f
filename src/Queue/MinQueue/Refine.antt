-- ===== src/Queue/MinQueue/Refine.antt =====
-- `push` and `pop` against what the queue promises: the values it holds, and the first of them.
use mathlib.Core.Logic.Or
use mathlib.Core.Bool.{Bool-set}
use mathlib.Core.List.{Perm, Mem, not-mem-nil, eq-or-mem_of_mem-cons}
use mathlib.Core.List.Perm
use gearkit.Base.{
  ℕ, zero, suc, ◌-◌, ◌/◌, ◌≤◌, ◌<◌, ◌≡◌, ◌⊎◌, inl, inr, refl, sym, ap, ap₂, ◌∙◌, subst, arith, List,
  ◌∷◌, Option, none, some, Bool, true, false, length, set, length-set, ◌==◌, Bool-cases, ==_iff,
  eq_false, ne_false,
}
use gearkit.Base.Run.{done, Returns, ◌>>=◌}
use gearkit.Queue.MinQueue.{MinQueue, adjust_down, adjust, pop, push}
use gearkit.Queue.MinQueue.Slots.{
  at, load-at, at-set_self, at-set_ne, items, items_same, items_write,
}
use gearkit.Queue.MinQueue.Order.{IsOrder, IsHeap, IsHeapBut, root_first}
use gearkit.Queue.MinQueue.Down.{DownInv}
use gearkit.Queue.MinQueue.Sift.{adjust_down-Sifted}
use gearkit.Queue.MinQueue.Up.{adjust-Heaped}

-- The queue is a heap of the values `xs`, in some order.
pub record Holds {ℓ} {A : Type ℓ} (d : A) (gt : A → A → Bool) (len : ℕ) (q : MinQueue A)
    (xs : List A) : Type ℓ where
  pub room : q.count ≤ len
  pub size : length q.que ≡ suc len
  pub order : IsHeap d gt q.count q.que
  pub values : Perm (items d (at d q.que) q.count) xs

-- `pop`: false and no change for an empty queue; otherwise a value that comes before all, and the queue
-- holds the others.
pub record Popped {ℓ} {A : Type ℓ} (d : A) (gt : A → A → Bool) (len : ℕ) (q : MinQueue A)
    (xs : List A) (r : Bool × Option A × MinQueue A) : Type ℓ where
  pub value : A
  pub others : List A
  pub answer : r.0 ≡ true
  pub out : r.1 ≡ some value
  pub was : Perm xs (value ∷ others)
  pub first : (x : A) → Mem x xs → gt value x ≡ false
  pub left : Holds d gt len r.2 others

module _ {ℓ} {A : Type ℓ} (d : A) (gt : A → A → Bool) (order : IsOrder gt) (len : ℕ) where
  push_full : (v : A) (q : MinQueue A) → (q.count == len) ≡ true → push gt len v q ≡ done (false, q)
  unfolding push
  push_full v q full = rw (push, full) refl

  push_run :
      (v : A) (q : MinQueue A) (que : List A)
      → (q.count == len) ≡ false
      → adjust gt (suc (suc q.count)) (suc q.count) (suc q.count) (set q.que (suc q.count) v)
        ≡ done que
      → push gt len v q ≡ done (true, record { count = suc q.count; que = que })
  unfolding push
  push_run v q que free run = rw (push, free, run) refl

  -- The new value stands at the end.
  pushed_heap :
      (v : A) (q : MinQueue A) (xs : List A)
      → Holds d gt len q xs
      → IsHeapBut d gt (suc q.count) (suc q.count) (set q.que (suc q.count) v)
  pushed_heap v q xs h c two le ne =
      let child = at-set_ne d q.que (suc q.count) c v (λ e. ne (sym e)) in
      let parent = at-set_ne d q.que (suc q.count) (c / 2) v (omega (arith, le, two)) in
      ap₂ gt parent child ∙ h.order c two (omega (arith, le, ne)) (omega (arith, two))

  pushed_values :
      (v : A) (q : MinQueue A) (xs : List A)
      → Holds d gt len q xs
      → q.count < len
      → Perm (items d (at d (set q.que (suc q.count) v)) (suc q.count)) (v ∷ xs)
  unfolding items
  pushed_values v q xs h free =
      let que = set q.que (suc q.count) v in
      let last : at d que (suc q.count) ≡ v =
        at-set_self d q.que (suc q.count) v (omega (arith, h.size, free)) in
      let below : items d (at d que) q.count ≡ items d (at d q.que) q.count =
        items_same d (at d que) (at d q.que) q.count
          (λ k le. at-set_ne d q.que (suc q.count) k v (omega (arith, le))) in
      subst (λ x. Perm (x ∷ items d (at d que) q.count) (v ∷ xs)) (sym last)
        (subst (λ l. Perm (v ∷ l) (v ∷ xs)) (sym below) (Perm.cons v h.values))

  -- `push` into a heap of some values: a full queue answers false and is as it was; otherwise `push`
  -- stays inside the array, comes to its end and answers true, and the queue is a heap of those values
  -- and the new one.
  pub push-Holds :
      (v : A) (q : MinQueue A) (xs : List A)
      → Holds d gt len q xs
      → ((q.count ≡ len) × (push gt len v q ≡ done (false, q)))
        ⊎ ((q.count < len)
            × Returns (push gt len v q) (λ r. (r.0 ≡ true) × Holds d gt len r.1 (v ∷ xs)))
  push-Holds v q xs h = elim (Bool-cases (q.count == len)) [
    | inl full ↦ inl ((==_iff q.count len).0 full, push_full v q full)
    | inr free ↦
        let less : q.count < len = omega (arith, h.room, eq_false free) in
        let que = set q.que (suc q.count) v in
        let size = length-set q.que (suc q.count) v in
        let (r, run, t) =
          adjust-Heaped d gt order (suc (suc q.count)) (suc q.count) (suc q.count) que (omega arith)
            (omega arith) (omega arith) (omega (arith, size, h.size, less))
            (pushed_heap v q xs h) in
        inr (
          less,
          (
            (true, record { count = suc q.count; que = r }),
            push_run v q r free run,
            (
              refl,
              record {
                room = omega (arith, less);
                size = t.len ∙ size ∙ h.size;
                order = t.order;
                values = Perm.trans t.perm (pushed_values v q xs h less);
              },
            ),
          ),
        )
  ]

  pop_run :
      (q : MinQueue A) (r : Bool × List A)
      → (q.count == 0) ≡ false
      → q.count < length q.que
      → adjust_down gt (q.count - 1) 1 (set q.que 1 (at d q.que q.count)) ≡ done r
      → pop gt q ≡ done (true, some (at d q.que 1), record { count = q.count - 1; que = r.1 })
  unfolding pop
  pop_run q r some_left inside run =
      let one : 1 < length q.que = omega (arith, eq_false some_left, inside) in
      rw (pop, some_left, load-at d q.que 1 one, ◌>>=◌, load-at d q.que q.count inside, ◌>>=◌, run)
        refl

  -- No value of the array comes before `v`, so none of the queue does.
  items_first :
      (v : A) (f : ℕ → A) (n : ℕ)
      → ((i : ℕ) → 0 < i → i ≤ n → gt v (f i) ≡ false)
      → (x : A) → Mem x (items d f n)
      → gt v x ≡ false
  unfolding items
  items_first v f zero h x m = absurd (not-mem-nil m)
  items_first v f (suc n) h x m =
      Or.elim (Bool-set _ _) (eq-or-mem_of_mem-cons m)
        (λ e. ap (gt v) e ∙ h (suc n) (omega arith) (omega arith))
        (λ k. items_first v f n (λ i pos le. h i pos (omega (arith, le))) x k)

  -- The last value takes the place of the first.
  popped_values :
      (n : ℕ) (que : List A)
      → suc n < length que
      → Perm
          (items d (at d que) (suc n))
          (at d que 1 ∷ items d (at d (set que 1 (at d que (suc n)))) n)
  unfolding items
  popped_values zero que h = Perm.rfl
  popped_values (suc n) que h =
      let que' = set que 1 (at d que (suc (suc n))) in
      let first : at d que' 1 ≡ at d que (suc (suc n)) =
        at-set_self d que 1 (at d que (suc (suc n))) (omega (arith, h)) in
      Perm.symm (
        subst
          (λ x. Perm (at d que 1 ∷ items d (at d que') (suc n)) (x ∷ items d (at d que) (suc n)))
          first
          (items_write d (at d que) (at d que') 1 (suc n) (omega arith) (omega arith)
            (λ k ne. sym (at-set_ne d que 1 k (at d que (suc (suc n))) ne))))

  popped_inv :
      (n : ℕ) (v : A) (que : List A)
      → IsHeap d gt (suc n) que
      → DownInv d gt order 1 n 1 (set que 1 v)
  popped_inv n v que heap = record {
    edges = λ c two le ne nh.
        ap₂ gt (at-set_ne d que 1 (c / 2) v (λ z. nh (sym z)))
          (at-set_ne d que 1 c v (λ z. ne (sym z)))
        ∙ heap c two (omega (arith, le)) ne;
    bridged = λ c two le e ne. absurd (ne refl);
  }

  popped_lem :
      (n : ℕ) (q : MinQueue A) (xs : List A)
      → q.count ≡ suc n
      → Holds d gt len q xs
      → Returns (pop gt q) (Popped d gt len q xs)
  popped_lem n q xs e h =
      let less : q.count - 1 ≡ n = omega (arith, e) in
      let que = set q.que 1 (at d q.que (suc n)) in
      let size = length-set q.que 1 (at d q.que (suc n)) in
      let heap : IsHeap d gt (suc n) q.que = subst (λ k. IsHeap d gt k q.que) e h.order in
      let values = subst (λ k. Perm (items d (at d q.que) k) xs) e h.values in
      let (r, run, t) =
        adjust_down-Sifted d gt order 1 n que (omega arith) (omega (arith, size, h.size, h.room, e))
          (omega (arith, size, h.size, h.room, e)) (popped_inv n (at d q.que (suc n)) q.que heap) in
      (
        (true, some (at d q.que 1), record { count = n; que = r.1 }),
        pop_run q r (ne_false (λ z. omega (arith, z, e))) (omega (arith, h.size, h.room))
              (ap₂ (λ a b. adjust_down gt a 1 (set q.que 1 (at d q.que b))) less e ∙ run)
            ∙ ap (λ k. done (true, some (at d q.que 1), record { count = k; que = r.1 })) less,
        record {
          value = at d q.que 1;
          others = items d (at d que) n;
          answer = refl;
          out = refl;
          was =
              Perm.trans (Perm.symm values)
                (popped_values n q.que (omega (arith, h.size, h.room, e)));
          first = λ x m.
              items_first (at d q.que 1) (at d q.que) (suc n)
                (λ i pos le. root_first d gt (suc n) q.que i order heap pos le) x
                ((Perm.mem_iff values).1 m);
          left = record {
            room = omega (arith, h.room, e);
            size = t.len ∙ size ∙ h.size;
            order = t.order;
            values = t.perm;
          };
        },
      )

  pop_empty : (q : MinQueue A) → (q.count == 0) ≡ true → pop gt q ≡ done (false, none, q)
  unfolding pop
  pop_empty q is = rw (pop, is) refl

  -- `pop` of a heap of some values stays inside the array and comes to its end. Without values it answers
  -- false and changes nothing; otherwise it hands out one of them that `compare` puts above none of them,
  -- and the queue is a heap of the others.
  pub pop-Popped :
      (q : MinQueue A) (xs : List A)
      → Holds d gt len q xs
      → ((q.count ≡ 0) × (pop gt q ≡ done (false, none, q)))
        ⊎ ((0 < q.count) × Returns (pop gt q) (Popped d gt len q xs))
  pop-Popped q xs h = elim (Bool-cases (q.count == 0)) [
    | inl is ↦ inl ((==_iff q.count 0).0 is, pop_empty q is)
    | inr is_not ↦
        let pos : 0 < q.count = omega (arith, eq_false is_not) in
        inr (pos, popped_lem (q.count - 1) q xs (omega (arith, pos)) h)
  ]
