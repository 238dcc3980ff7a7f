-- ===== src/Queue/Refine.antt =====
-- The ring against the bounded queue of `Fifo`.
use gearkit.Base.{
  ℕ, suc, ◌+◌, ◌-◌, ◌%◌, ◌≤◌, ◌<◌, ◌≡◌, ◌≢◌, ◌⊎◌, inl, inr, refl, sym, ap, ◌∙◌, arith, List, [],
  ◌∷◌, ◌++◌, some, true, false, ◌==◌, ltb, Bool-cases, length, get_elem?, set, length-append,
  lt→ltb, get_elem?-set_self, get_elem?-set_ne, get_elem?-append_left, get_elem?-append_last,
}
use native.Mathlib.Nat.{mod-add-mod, mod-eq_of_lt, mod-eq-sub-mod}
use native.Mathlib.Decide.{dec_lt}
use gearkit.Queue.{Queue, new, pop, push, front, run}
use gearkit.Queue.Inv.{IsValid, new-IsValid, push-IsValid, advance-IsValid}
use gearkit.Queue.Fifo
use gearkit.Queue.Fifo.{Op, put, get, peek}

-- Adding less than a full turn either stays below the length or goes round once.
wrap_cases :
    {h k len : ℕ} → h < len → k ≤ len → ((h + k) % len ≡ h + k) ⊎ ((h + k) % len + len ≡ h + k)
wrap_cases {h} {k} {len} hh hk = elim (dec_lt (h + k) len) [
  | yes p ↦ inl (mod-eq_of_lt p)
  | no p ↦ inr (
      omega (
        arith,
        mod-eq-sub-mod {n = h + k} {m = len} (omega arith),
        mod-eq_of_lt {n = h + k - len} {m = len} (omega arith),
      ))
]

-- Two slots at different distances from the head are different.
slots_differ : {h i k len : ℕ} → h < len → i < k → k < len → (h + k) % len ≢ (h + i) % len
slots_differ {h} {i} {k} {len} hh hi hk e =
    differ (wrap_cases {h = h} {k = k} hh (omega arith))
      (wrap_cases {h = h} {k = i} hh (omega arith))
  where
    differ :
        ((h + k) % len ≡ h + k) ⊎ ((h + k) % len + len ≡ h + k)
        → ((h + i) % len ≡ h + i) ⊎ ((h + i) % len + len ≡ h + i)
        → ⊥
    differ a b = omega arith

next_slot : (h i len : ℕ) → ((h + 1) % len + i) % len ≡ (h + suc i) % len
next_slot h i len = mod-add-mod (h + 1) len i ∙ ap (λ k. k % len) (omega arith)

module _ {ℓ} {A : Type ℓ} (len : ℕ) where
  -- A valid ring holds `xs`, oldest first, going round from the head.
  pub record Holds (q : Queue A) (xs : List A) : Type ℓ where
    pub valid : IsValid len q
    pub size : length xs ≡ q.count
    pub slots : (i : ℕ) → i < q.count → get_elem? q.que ((q.head + i) % len) ≡ get_elem? xs i

module _ {ℓ} {A : Type ℓ} {len : ℕ} where
  pub new-Holds : (slots : List A) → 0 < len → length slots ≡ len → Holds len (new slots) []
  unfolding new
  new-Holds slots pos e = record {
    valid = new-IsValid slots pos e;
    size = refl;
    slots = λ i h. absurd (omega arith);
  }

  slots-set :
      (q : Queue A) (xs : List A) (x : A)
      → Holds len q xs
      → q.count < len
      → (i : ℕ) → i < q.count + 1
      → get_elem? (set q.que q.tail x) ((q.head + i) % len) ≡ get_elem? (xs ++ (x ∷ [])) i
  slots-set q xs x h room i hi = elim (dec_lt i q.count) [
    | yes old ↦
        get_elem?-set_ne q.que x (λ e. slots_differ h.valid.head_in old room (sym v.tail_at ∙ e))
        ∙ h.slots i old
        ∙ sym (get_elem?-append_left xs (x ∷ []) i (omega arith))
    | no new_one ↦
        let last : i ≡ length xs = omega arith in
        let at : (q.head + i) % len ≡ q.tail =
          ap (λ k. (q.head + k) % len) (omega arith) ∙ sym v.tail_at in
        rw (at, last)
          (get_elem?-set_self q.que q.tail x (omega arith) ∙ sym (get_elem?-append_last xs x))
  ]
    where
      v : IsValid len q
      v = h.valid

  -- `push` answers as the bounded queue does, and leaves the ring holding its list.
  pub push_refines :
      {q : Queue A} {xs : List A} (x : A)
      → Holds len q xs
      → ((push len x q).0 ≡ (Fifo.push len x xs).0)
        × Holds len (push len x q).1 (Fifo.push len x xs).1
  unfolding push Fifo.push
  push_refines {q} {xs} x h = elim (Bool-cases (q.count == len)) [
    | inl full ↦
        let no_room : ltb (length xs) len ≡ false = ground (arith, h.size) in
        rw (full, no_room) (refl, h)
    | inr more ↦
        let count_in : q.count ≤ len = h.valid.count_in in
        let less : q.count < len = ground arith in
        let room : ltb (length xs) len ≡ true = lt→ltb _ _ (omega (arith, h.size)) in
        rw (more, room)
          (
            refl,
            record {
              valid = rw (more, push) at (push-IsValid x h.valid);
              size = length-append xs (x ∷ []) ∙ omega (arith, h.size);
              slots = slots-set q xs x h less;
            },
          )
  ]

  pop-Holds :
      (q : Queue A) (x : A) (xs : List A)
      → Holds len q (x ∷ xs)
      → Holds len (record q { head = (q.head + 1) % len; count = q.count - 1 }) xs
  pop-Holds q x xs h = record {
    valid = advance-IsValid h.valid (omega (arith, h.size));
    size = omega (arith, h.size);
    slots = λ i hi. ap (get_elem? q.que) (next_slot q.head i len) ∙ h.slots (suc i) (omega arith);
  }

  first_slot :
      (q : Queue A) (x : A) (xs : List A) → Holds len q (x ∷ xs) → get_elem? q.que q.head ≡ some x
  first_slot q x xs h =
      ap (get_elem? q.que) (sym (mod-eq_of_lt h.valid.head_in) ∙ ap (λ k. k % len) (omega arith))
      ∙ h.slots 0 (omega (arith, h.size))

  -- `pop` too.
  pub pop_refines :
      {q : Queue A} (xs : List A)
      → Holds len q xs
      → ((pop len q).0 ≡ (Fifo.pop xs).0)
        × ((pop len q).1 ≡ (Fifo.pop xs).1)
        × Holds len (pop len q).2 (Fifo.pop xs).2
  unfolding pop Fifo.pop
  pop_refines {q} [] h =
      let none_left : (q.count == 0) ≡ true = ground (arith, h.size) in rw none_left (refl, refl, h)
  pop_refines {q} (x ∷ xs) h =
      let some_left : (q.count == 0) ≡ false = ground (arith, h.size) in
      rw some_left (refl, first_slot q x xs h, pop-Holds q x xs h)

  pub front_refines :
      {q : Queue A} (xs : List A)
      → Holds len q xs
      → ((front len q).0 ≡ (Fifo.front xs).0) × ((front len q).1 ≡ (Fifo.front xs).1)
  unfolding front Fifo.front
  front_refines {q} [] h =
      let none_left : (q.count == 0) ≡ true = ground (arith, h.size) in rw none_left (refl, refl)
  front_refines {q} (x ∷ xs) h =
      let some_left : (q.count == 0) ≡ false = ground (arith, h.size) in
      rw some_left (refl, first_slot q x xs h)

  run_refines :
      (ops : List (Op A)) {q : Queue A} {xs : List A}
      → Holds len q xs
      → run len q ops ≡ Fifo.run len xs ops
  unfolding run Fifo.run
  run_refines [] h = refl
  run_refines (put x ∷ ops) h = let (ok, h') = push_refines x h in rw (ok, run_refines ops h')
  run_refines (get ∷ ops) {xs = xs} h =
      let (ok, out, h') = pop_refines xs h in rw (ok, out, run_refines ops h')
  run_refines (peek ∷ ops) {xs = xs} h =
      let (ok, out) = front_refines xs h in rw (ok, out, run_refines ops h)

  -- No sequence of calls tells a fresh ring of `len > 0` slots from the bounded queue: the results
  -- of `push`, `pop` and `front`, and the values that `pop` and `front` hand out, agree.
  pub run-new :
      (slots : List A) (ops : List (Op A))
      → 0 < len
      → length slots ≡ len
      → run len (new slots) ops ≡ Fifo.run len [] ops
  run-new slots ops pos e = run_refines ops (new-Holds slots pos e)
