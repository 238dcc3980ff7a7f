-- ===== src/QList/Refine.antt =====
-- The ring and the list together against one queue without a bound.
use gearkit.Base.{
  nil_of_length, ℕ, suc, ◌+◌, ◌-◌, ◌<◌, ◌^◌, ◌≤◌, ◌≡◌, refl, sym, ap, subst, ◌∙◌, arith, List, [],
  ◌∷◌, ◌++◌, Option, none, Bool, true, false, ltb, if◌then◌else◌, length, length-append, Bool-cases,
  inl, inr,
}
use mathlib.Core.List.{append_assoc, append-nil}
use gearkit.Base.Run.{done, Returns, ◌>>=◌}
use gearkit.LinkedList
use gearkit.LinkedList.{LinkedList, Heap}
use gearkit.LinkedList.Refine.{Represents, new_represents, count-length, count_up_lem}
use gearkit.LinkedList.Refine as ListRefine
use gearkit.Queue
use gearkit.Queue.{Queue}
use gearkit.Queue.Refine as RingRefine
use gearkit.Queue.Fifo
use gearkit.Queue.Fifo.{Op, put, get, peek, Reply}
use gearkit.QList.{QList, new, pop_list, pop, push_list, push_que, push, front_list, front, run}

module _ {ℓ} {A : Type ℓ} where
  -- What a client of a queue without a bound sees.
  abbrev pub unbounded : List A → List (Op A) → List (Reply A)
  unbounded xs [] = []
  unbounded xs (put x ∷ ops) = (true, none) ∷ unbounded (xs ++ (x ∷ [])) ops
  unbounded xs (get ∷ ops) =
      let rest = unbounded (Fifo.pop xs).2 ops in ((Fifo.pop xs).0, (Fifo.pop xs).1) ∷ rest
  unbounded xs (peek ∷ ops) = Fifo.front xs ∷ unbounded xs ops

  pop_length : (l : List A) → length (Fifo.pop l).2 ≤ length l
  unfolding Fifo.pop
  pop_length [] = omega arith
  pop_length (x ∷ l) = omega arith

  count-pop :
      (n : ℕ) (l : List A)
      → n ≡ length l
      → (if (Fifo.pop l).0 then n - 1 else n) ≡ length (Fifo.pop l).2
  unfolding Fifo.pop
  count-pop n [] e = e
  count-pop n (x ∷ l) e = omega (arith, e)

module _ {ℓ} {A : Type ℓ} (len : ℕ) where
  -- The oldest values stand in the ring and the others in the list.
  pub record Holds (q : QList A) (xs : List A) : Type ℓ where
    pub old : List A
    pub late : List A
    pub ring : RingRefine.Holds len q.que old
    pub rest : Represents q.list late
    pub whole : old ++ late ≡ xs
    pub counted : q.count ≡ length xs

  push_list_lem :
      (q : QList A) (xs : List A) (v : A)
      → Holds q xs
      → suc (length xs) < 2 ^ 31
      → Returns (push_list len v q) (λ q'. Holds q' (xs ++ (v ∷ [])))
  unfolding push_list
  push_list_lem q xs v h few =
      let sizes = ap length (sym h.whole) ∙ length-append h.old h.late in
      let (list, pushed, r) =
        ListRefine.push_refines q.list h.late v h.rest (omega (arith, sizes, few)) in
      (
        record q { count = q.count + 1; list = list },
        rw (pushed, ◌>>=◌, count_up_lem q.count (omega (arith, h.counted, few)), ◌>>=◌) refl,
        record {
          old = h.old;
          late = h.late ++ (v ∷ []);
          ring = h.ring;
          rest = r;
          whole = sym (append_assoc h.old h.late (v ∷ [])) ∙ ap (λ t. t ++ (v ∷ [])) h.whole;
          counted = omega (arith, h.counted, length-append xs (v ∷ []));
        },
      )

  push_que-true :
      (v : A) (r : Bool × Queue A) (q : QList A)
      → r.0 ≡ true
      → suc q.count < 2 ^ 31
      → push_que len v r q ≡ done (record q { count = q.count + 1; que = r.1 })
  unfolding push_que
  push_que-true v (true, que) q e few = rw (count_up_lem q.count few, ◌>>=◌) refl
  push_que-true v (false, que) q e few = cc

  push_que-false :
      (v : A) (r : Bool × Queue A) (q : QList A)
      → r.0 ≡ false
      → push_que len v r q ≡ push_list len v (record q { que = r.1 })
  unfolding push_que
  push_que-false v (true, que) q e = cc
  push_que-false v (false, que) q e = refl

  -- Behind an empty list the ring takes the value, or the list does.
  push_que_lem :
      (q : QList A) (xs : List A) (v : A)
      → (h : Holds q xs) → h.late ≡ []
      → suc (length xs) < 2 ^ 31
      → Returns (push_que len v (Queue.push len v q.que) q) (λ q'. Holds q' (xs ++ (v ∷ [])))
  push_que_lem q xs v h none_late few =
      let whole : h.old ≡ xs =
        sym (append-nil h.old) ∙ ap (λ t. h.old ++ t) (sym none_late) ∙ h.whole in
      let (ok, ring) = RingRefine.push_refines v h.ring in
      elim (Bool-cases (ltb (length h.old) len)) [
        | inl room ↦
            let took : (Queue.push len v q.que).0 ≡ true = ok ∙ unfold Fifo.push in rw room refl in
            let ring' : RingRefine.Holds len (Queue.push len v q.que).1 (h.old ++ (v ∷ [])) =
              let grown : (Fifo.push len v h.old).1 ≡ h.old ++ (v ∷ []) =
                unfold Fifo.push in rw room refl in
              subst (RingRefine.Holds len (Queue.push len v q.que).1) grown ring in
            (
              record q { count = q.count + 1; que = (Queue.push len v q.que).1 },
              push_que-true v (Queue.push len v q.que) q took (omega (arith, h.counted, few)),
              record {
                old = h.old ++ (v ∷ []);
                late = h.late;
                ring = ring';
                rest = h.rest;
                whole =
                    ap (λ t. (h.old ++ (v ∷ [])) ++ t) none_late
                    ∙ append-nil _
                    ∙ ap (λ t. t ++ (v ∷ [])) whole;
                counted = omega (arith, h.counted, length-append xs (v ∷ []));
              },
            )
        | inr full ↦
            let refused : (Queue.push len v q.que).0 ≡ false =
              ok ∙ unfold Fifo.push in rw full refl in
            let ring' : RingRefine.Holds len (Queue.push len v q.que).1 h.old =
              let kept : (Fifo.push len v h.old).1 ≡ h.old = unfold Fifo.push in rw full refl in
              subst (RingRefine.Holds len (Queue.push len v q.que).1) kept ring in
            let (q', run, h') =
              push_list_lem (record q { que = (Queue.push len v q.que).1 }) xs v
                (record {
                  old = h.old;
                  late = h.late;
                  ring = ring';
                  rest = h.rest;
                  whole = h.whole;
                  counted = h.counted;
                })
                few in
            (q', push_que-false v (Queue.push len v q.que) q refused ∙ run, h')
      ]

  pub push_refines :
      (q : QList A) (xs : List A) (v : A)
      → Holds q xs
      → suc (length xs) < 2 ^ 31
      → Returns (push len v q) (λ q'. Holds q' (xs ++ (v ∷ [])))
  unfolding push
  push_refines q xs v h few = elim (Bool-cases (ltb 0 q.list.count)) [
    | inl e ↦ rw e (push_list_lem q xs v h few)
    | inr e ↦
        let none_late : h.late ≡ [] =
          nil_of_length h.late (ground (arith, count-length q.list h.late h.rest)) in
        rw e (push_que_lem q xs v h none_late few)
  ]

  pop_list-true :
      (n : ℕ) (r : Bool × Option A × Queue A) (l : LinkedList A)
      → r.0 ≡ true
      → pop_list len n r l ≡ done (true, r.1, record { count = n - 1; que = r.2; list = l })
  unfolding pop_list
  pop_list-true n (true, out, que) l e = refl
  pop_list-true n (false, out, que) l e = cc

  pop_list-false :
      (n : ℕ) (r : Bool × Option A × Queue A) (l : LinkedList A)
      → r.0 ≡ false
      → pop_list len n r l ≡ (
          LinkedList.pop l >>= λ s.
          done (s.0, s.1, record { count = if s.0 then n - 1 else n; que = r.2; list = s.2 }))
  unfolding pop_list
  pop_list-false n (true, out, que) l e = cc
  pop_list-false n (false, out, que) l e = refl

  front_list-true :
      (r : Bool × Option A) (l : LinkedList A) → r.0 ≡ true → front_list len r l ≡ done (true, r.1)
  unfolding front_list
  front_list-true (true, out) l e = refl
  front_list-true (false, out) l e = cc

  front_list-false :
      (r : Bool × Option A) (l : LinkedList A)
      → r.0 ≡ false
      → front_list len r l ≡ LinkedList.front l
  unfolding front_list
  front_list-false (true, out) l e = cc
  front_list-false (false, out) l e = refl

  -- What `pop` does to the whole queue.
  pub record Popped (xs : List A) (r : Bool × Option A × QList A) : Type ℓ where
    pub answer : r.0 ≡ (Fifo.pop xs).0
    pub out : r.1 ≡ (Fifo.pop xs).1
    pub left : Holds r.2 (Fifo.pop xs).2

  -- With an empty ring the list is popped.
  pop_late :
      (q : QList A) (late : List A)
      → RingRefine.Holds len q.que []
      → Represents q.list late
      → q.count ≡ length late
      → Returns (pop len q) (Popped late)
  unfolding pop
  pop_late q late ring rest counted =
      let (ok, _, ring') = RingRefine.pop_refines [] ring in
      let refused : (Queue.pop len q.que).0 ≡ false = ok ∙ unfold Fifo.pop in refl in
      let ring'' : RingRefine.Holds len (Queue.pop len q.que).2 [] = unfold Fifo.pop in ring' in
      let (s, run, (ok', out, rest')) = ListRefine.pop_refines q.list late rest in
      (
        (
          s.0,
          s.1,
          record {
            count = if s.0 then q.count - 1 else q.count;
            que = (Queue.pop len q.que).2;
            list = s.2;
          },
        ),
        pop_list-false q.count (Queue.pop len q.que) q.list refused ∙ rw (run, ◌>>=◌) refl,
        record {
          answer = ok';
          out = out;
          left = record {
            old = [];
            late = (Fifo.pop late).2;
            ring = ring'';
            rest = rest';
            whole = refl;
            counted =
                ap (λ b. if b then q.count - 1 else q.count) ok' ∙ count-pop q.count late counted;
          };
        },
      )

  -- With a value in the ring, the ring is popped.
  pop_old :
      (q : QList A) (y : A) (old late : List A)
      → RingRefine.Holds len q.que (y ∷ old)
      → Represents q.list late
      → q.count ≡ suc (length (old ++ late))
      → Returns (pop len q) (Popped (y ∷ (old ++ late)))
  unfolding pop
  pop_old q y old late ring rest counted =
      let (ok, out, ring') = RingRefine.pop_refines (y ∷ old) ring in
      let took : (Queue.pop len q.que).0 ≡ true = ok ∙ unfold Fifo.pop in refl in
      let ring'' : RingRefine.Holds len (Queue.pop len q.que).2 old = unfold Fifo.pop in ring' in
      (
        (
          true,
          (Queue.pop len q.que).1,
          record { count = q.count - 1; que = (Queue.pop len q.que).2; list = q.list },
        ),
        pop_list-true q.count (Queue.pop len q.que) q.list took,
        record {
          answer = unfold Fifo.pop in refl;
          out = out ∙ unfold Fifo.pop in refl;
          left =
              unfold Fifo.pop in
              record {
                old = old;
                late = late;
                ring = ring'';
                rest = rest;
                whole = refl;
                counted = omega (arith, counted);
              };
        },
      )

  pop_whole :
      (q : QList A) (old late : List A)
      → RingRefine.Holds len q.que old
      → Represents q.list late
      → q.count ≡ length (old ++ late)
      → Returns (pop len q) (Popped (old ++ late))
  pop_whole q [] late ring rest counted = pop_late q late ring rest counted
  pop_whole q (y ∷ old) late ring rest counted = pop_old q y old late ring rest counted

  pub pop_refines : (q : QList A) (xs : List A) → Holds q xs → Returns (pop len q) (Popped xs)
  pop_refines q xs h =
      subst (λ t. Returns (pop len q) (Popped t)) h.whole
        (pop_whole q h.old h.late h.ring h.rest (h.counted ∙ ap length (sym h.whole)))

  front_whole :
      (q : QList A) (old late : List A)
      → RingRefine.Holds len q.que old
      → Represents q.list late
      → front len q ≡ done (Fifo.front (old ++ late))
  unfolding front Fifo.front
  front_whole q [] late ring rest =
      let (ok, _) = RingRefine.front_refines [] ring in
      front_list-false (Queue.front len q.que) q.list ok ∙ ListRefine.front_refines q.list late rest
  front_whole q (y ∷ old) late ring rest =
      let (ok, out) = RingRefine.front_refines (y ∷ old) ring in
      front_list-true (Queue.front len q.que) q.list ok ∙ ap (λ o. done (true, o)) out

  front_refines : (q : QList A) (xs : List A) → Holds q xs → front len q ≡ done (Fifo.front xs)
  front_refines q xs h =
      front_whole q h.old h.late h.ring h.rest ∙ ap (λ t. done (Fifo.front t)) h.whole

  run_refines :
      (ops : List (Op A)) (q : QList A) (xs : List A)
      → Holds q xs
      → length xs + length ops < 2 ^ 31
      → run len q ops ≡ done (unbounded xs ops)
  unfolding run
  run_refines [] q xs h few = refl
  run_refines (put x ∷ ops) q xs h few =
      let (q', pushed, h') = push_refines q xs x h (omega (arith, few)) in
      let still : length (xs ++ (x ∷ [])) + length ops < 2 ^ 31 =
        omega (arith, few, length-append xs (x ∷ [])) in
      rw (pushed, ◌>>=◌, run_refines ops q' (xs ++ (x ∷ [])) h' still, ◌>>=◌) refl
  run_refines (get ∷ ops) q xs h few =
      let (r, popped, p) = pop_refines q xs h in
      rw
        (
          popped,
          ◌>>=◌,
          run_refines ops r.2 (Fifo.pop xs).2 p.left (omega (arith, few, pop_length xs)),
          ◌>>=◌,
          p.answer,
          p.out,
        )
        refl
  run_refines (peek ∷ ops) q xs h few =
      rw (front_refines q xs h, ◌>>=◌, run_refines ops q xs h (omega (arith, few)), ◌>>=◌) refl

  pub new-Holds :
      (slots : List A) (heap : Heap A) → 0 < len → length slots ≡ len → Holds (new slots heap) []
  unfolding new
  new-Holds slots heap pos e = record {
    old = [];
    late = [];
    ring = RingRefine.new-Holds slots pos e;
    rest = new_represents heap;
    whole = refl;
    counted = refl;
  }

  -- No sequence of fewer than 2 ^ 31 calls of `push`, `pop` and `front` on a fresh queue with a ring of `len > 0` slots
  -- reads or writes a deleted node, and none can be told from a first-in first-out queue without a
  -- bound: every `push` answers `true`, and the values come out in the order in which they went in.
  pub run-unbounded :
      (slots : List A) (heap : Heap A) (ops : List (Op A))
      → 0 < len
      → length slots ≡ len
      → length ops < 2 ^ 31
      → run len (new slots heap) ops ≡ done (unbounded [] ops)
  run-unbounded slots heap ops pos e few =
      run_refines ops _ [] (new-Holds slots heap pos e) (omega (arith, few))
