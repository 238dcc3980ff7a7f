-- ===== src/Queue/MinQueue/Tests.antt =====
-- A heap of three numbers, and the theorems at concrete inputs.
use mathlib.Core.List.Perm
use gearkit.Base.{
  ℕ, zero, suc, ◌/◌, ◌≤◌, ◌<◌, ◌≡◌, ◌≢◌, ◌⊎◌, refl, arith, List, [], ◌∷◌, none, true, false,
}
use gearkit.Base.Run.{done, Returns}
use gearkit.Queue.MinQueue.{MinQueue, min_compare, max_compare, push, pop}
use gearkit.Queue.MinQueue.Slots.{at, items}
use gearkit.Queue.MinQueue.Order.{IsOrder}
use gearkit.Queue.MinQueue.Refine.{Holds, Popped, push-Holds, pop-Popped}

max_compare-IsOrder : IsOrder max_compare
max_compare-IsOrder = record {
  one_way = λ a b e. ground (arith, e);
  steps = λ a b c e f. ground (arith, e, f);
}

min_compare-IsOrder : IsOrder min_compare
min_compare-IsOrder = record {
  one_way = λ a b e. ground (arith, e);
  steps = λ a b c e f. ground (arith, e, f);
}

abbrev three : MinQueue ℕ
three = record { count = 3; que = 0 ∷ 2 ∷ 5 ∷ 3 ∷ 0 ∷ [] }

abbrev values : List ℕ
values = 3 ∷ 5 ∷ 2 ∷ []

in_order :
    (c : ℕ)
    → 2 ≤ c
    → c ≤ 3
    → c ≢ 1
    → min_compare (at 0 three.que (c / 2)) (at 0 three.que c) ≡ false
unfolding at
in_order (suc (suc zero)) two le ne = refl
in_order (suc (suc (suc zero))) two le ne = refl
in_order zero two le ne = absurd (omega (arith, two))
in_order (suc zero) two le ne = absurd (omega (arith, two))
in_order (suc (suc (suc (suc c)))) two le ne = absurd (omega (arith, two, le))

three-Holds : Holds 0 min_compare 4 three values
unfolding at items
three-Holds = record { room = omega arith; size = refl; order = in_order; values = Perm.rfl }

abbrev two_max : MinQueue ℕ
two_max = record { count = 1; que = 0 ∷ 2 ∷ 0 ∷ [] }

two_max-Holds : Holds 0 max_compare 2 two_max (2 ∷ [])
unfolding at items
two_max-Holds = record {
  room = omega arith;
  size = refl;
  order = λ c two le ne. absurd (omega (arith, two, le));
  values = Perm.rfl;
}

push-Holds_example :
    ((two_max.count ≡ 2) × (push max_compare 2 7 two_max ≡ done (false, two_max)))
    ⊎ ((two_max.count < 2)
        × Returns
            (push max_compare 2 7 two_max)
            (λ r. (r.0 ≡ true) × Holds 0 max_compare 2 r.1 (7 ∷ 2 ∷ [])))
push-Holds_example = push-Holds 0 max_compare max_compare-IsOrder 2 7 two_max (2 ∷ []) two_max-Holds

pop-Popped_example :
    ((three.count ≡ 0) × (pop min_compare three ≡ done (false, none, three)))
    ⊎ ((0 < three.count) × Returns (pop min_compare three) (Popped 0 min_compare 4 three values))
pop-Popped_example = pop-Popped 0 min_compare min_compare-IsOrder 4 three values three-Holds
