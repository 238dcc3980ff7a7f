-- ===== src/Array/Tests.antt =====
-- An array of four slots, and the theorems at concrete inputs.
use gearkit.Base.{ℕ, ◌≡◌, refl, sym, ap, subst, ◌∙◌, arith, replicate, [], ◌∷◌, some, none}
use gearkit.Base.Run.{Run, done, fault, Returns, ◌>>=◌}
use gearkit.Array.{Array, clear, set, append, del, unlink, set_next, set_prev, visit}
use gearkit.Array.Cells.{put, remove}
use gearkit.Array.Ops.{Holds}
use gearkit.Array.Set.{set_refines, clear-Holds}
use gearkit.Array.Del.{del_refines}
use gearkit.Array.Each.{visit_lem}

abbrev dirty : Array ℕ
dirty = record { count = 9; head = some 1; tail = some 0; array = [] }

abbrev cleared : Array ℕ
cleared = record {
  count = 0;
  head = none;
  tail = none;
  array = replicate 4 (record { next = some 0; prev = some 0; value = 0 });
}

cleared-Holds : Holds 4 cleared []
unfolding clear
cleared-Holds = clear-Holds 4 0 dirty

abbrev filled : Array ℕ
filled = record {
  count = 3;
  head = some 2;
  tail = some 3;
  array =
      record { next = some 3; prev = some 2; value = 10 }
      ∷ record { next = some 0; prev = some 0; value = 0 }
      ∷ record { next = some 0; prev = none; value = 12 }
      ∷ record { next = none; prev = some 0; value = 13 }
      ∷ [];
}

-- Slots 2, 0 and 3 are filled in this order, and slot 0 is taken out.
fill : (set 2 12 cleared >>= set 0 10 >>= set 3 13) ≡ done filled
unfolding set append set_next
fill = refl

visit_without_0 :
    (del 0 filled >>= λ a. visit a.count a.head a.array) ≡ done ((2, 12) ∷ (3, 13) ∷ [])
unfolding del unlink set_next set_prev visit
visit_without_0 = refl

set_refines_example : Returns (set 2 12 cleared) (λ a. Holds 4 a (put 2 12 []))
set_refines_example = set_refines 2 12 cleared-Holds (omega arith)

abbrev one : Array ℕ
one = record {
  count = 1;
  head = some 2;
  tail = some 2;
  array =
      record { next = some 0; prev = some 0; value = 0 }
      ∷ record { next = some 0; prev = some 0; value = 0 }
      ∷ record { next = none; prev = none; value = 12 }
      ∷ record { next = some 0; prev = some 0; value = 0 }
      ∷ [];
}

first_set : set 2 12 cleared ≡ done one
unfolding set append set_next
first_set = refl

-- The array that a run returns.
abbrev returned : Run (Array ℕ) → Array ℕ
returned fault = dirty
returned (done a) = a

one-Holds : Holds 4 one ((2, 12) ∷ [])
one-Holds =
    let (a, run, h) = set_refines 2 12 cleared-Holds (omega arith) in
    subst (λ b. Holds 4 b ((2, 12) ∷ [])) (ap returned (sym run ∙ first_set)) h

del_refines_example : Returns (del 2 one) (λ a. Holds 4 a (remove 2 ((2, 12) ∷ [])))
del_refines_example = del_refines 2 one-Holds (omega arith)

visit_lem_example : visit one.count one.head one.array ≡ done ((2, 12) ∷ [])
visit_lem_example = visit_lem one-Holds
