-- ===== src/Queue/Tests.antt =====
-- Runs of the ring, and the theorems at concrete inputs.
use gearkit.Base.{ℕ, ◌≡◌, refl, arith, List, [], ◌∷◌, none, some, true, false}
use gearkit.Queue.{Queue, new, pop, push, front, run}
use gearkit.Queue.Fifo
use gearkit.Queue.Fifo.{Op, put, get, peek}
use gearkit.Queue.Inv.{IsValid}
use gearkit.Queue.Refine.{run-new}

abbrev slots : List ℕ
slots = 0 ∷ 0 ∷ 0 ∷ []

-- Round the end of the array: 8, then 9.
abbrev wrapped : Queue ℕ
wrapped = record { count = 2; head = 2; tail = 1; que = 9 ∷ 7 ∷ 8 ∷ [] }

abbrev script : List (Op ℕ)
script = put 1 ∷ put 2 ∷ get ∷ put 3 ∷ put 4 ∷ put 5 ∷ peek ∷ get ∷ get ∷ get ∷ get ∷ []

wrapped-IsValid : IsValid 3 wrapped
wrapped-IsValid = omega arith

script_replies :
    run 3 (new slots) script
    ≡ (true, none)
      ∷ (true, none)
      ∷ (true, some 1)
      ∷ (true, none)
      ∷ (true, none)
      ∷ (false, none)
      ∷ (true, some 2)
      ∷ (true, some 2)
      ∷ (true, some 3)
      ∷ (true, some 4)
      ∷ (false, none)
      ∷ []
unfolding run new push pop front
script_replies = refl

run-new_example : run 3 (new slots) script ≡ Fifo.run 3 [] script
run-new_example = run-new slots script (omega arith) refl
