-- ===== src/QList/Tests.antt =====
-- A queue with a ring of two slots, and the theorem at a concrete input.
use gearkit.Base.{ℕ, ◌≡◌, refl, arith, List, [], ◌∷◌}
use gearkit.Base.Run.{done}
use gearkit.LinkedList.{Heap}
use gearkit.Queue.Fifo.{Op, put, get, peek}
use gearkit.QList.{new, run}
use gearkit.QList.Refine.{unbounded, run-unbounded}

abbrev heap : Heap ℕ
heap = []

abbrev calls : List (Op ℕ)
calls = put 1 ∷ put 2 ∷ put 3 ∷ get ∷ put 4 ∷ get ∷ get ∷ peek ∷ get ∷ get ∷ []

run-unbounded_example : run 2 (new (0 ∷ 0 ∷ []) heap) calls ≡ done (unbounded [] calls)
run-unbounded_example = run-unbounded 2 (0 ∷ 0 ∷ []) heap calls (omega arith) refl (omega arith)
