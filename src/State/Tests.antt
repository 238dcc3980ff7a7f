-- ===== src/State/Tests.antt =====
-- Two states, and the theorem at a concrete input.
use gearkit.Base.{◌≡◌, ◌==◌, arith}
use gearkit.Base.Run.{Returns}
use gearkit.State.{StateMgr, minus_one, new, base_init, register_state, is_state, set_state, update}
use gearkit.State.Reach.{Reachable, created, registered, is_state-minus_one}

abbrev manager : StateMgr
manager = register_state 2 102 (register_state 1 101 (base_init 100 new))

manager-Reachable : Reachable 100 manager
manager-Reachable = registered 2 102 (omega arith) (registered 1 101 (omega arith) created)

is_state-minus_one_example :
    (is_state 1 manager ≡ (1 == minus_one))
    × Returns (set_state 1 manager) (Reachable 100)
    × Returns (update manager) (Reachable 100)
is_state-minus_one_example = is_state-minus_one 100 1 1 manager manager-Reachable (omega arith)
