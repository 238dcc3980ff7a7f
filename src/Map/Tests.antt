-- ===== src/Map/Tests.antt =====
-- Runs of the map, and the theorems at concrete inputs.
use gearkit.Base.{ℕ, ◌<◌, ◌≡◌, refl, arith, [], ◌∷◌, none, some, ◌==◌, if◌then◌else◌}
use mathlib.Core.List.{Mem}
use mathlib.Core.Option.{get_or}
use gearkit.Map.{Map, new, has, get, set, del, clear, chain_at}
use gearkit.Map.Items.{find, occurs, link, unlink}
use gearkit.Map.Reach.{set_call, del_call, clear_call, run, run-IsValid}
use gearkit.Map.Inv.{IsValid, set-IsValid}
use gearkit.Map.Lookup.{get-set}
use gearkit.Map.Del.{loses, del_lem, del_loses}
use gearkit.Map.Clear.{new-IsValid, clear_lem}

-- A line for what a test of the map unfolds.
program : Unit {0}
unfolding new has get set del clear chain_at find occurs link unlink
program = tt

abbrev stored : Map ℕ
stored = set 4 9 90 (set 4 6 60 (set 4 5 50 (new 4)))

-- 5 and 9 share a chain of the four; a second `set` of 6 does not change its value.
run_stored :
    (get 4 (set 4 6 61 stored) 6 ≡ some 60)
    × (get 4 stored 9 ≡ some 90)
    × (get 4 (del 4 9 stored).2 5 ≡ some 50)
    × (get 4 (del 4 5 stored).2 9 ≡ none)
    × ((clear stored).0 ≡ 50 ∷ 90 ∷ 60 ∷ [])
unfolding program
run_stored = (refl, refl, refl, refl, refl)

four : 0 < 4
four = omega arith

stored-IsValid : IsValid 4 stored
stored-IsValid =
    set-IsValid four 9 90 (set-IsValid four 6 60 (set-IsValid four 5 50 (new-IsValid 4)))

run-IsValid_example :
    IsValid {V = ℕ} 4 (run 4 (new 4) (set_call 5 50 ∷ set_call 9 90 ∷ del_call 5 ∷ clear_call ∷ []))
run-IsValid_example =
    run-IsValid 4 (set_call 5 50 ∷ set_call 9 90 ∷ del_call 5 ∷ clear_call ∷ []) four

del_lem_example :
    ((del 4 5 stored).0 ≡ has 4 stored 5)
    × ((del 4 5 stored).1 ≡ get 4 stored 5)
    × (get 4 (del 4 5 stored).2 6
        ≡ (if loses 4 stored 5 6 then none else if 5 == 6 then none else get 4 stored 6))
del_lem_example = del_lem 5 6 four stored-IsValid

get-set_example :
    get 4 (set 4 6 61 stored) 6
    ≡ (if 6 == 6 then some (get_or (get 4 stored 6) 61) else get 4 stored 6)
get-set_example = get-set stored 6 6 61 four stored-IsValid.width

del_loses_example :
    let m : Map ℕ = set 4 9 90 (set 4 5 50 (new 4)) in
    (get 4 m 5 ≡ some 50) × (get 4 m 9 ≡ some 90) × (get 4 (del 4 5 m).2 9 ≡ none)
unfolding new chain_at
del_loses_example = del_loses {m = new 4} 5 9 50 90 four (new-IsValid 4) (omega arith) refl refl

clear_lem_example :
    IsValid 4 (clear stored).1
    × (get 4 (clear stored).1 6 ≡ none)
    × (get 4 stored 6 ≡ some 60 → Mem 60 (clear stored).0)
clear_lem_example = clear_lem stored 6 60 stored-IsValid
