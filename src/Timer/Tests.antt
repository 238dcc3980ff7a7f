-- ===== src/Timer/Tests.antt =====
-- A timer whose first wheel is near its end, one in memory that was not cleared, and the theorems at
-- concrete inputs.
use gearkit.Base.{length, ℕ, List, ◌∷◌, ◌++◌, ◌≡◌, refl, arith, [], Bool, true, false}
use gearkit.Base.Run.{fault}
use gearkit.Map
use gearkit.Map.Clear.{new-IsValid, get-new}
use gearkit.Timer.{Wheel, Timer, null, timer_map_size, new, add_timer, update}
use gearkit.Timer.Added.{OnTime, add_timer-OnTime, new_faults}

-- A handler is a number, and the state is the list of the calls that were made.
abbrev note : ℕ → ℕ → List (ℕ × ℕ) → Bool × List (ℕ × ℕ)
note handler id calls = (true, calls ++ ((handler, id) ∷ []))

abbrev near_end : Wheel
near_end = record { pos = 250; nodes = λ j. null }

abbrev idle : Timer ℕ (List (ℕ × ℕ))
idle = record { id = 6; wheels = λ i. near_end; handler_map = Map.new timer_map_size; state = [] }

width : length idle.handler_map.vec ≡ timer_map_size
width = let v = new-IsValid timer_map_size in v.width

add_timer-OnTime_example : OnTime note 5 7 20 (add_timer 20 5 0 idle).1
add_timer-OnTime_example =
    add_timer-OnTime note 20 0 5 idle
      (record {
        ended = λ i j. refl;
        lacks = λ i j. tt;
        wide = width;
        unknown = get-new timer_map_size 7;
      })
      (omega arith) (omega arith)

abbrev wild : ℕ → Wheel
wild i = record { pos = 9; nodes = λ j. record { nodes = []; ends = false } }

new_faults_example : update note (new wild []) ≡ fault
new_faults_example = new_faults note wild [] (omega arith) refl
