-- ===== src/Gear/Tests.antt =====
-- Frames of sixteen milliseconds, and the theorems at concrete inputs.
use gearkit.Base.{◌<◌, ◌≡◌, refl, arith, true}
use gearkit.Gear.{Gear, new, begin, tick, spare_at, pay_wait, idle, main_loop}
use gearkit.Gear.Timing.{main_loop_lem}

abbrev started : Gear
started = record {
  frame = 0;
  frame_rate = 60;
  frame_msec = 16;
  valid = true;
  begine_time = 984;
  wait_time = 0;
}

first_frame : begin 1000 new ≡ started
unfolding begin new
first_frame = refl

some_sleep : 0 < (main_loop (λ n. n) 1005 started).slept
unfolding main_loop tick spare_at pay_wait idle
some_sleep = omega arith

abbrev owing : Gear
owing = record started { wait_time = 3 }

main_loop_lem_example :
    let f = main_loop (λ n. n) 990 owing in
    (f.slept ≡ 10) × (f.cleared ≡ true) × (f.gear.wait_time ≡ 0) × (f.gear.begine_time ≡ 1000)
main_loop_lem_example = main_loop_lem (λ n. n) 990 owing
