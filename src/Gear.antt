-- ===== src/Gear.antt =====
-- Gear.h and Gear.cpp, class Gear: the frame clock of the main loop.
pub mod Timing
mod Tests
use gearkit.Base.{
  ℕ, ◌+◌, ◌-◌, ◌/◌, ◌%◌, ◌^◌, Bool, true, false, Option, none, some, ltb, leb, ◌==◌, if◌then◌else◌,
}

-- `uint32_t` of the clock and of the members.
abbrev pub word_mod : ℕ
word_mod = 2 ^ 32

abbrev pub add_word : ℕ → ℕ → ℕ
add_word a b = (a + b) % word_mod

abbrev pub sub_word : ℕ → ℕ → ℕ
sub_word a b = (a + word_mod - b) % word_mod

-- The members that the methods of Gear.cpp use; `begine_time` is the source's spelling.
pub record Gear : Type 0 where
  pub frame : ℕ
  pub frame_rate : ℕ
  pub frame_msec : ℕ
  pub valid : Bool
  pub begine_time : ℕ
  pub wait_time : ℕ

abbrev pub default_frame_rate : ℕ
default_frame_rate = 60

-- The constructor.
unfoldable pub new : Gear
new = record {
  frame = 0;
  frame_rate = default_frame_rate;
  frame_msec = 1000 / default_frame_rate;
  valid = false;
  begine_time = 0;
  wait_time = 0;
}

-- `now` is what `kit::time()` returns.
unfoldable pub begin : ℕ → Gear → Gear
begin now g = record g { begine_time = sub_word now g.frame_msec; valid = true }

pub stop : Gear → Gear
stop g = record g { valid = false }

-- `none` is the division by zero.
pub set_frame_rate : ℕ → Gear → Option Gear
set_frame_rate rate g =
    if rate == 0 then none else some (record g { frame_rate = rate; frame_msec = 1000 / rate })

-- The first part of `mainLoop`: the frame's start, its number, and after `logic()` the spare time at
-- `end_time`.
unfoldable pub tick : Gear → Gear
tick g = record g { begine_time = add_word g.begine_time g.frame_msec; frame = add_word g.frame 1 }

unfoldable pub spare_at : ℕ → Gear → ℕ × Gear
spare_at end_time g =
    if ltb g.begine_time end_time
    then (let passed = end_time - g.begine_time in
        if leb passed g.frame_msec
        then (g.frame_msec - passed, g)
        else (0, record g { wait_time = passed - g.frame_msec }))
    else (g.begine_time - end_time, g)

-- `if (wait_time_ > 0)`: in the last branch `wait_time_` is reset before it is subtracted.
unfoldable pub pay_wait : ℕ × Gear → ℕ × Gear
pay_wait (spare, g) =
    if ltb 0 g.wait_time
    then (if leb spare g.wait_time
        then (0, record g { wait_time = g.wait_time - spare })
        else (let g' = record g { wait_time = 0 } in (spare - g'.wait_time, g')))
    else (spare, g)

-- What one frame does besides `logic()`.
pub record Frame : Type 0 where
  pub gear : Gear
  -- The argument of `kit::sleep`, 0 where it is not called.
  pub slept : ℕ
  -- Whether the autorelease pool was cleared.
  pub cleared : Bool

-- `spare_logic` is the virtual method `spareLogic`.
unfoldable pub idle : (ℕ → ℕ) → ℕ × Gear → Frame
idle spare_logic (spare, g) =
    if ltb 0 spare
    then record { gear = g; slept = spare_logic spare; cleared = true }
    else record { gear = g; slept = 0; cleared = false }

-- `mainLoop` with `end_time` for the value of `kit::time()` after `logic()`.
unfoldable pub main_loop : (ℕ → ℕ) → ℕ → Gear → Frame
main_loop spare_logic end_time g = idle spare_logic (pay_wait (spare_at end_time (tick g)))
