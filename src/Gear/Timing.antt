-- ===== src/Gear/Timing.antt =====
-- How long a frame sleeps, and what becomes of lost time.
use gearkit.Base.{ℕ, ◌+◌, ◌-◌, ◌≤◌, ◌<◌, ◌≡◌, refl, ◌∙◌, arith, false, ltb, if◌then◌else◌}
use gearkit.Gear.{Gear, add_word, tick, spare_at, pay_wait, idle, main_loop}

-- The time that a frame has left at `end_time`, if it started at `start` and its slot is `msec` long.
spare_lem :
    (end_time : ℕ) (g : Gear)
    → let (spare, g') = spare_at end_time g in
      (0 < spare → end_time + spare ≤ g.begine_time + g.frame_msec)
      × (g'.begine_time ≡ g.begine_time)
      × (g.begine_time + g.frame_msec < end_time
          → (spare ≡ 0) × (g'.wait_time ≡ end_time - g.begine_time - g.frame_msec))
      × (end_time ≤ g.begine_time + g.frame_msec → g'.wait_time ≡ g.wait_time)
unfolding spare_at
spare_lem end_time g = ground arith

pay_lem :
    (spare : ℕ) (g : Gear)
    → let (spare', g') = pay_wait (spare, g) in
      (spare' ≤ spare)
      × (g'.begine_time ≡ g.begine_time)
      × (g'.wait_time ≡ g.wait_time - spare)
      × (spare ≤ g.wait_time → spare' ≡ 0)
      × (g.wait_time < spare → spare' ≡ spare)
unfolding pay_wait
pay_lem spare g = ground arith

tick_lem :
    (g : Gear)
    → ((tick g).begine_time ≡ add_word g.begine_time g.frame_msec)
      × ((tick g).frame_msec ≡ g.frame_msec)
unfolding tick
tick_lem g = (refl, refl)

idle_lem :
    (spare_logic : ℕ → ℕ) (p : ℕ × Gear)
    → ((n : ℕ) → spare_logic n ≤ n)
    → ((idle spare_logic p).slept ≤ p.0) × ((idle spare_logic p).gear.begine_time ≡ p.1.begine_time)
unfolding idle
idle_lem spare_logic (spare, g) less = ground (arith, less spare)

-- Where `spareLogic` returns no more than it is given, a frame that sleeps does not sleep beyond the
-- end of its time slot, which starts at the new `begine_time` and is `frame_msec` long.
pub main_loop_slot :
    (spare_logic : ℕ → ℕ) (end_time : ℕ) (g : Gear)
    → ((n : ℕ) → spare_logic n ≤ n)
    → 0 < (main_loop spare_logic end_time g).slept
    → let f = main_loop spare_logic end_time g in
      (end_time + f.slept ≤ f.gear.begine_time + g.frame_msec)
      × (f.gear.begine_time ≡ add_word g.begine_time g.frame_msec)
unfolding main_loop
main_loop_slot spare_logic end_time g less slept =
    let g' = tick g in
    let (start, msec) = tick_lem g in
    let (slot, kept, _, _) = spare_lem end_time g' in
    let (fewer, same, _, _, _) = pay_lem (spare_at end_time g').0 (spare_at end_time g').1 in
    let (still, last) = idle_lem spare_logic (pay_wait (spare_at end_time g')) less in
    let some_spare : 0 < (spare_at end_time g').0 = omega arith in
    (omega (arith, slot some_spare), last ∙ same ∙ kept ∙ start)

-- A frame that ends after its slot does not sleep and does not clear the pool, and the lost time is
-- all that is waited for from then on.
pub main_loop_overrun :
    (spare_logic : ℕ → ℕ) (end_time : ℕ) (g : Gear)
    → add_word g.begine_time g.frame_msec + g.frame_msec < end_time
    → let start = add_word g.begine_time g.frame_msec in
      let f = main_loop spare_logic end_time g in
      (f.slept ≡ 0) × (f.cleared ≡ false) × (f.gear.wait_time ≡ end_time - start - g.frame_msec)
unfolding main_loop tick spare_at pay_wait idle
main_loop_overrun spare_logic end_time g late = ground arith

-- One frame, whatever the clock says. Its slot starts at the new `begine_time` and is `frame_msec`
-- long. Its spare time is the rest of the slot after `end_time`, or where `end_time` is not behind
-- the start the time up to the start; and the lost time is `wait_time_`, or where the frame ends after
-- its slot the time since the slot's end. Where the lost time is below the spare time, the whole spare
-- time goes to `spareLogic`, none of the lost time taken off, and the pool is cleared; otherwise the
-- frame neither sleeps nor clears the pool. The lost time that remains is the lost time less the spare
-- time, not below 0.
pub main_loop_lem :
    (spare_logic : ℕ → ℕ) (end_time : ℕ) (g : Gear)
    → let start = add_word g.begine_time g.frame_msec in
      let lost =
        if ltb (start + g.frame_msec) end_time
        then end_time - start - g.frame_msec
        else g.wait_time in
      let spare =
        if ltb start end_time then start + g.frame_msec - end_time else start - end_time in
      let f = main_loop spare_logic end_time g in
      (f.slept ≡ (if ltb lost spare then spare_logic spare else 0))
      × (f.cleared ≡ ltb lost spare)
      × (f.gear.wait_time ≡ lost - spare)
      × (f.gear.begine_time ≡ start)
unfolding main_loop tick spare_at pay_wait idle
main_loop_lem spare_logic end_time g = ground arith
