-- ===== src/Timer/Added.antt =====
-- `addTimer` and the updates behind it; and a new timer.
use gearkit.Base.Table.{put_other}
use gearkit.Base.{
  ℕ, zero, suc, ◌+◌, ◌-◌, ◌/◌, ◌%◌, ◌^◌, ◌≡◌, ◌≢◌, ◌<◌, ◌≤◌, refl, sym, ap, ◌∙◌, subst, arith, [],
  Bool, length, none, some, eq_refl, if◌then◌else◌, true, false, ltb, lt→ltb, le→ltb_false,
  ne_false,
}
use gearkit.Base.Run.{fault, Returns}
use gearkit.Map
use mathlib.Core.Option.{get_or}
use gearkit.Map.Lookup.{get-set}
use gearkit.Timer.Grow.{Called}
use gearkit.Timer.{
  timer_map_size, Node, Wheel, Timer, new, new_wheel, bits, insert, add_node, add_timer, step, turn,
  wheeling, update, updates,
}
use gearkit.Timer.Slots.{Have, slot_at, add_node-Grown, insert_slot_self, insert_slot_other}
use gearkit.Timer.Fire.{IsEnded, Waits, step_slots, step_pos}
use gearkit.Timer.OnTime.{Handled, updates_wait, updates_fire}

-- The chains end, no node has the number `id`, and the map has its chains and no handler for `id`.
pub record IsFree {H W : Type 0} (id : ℕ) (t : Timer H W) : Type 0 where
  pub ended : IsEnded t
  pub lacks : (i j : ℕ) → Have (λ k. k ≢ id) (slot_at t.wheels i j).nodes
  pub wide : length t.handler_map.vec ≡ timer_map_size
  pub unknown : Map.get timer_map_size t.handler_map id ≡ none

-- A delay of one byte goes on the first wheel.
first_wheel :
    (node : Node) (ws : ℕ → Wheel)
    → 0 < node.delay
    → node.delay ≤ 255
    → (add_node 4 node ws).1 ≡ insert 0 (((ws 0).pos + node.delay) % 256) node ws
unfolding add_node bits
first_wheel node ws pos small =
    let high : ltb 0 (node.delay / 256 ^ 3 % 256) ≡ false =
      le→ltb_false _ _ (omega (arith, small)) in
    let third : ltb 0 (node.delay / 256 ^ 2 % 256) ≡ false =
      le→ltb_false _ _ (omega (arith, small)) in
    let second : ltb 0 (node.delay / 256 ^ 1 % 256) ≡ false =
      le→ltb_false _ _ (omega (arith, small)) in
    let first : node.delay / 256 ^ 0 % 256 ≡ node.delay = omega (arith, small) in
    let test : ltb 0 node.delay ≡ true = lt→ltb _ _ pos in
    rw (add_node, bits, high, third, second, first, test) refl

module _ {H W : Type 0} (call : H → ℕ → W → Bool × W) where
  -- `handler` is called with `id` in the update number `delay`, and no handler is called with `id`
  -- before: the state is what a sequence of calls makes of it, none of them with `id` up to that
  -- update, and one of them the call of `handler` with `id` from then on. `call` is arbitrary, so the
  -- state may be the list of the calls that were made.
  pub record OnTime (handler : H) (id delay : ℕ) (t : Timer H W) : Type 0 where
    pub early : (m : ℕ) → m < delay → Returns (updates call m t) (Called call (λ n. n ≢ id) t)
    pub due : Returns (updates call delay t) (Handled call handler id t)

  Waits-OnTime :
      {handler : H} (id p delay : ℕ) (t : Timer H W)
      → Waits handler id p t
      → ((t.wheels 0).pos + delay) % 256 ≡ p
      → 0 < delay
      → delay ≤ 255
      → OnTime handler id delay t
  Waits-OnTime id p zero t w there pos small = absurd (omega (arith, pos))
  Waits-OnTime id p (suc d) t w there pos small = record {
    early = λ m less.
        let split : m + (suc d - m) ≡ suc d = omega (arith, less) in
        updates_wait call id p m (suc d - m) t w
          (ap (λ k. ((t.wheels 0).pos + k) % 256) split ∙ there) (omega (arith, less))
          (omega (arith, less, small));
    due = updates_fire call id p d t w there small;
  }

  -- The new number, and its node.
  abbrev pub next_id : Timer H W → ℕ
  next_id t = (t.id + 1) % 2 ^ 32

  abbrev next_node : ℕ → ℕ → Timer H W → Node
  next_node delay cycle t = record { id = next_id t; delay = delay; cycle = cycle }

  added_wheels :
      (delay cycle : ℕ) (handler : H) (t : Timer H W)
      → (add_timer delay handler cycle t).1.wheels
        ≡ (add_node 4 (next_node delay cycle t) t.wheels).1
  unfolding add_timer
  added_wheels delay cycle handler t = refl

  added_known :
      (delay cycle : ℕ) (handler : H) (t : Timer H W)
      → IsFree (next_id t) t
      → Map.get timer_map_size (add_timer delay handler cycle t).1.handler_map (next_id t)
        ≡ some handler
  unfolding add_timer
  added_known delay cycle handler t free =
      let id = next_id t in
      get-set t.handler_map id id handler (omega arith) free.wide
      ∙ ap
          (λ b.
            if b
            then some (get_or (Map.get timer_map_size t.handler_map id) handler)
            else Map.get timer_map_size t.handler_map id)
          (eq_refl id)
      ∙ ap (λ o. some (get_or o handler)) free.unknown

  added-Waits :
      (delay cycle p : ℕ) (handler : H) (t : Timer H W)
      → IsFree (next_id t) t
      → 0 < delay
      → delay ≤ 255
      → p ≡ ((t.wheels 0).pos + delay) % 256
      → Waits handler (next_id t) p (add_timer delay handler cycle t).1
  added-Waits delay cycle p handler t free pos small e =
      let node = next_node delay cycle t in
      let P : ℕ → Type 0 = λ k. Unit in
      let ws : (add_timer delay handler cycle t).1.wheels ≡ insert 0 p node t.wheels =
        added_wheels delay cycle handler t
        ∙ first_wheel node t.wheels pos small
        ∙ ap (λ k. insert 0 k node t.wheels) (sym e) in
      let grown = add_node-Grown P node tt 4 t.wheels in
      record {
        before = [];
        node = node;
        after = (slot_at t.wheels 0 p).nodes;
        here =
            ap (λ v. (slot_at v 0 p).nodes) ws
            ∙ ap (λ s. s.nodes) (insert_slot_self P node tt 0 p t.wheels);
        named = refl;
        others = λ i j off.
            subst (λ s. Have (λ k. k ≢ next_id t) s.nodes)
              (sym (ap (λ v. slot_at v i j) ws ∙ insert_slot_other P node tt 0 p t.wheels i j off))
              (free.lacks i j);
        ended = λ i j.
            ap (λ v. (slot_at v i j).ends) (added_wheels delay cycle handler t)
            ∙ (grown.slots i j).ends
            ∙ free.ended i j;
        known = added_known delay cycle handler t free;
      }

  -- In a timer whose chains end and that has neither a node nor a handler for the next number, a
  -- handler that `addTimer` gets with a delay from 1 to 255 is called with that number in the update
  -- with the number of the delay, counted from `addTimer` on, and no handler is called with it before;
  -- and these updates come to their end, whatever other timers there are and however the wheels stand.
  pub add_timer-OnTime :
      (delay cycle : ℕ) (handler : H) (t : Timer H W)
      → IsFree (next_id t) t
      → 0 < delay
      → delay ≤ 255
      → OnTime handler (next_id t) delay (add_timer delay handler cycle t).1
  add_timer-OnTime delay cycle handler t free pos small =
      let t' = (add_timer delay handler cycle t).1 in
      let grown = add_node-Grown (λ k. Unit) (next_node delay cycle t) tt 4 t.wheels in
      let same : (t'.wheels 0).pos ≡ (t.wheels 0).pos =
        ap (λ v. (v 0).pos) (added_wheels delay cycle handler t) ∙ grown.pos 0 in
      Waits-OnTime (next_id t) (((t.wheels 0).pos + delay) % 256) delay t'
        (added-Waits delay cycle (((t.wheels 0).pos + delay) % 256) handler t free pos small refl)
        (ap (λ k. (k + delay) % 256) same) pos small

  fault_lem :
      (t : Timer H W)
      → (slot_at (step call 0 t).wheels 0 ((step call 0 t).wheels 0).pos).ends ≡ false
      → update call t ≡ fault
  unfolding update wheeling turn
  fault_lem t e = rw (update, wheeling, turn, e) refl

  new_slot :
      (memory : ℕ → Wheel) (state : W) (j : ℕ)
      → j ≢ 0
      → slot_at (new {H = H} memory state).wheels 0 j ≡ (memory 0).nodes j
  unfolding new_wheel new
  new_slot memory state j ne = put_other 0 _ (memory 0).nodes j (ne_false ne)

  new_pos :
      (memory : ℕ → Wheel) (state : W) → ((new {H = H} memory state).wheels 0).pos ≡ (memory 0).pos
  unfolding new_wheel new
  new_pos memory state = refl

  -- The constructor clears the first place of each wheel only, and not `pos`: where the memory of a new
  -- timer has a pointer that nobody set at the place behind `pos`, and that is not the first, the first
  -- `update` follows it.
  pub new_faults :
      (memory : ℕ → Wheel) (state : W)
      → ((memory 0).pos + 1) % 256 ≢ 0
      → ((memory 0).nodes (((memory 0).pos + 1) % 256)).ends ≡ false
      → update call (new memory state) ≡ fault
  new_faults memory state ne wild =
      let t : Timer H W = new memory state in
      let place : ((step call 0 t).wheels 0).pos ≡ ((memory 0).pos + 1) % 256 =
        step_pos call 0 t ∙ ap (λ k. (k + 1) % 256) (new_pos memory state) in
      fault_lem t (
        ap (λ s. s.ends) (step_slots call 0 t 0 ((step call 0 t).wheels 0).pos)
        ∙ ap (λ k. (slot_at t.wheels 0 k).ends) place
        ∙ ap (λ s. s.ends) (new_slot memory state (((memory 0).pos + 1) % 256) ne)
        ∙ wild)
