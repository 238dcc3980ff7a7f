-- ===== src/State.antt =====
-- kit/State.h and kit/State.cpp, class StateMgr: the current state among those that are registered.
pub mod Reach
mod Tests
use gearkit.Base.{ℕ, ◌-◌, ◌^◌, List, [], ◌∷◌, ◌++◌, Option, none, some, Bool, ◌==◌}
use gearkit.Base.Run.{Run, done, fault}
use gearkit.Map.{Map}
use gearkit.Map

-- KIT_STATE_LENGTH
abbrev pub kit_state_length : ℕ
kit_state_length = 16

-- What is called on a state, or set in it, by the state's address.
pub data Call : Type 0 where
  on off update_call retain release set_mgr : ℕ → Call

-- -1 as the bits of an `int`.
abbrev pub minus_one : ℕ
minus_one = 2 ^ 32 - 1

-- The members, and the calls so far. `none` is nullptr. `state_id` and the argument of `is_state` are the
-- bits of an `int`; the other state numbers are keys of the map, which are not negative.
pub record StateMgr : Type 0 where
  pub state : Option ℕ
  pub state_id : ℕ
  pub state_map : Map ℕ
  pub calls : List Call

unfoldable pub new : StateMgr
new = record {
  state = none;
  state_id = minus_one;
  state_map = Map.new kit_state_length;
  calls = [];
}

-- `state_none` is the address of the `new StateNone()`.
unfoldable pub base_init : ℕ → StateMgr → StateMgr
base_init state_none m = record m { state = some state_none }

unfoldable pub is_state : ℕ → StateMgr → Bool
is_state id m = m.state_id == id

-- `state_->off(); state_->mgr_ = this; state->on(); state_ = state;`
unfoldable pub change : Option ℕ → ℕ → StateMgr → Run StateMgr
change none next m = fault
change (some now) next m =
    done (record m { state = some next; calls = m.calls ++ (off now ∷ set_mgr now ∷ on next ∷ []) })

unfoldable pub set_state : ℕ → StateMgr → Run StateMgr
unfolding change
set_state id m = elim (Map.get kit_state_length m.state_map id) [
  | none ↦ done m
  | some next ↦ change m.state next m
]

-- The callback of `del`, where it is called.
unfoldable pub released : Option ℕ → List Call → List Call
released none calls = calls
released (some s) calls = calls ++ (release s ∷ [])

unfoldable pub unregister_state : ℕ → StateMgr → StateMgr
unfolding released
unregister_state id m =
    let r = Map.del kit_state_length id m.state_map in
    record m { state_map = r.2; calls = released r.1 m.calls }

unfoldable pub register_state : ℕ → ℕ → StateMgr → StateMgr
unfolding unregister_state
register_state id s m =
    let m' = unregister_state id m in
    record m' {
      state_map = Map.set kit_state_length id s m'.state_map;
      calls = m'.calls ++ (retain s ∷ []);
    }

-- `state_->update()`
unfoldable pub update_state : Option ℕ → StateMgr → Run StateMgr
update_state none m = fault
update_state (some now) m = done (record m { calls = m.calls ++ (update_call now ∷ []) })

unfoldable pub update : StateMgr → Run StateMgr
unfolding update_state
update m = update_state m.state m
