-- ===== src/Timer.antt =====
-- kit/Timer.h and kit/Timer.cpp, class Timer: nodes on four wheels, one for each byte of the delay.
pub mod Slots
pub mod Grow
pub mod Fire
pub mod Turn
pub mod OnTime
pub mod Added
mod Tests
use gearkit.Base.Table.{put}
use gearkit.Base.{
  ℕ, zero, suc, ◌+◌, ◌*◌, ◌/◌, ◌%◌, ◌^◌, List, [], ◌∷◌, Option, none, some, Bool, true, false, ltb,
  ◌==◌, ◌&&◌, if◌then◌else◌,
}
use gearkit.Base.Run.{Run, done, fault, ◌>>=◌}
use gearkit.Map.{Map}
use gearkit.Map

-- TIMER_MAP_SIZE
abbrev pub timer_map_size : ℕ
timer_map_size = 512

pub record Node : Type 0 where
  pub id : ℕ
  pub delay : ℕ
  pub cycle : ℕ

-- A pointer to a chain of nodes. Its last pointer is NULL, or with `ends` false one that nobody set.
pub record Slot : Type 0 where
  pub nodes : List Node
  pub ends : Bool

-- `pos` is a `uint8_t` and no place of `nodes` from 256 on is used, so an index never leaves the array.
pub record Wheel : Type 0 where
  pub pos : ℕ
  pub nodes : ℕ → Slot

abbrev pub null : Slot
null = record { nodes = []; ends = true }

-- The constructor of a wheel in memory that holds `w`: `memset` clears `sizeof(Node*)` bytes, the first
-- pointer.
unfoldable pub new_wheel : Wheel → Wheel
unfolding put
new_wheel w = record w { nodes = put 0 null w.nodes }

-- `bits[index]`, where the low byte stands first.
unfoldable pub bits : ℕ → ℕ → ℕ
bits index delay = delay / 256 ^ index % 256

-- `node->next = wheel.nodes[pos]; wheel.nodes[pos] = node`
unfoldable pub insert : ℕ → ℕ → Node → (ℕ → Wheel) → ℕ → Wheel
unfolding put
insert index pos node wheels =
    let wheel = wheels index in
    let slot = wheel.nodes pos in
    let grown : Slot = record slot { nodes = node ∷ slot.nodes } in
    put index (record wheel { nodes = put pos grown wheel.nodes }) wheels

-- `add_node (suc index)` is `addNode(index)`, and 0 stands for the index 255, which is 0 less 1.
unfoldable pub add_node : ℕ → Node → (ℕ → Wheel) → Bool × (ℕ → Wheel)
unfolding bits insert
add_node zero node wheels = (false, wheels)
add_node (suc index) node wheels =
    let pos = bits index node.delay in
    let below = add_node index node wheels in
    if ltb 0 pos then (true, insert index (((wheels index).pos + pos) % 256) node wheels) else below

-- The members, and the state that the handlers work on.
pub record Timer (H W : Type 0) : Type 0 where
  pub id : ℕ
  pub wheels : ℕ → Wheel
  pub handler_map : Map H
  pub state : W

module _ {H W : Type 0} where
  pub new : (ℕ → Wheel) → W → Timer H W
  unfolding new_wheel
  new memory state = record {
    id = 0;
    wheels = λ index. new_wheel (memory index);
    handler_map = Map.new timer_map_size;
    state = state;
  }

  -- `++id_` of a `uint32_t`.
  unfoldable pub add_timer : ℕ → H → ℕ → Timer H W → ℕ × Timer H W
  unfolding add_node
  add_timer delay handler cycle t =
      let id = (t.id + 1) % 2 ^ 32 in
      let node : Node = record { id = id; delay = delay; cycle = cycle } in
      (
        id,
        record t {
          id = id;
          wheels = (add_node 4 node t.wheels).1;
          handler_map = Map.set timer_map_size id handler t.handler_map;
        },
      )

  pub del_timer : ℕ → Timer H W → Timer H W
  del_timer id t = record t { handler_map = (Map.del timer_map_size id t.handler_map).2 }

  -- A handler's number is what it is called with; it answers true to end its cycle.
  module _ (call : H → ℕ → W → Bool × W) where
    unfoldable pub handle_timer : ℕ → Timer H W → Bool × Timer H W
    handle_timer id t = elim (Map.get timer_map_size t.handler_map id) [
      | none ↦ (true, t)
      | some handler ↦
          let (ret, state) = call handler id t.state in (ret, record t { state = state })
    ]

    -- Where `addNode` found no place.
    unfoldable pub fire : Node → Timer H W → Timer H W
    unfolding handle_timer add_node
    fire p t =
        let (ret, t') = handle_timer p.id t in
        let again : Node = record p { delay = p.cycle } in
        if ret
        then t'
        else if ltb 0 p.cycle
        then record t' { wheels = (add_node 4 again t'.wheels).1 }
        else t'

    -- The body of the loop over the nodes of a slot.
    unfoldable pub visit : ℕ → Node → Timer H W → Timer H W
    unfolding fire add_node
    visit index p t =
        let (placed, wheels) = add_node index p t.wheels in
        if placed then record t { wheels = wheels } else fire p t

    unfoldable pub visit_all : ℕ → List Node → Timer H W → Timer H W
    unfolding visit
    visit_all index [] t = t
    visit_all index (p ∷ ps) t = visit_all index ps (visit index p t)

    -- `++wheel.pos`
    unfoldable pub step : ℕ → Timer H W → Timer H W
    unfolding put
    step index t =
        let wheel = t.wheels index in
        record t { wheels = put index (record wheel { pos = (wheel.pos + 1) % 256 }) t.wheels }

    -- `wheel.nodes[wheel.pos] = NULL`
    unfoldable pub clear_slot : ℕ → Timer H W → Timer H W
    unfolding put
    clear_slot index t =
        let wheel = t.wheels index in
        record t {
          wheels = put index (record wheel { nodes = put wheel.pos null wheel.nodes }) t.wheels;
        }

    -- The loop over the slot at `pos`: behind its last node it follows the last pointer.
    unfoldable pub turn : ℕ → Timer H W → Run (Timer H W)
    unfolding step visit_all clear_slot
    turn index t =
        let t' = step index t in
        let slot = (t'.wheels index).nodes (t'.wheels index).pos in
        elim slot.ends [
          | false ↦ fault
          | true ↦ done (clear_slot index (visit_all index slot.nodes t'))
        ]

    -- `wheeling`, with as many wheels behind it as `rest`.
    unfoldable pub wheeling : ℕ → ℕ → Timer H W → Run (Timer H W)
    unfolding turn
    wheeling zero index t = turn index t
    wheeling (suc rest) index t = turn index t >>= λ t'. elim ((t'.wheels index).pos == 0) [
      | false ↦ done t'
      | true ↦ wheeling rest (suc index) t'
    ]

    unfoldable pub update : Timer H W → Run (Timer H W)
    unfolding wheeling
    update t = wheeling 3 0 t

    -- Updates one behind the other.
    unfoldable pub updates : ℕ → Timer H W → Run (Timer H W)
    unfolding update
    updates zero t = done t
    updates (suc n) t = update t >>= λ t'. updates n t'
