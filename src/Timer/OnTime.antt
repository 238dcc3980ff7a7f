-- ===== src/Timer/OnTime.antt =====
-- A timer with a delay below 256: the update in which it is handled.
use mathlib.Core.List.{append_assoc}
use gearkit.Base.{
  ℕ, zero, suc, ◌+◌, ◌%◌, ◌≡◌, ◌≢◌, ◌<◌, ◌≤◌, inl, inr, refl, sym, ap, ◌∙◌, arith, List, [], ◌∷◌,
  ◌++◌, Bool, Bool-cases, ◌==◌,
}
use gearkit.Base.Run.{done, Returns, ◌>>=◌}
use gearkit.Map.{Map}
use gearkit.Map
use gearkit.Timer.{timer_map_size, Node, Timer, step, clear_slot, turn, wheeling, update, updates}
use gearkit.Timer.Slots.{Have, slot_at}
use gearkit.Timer.Grow.{
  replay, replay-append, call_of, calls_of, Called, Called-trans, visit_all-Grown, visit_all_fires,
}
use gearkit.Timer.Fire.{IsEnded, Waits, cleared-Ran, step_map, step_slots, step_pos}
use gearkit.Timer.Turn.{visited, middle, turn_run, cleared-IsEnded, cleared-Called, update-Waits}

Have-all : (l : List Node) → Have (λ k. Unit) l
Have-all [] = tt
Have-all (n ∷ l) = (tt, Have-all l)

module _ {H W : Type 0} (call : H → ℕ → W → Bool × W) where
  -- The chains end still, and more handlers were called.
  record Went (t t' : Timer H W) : Type 0 where
    pub ended : IsEnded t'
    pub called : Called call (λ k. Unit) t t'

  -- The handler was called with the number, among others.
  abbrev pub Handled : H → ℕ → Timer H W → Timer H W → Type 0
  Handled handler id t t' =
      (l m : List (H × ℕ)) × (t'.state ≡ replay call (l ++ ((handler, id) ∷ m)) t.state)

  turn-Went : (index : ℕ) (t : Timer H W) → IsEnded t → Returns (turn call index t) (Went t)
  turn-Went index t ended =
      let P : ℕ → Type 0 = λ k. Unit in
      let g =
        visit_all-Grown call P index (visited call index t) (step call index t)
          (Have-all (visited call index t)) in
      (
        clear_slot call index (middle call index t),
        turn_run call index t ended,
        record {
          ended = cleared-IsEnded call P index t (middle call index t) ended g;
          called = cleared-Called call P index t (middle call index t) g;
        },
      )

  wheeling-Went :
      (rest index : ℕ) (t : Timer H W) → IsEnded t → Returns (wheeling call rest index t) (Went t)
  unfolding wheeling
  wheeling-Went zero index t ended = turn-Went index t ended
  wheeling-Went (suc rest) index t ended =
      let (t', run, w) = turn-Went index t ended in
      elim (Bool-cases ((t'.wheels index).pos == 0)) [
        | inr stays ↦ (t', rw (wheeling, run, ◌>>=◌, stays) refl, w)
        | inl wraps ↦
            let (u, run', v) = wheeling-Went rest (suc index) t' w.ended in
            (
              u,
              rw (wheeling, run, ◌>>=◌, wraps) run',
              record {
                ended = v.ended;
                called = Called-trans call (λ k. Unit) t t' u w.called v.called;
              },
            )
      ]

  calls-append :
      (map : Map H) (l m : List Node)
      → calls_of call map (l ++ m) ≡ calls_of call map l ++ calls_of call map m
  calls-append map [] m = refl
  calls-append map (n ∷ l) m =
      let first = call_of call (Map.get timer_map_size map n.id) n.id in
      ap (λ k. first ++ k) (calls-append map l m)
      ∙ sym (append_assoc first (calls_of call map l) (calls_of call map m))

  Handled-still :
      (handler : H) (id : ℕ) (t t' t'' : Timer H W)
      → Handled handler id t t'
      → Called call (λ k. Unit) t' t''
      → Handled handler id t t''
  Handled-still handler id t t' t'' (l, m, e) w = (
    l,
    m ++ w.more,
    w.ran.state
        ∙ ap (replay call w.more) e
        ∙ sym (replay-append call (l ++ ((handler, id) ∷ m)) w.more t.state)
        ∙ ap (λ k. replay call k t.state) (append_assoc l ((handler, id) ∷ m) w.more),
  )

  Handled-later :
      (handler : H) (id : ℕ) (P : ℕ → Type 0) (t t' t'' : Timer H W)
      → Called call P t t'
      → Handled handler id t' t''
      → Handled handler id t t''
  Handled-later handler id P t t' t'' w (l, m, e) = (
    w.more ++ l,
    m,
    e
        ∙ ap (replay call (l ++ ((handler, id) ∷ m))) w.ran.state
        ∙ sym (replay-append call w.more (l ++ ((handler, id) ∷ m)) t.state)
        ∙ ap (λ k. replay call k t.state) (sym (append_assoc w.more l ((handler, id) ∷ m))),
  )

  -- The node's own call.
  node_call :
      {handler : H} (id p : ℕ) (t : Timer H W)
      → (w : Waits handler id p t)
      → call_of call (Map.get timer_map_size t.handler_map w.node.id) w.node.id ≡ (handler, id) ∷ []
  node_call id p t w =
      ap (λ k. call_of call (Map.get timer_map_size t.handler_map k) k) w.named
      ∙ ap (λ o. call_of call o id) w.known

  -- The turn that comes to the node's place.
  turn-Handled :
      {handler : H} (id p : ℕ) (t : Timer H W)
      → Waits handler id p t
      → ((t.wheels 0).pos + 1) % 256 ≡ p
      → Handled handler id t (clear_slot call 0 (middle call 0 t))
  turn-Handled {handler = handler} id p t w there =
      let slot = step_slots call 0 t 0 ((step call 0 t).wheels 0).pos in
      let place : ((step call 0 t).wheels 0).pos ≡ p = step_pos call 0 t ∙ there in
      let nodes : visited call 0 t ≡ w.before ++ (w.node ∷ w.after) =
        ap (λ s. s.nodes) slot ∙ ap (λ k. (slot_at t.wheels 0 k).nodes) place ∙ w.here in
      let map = (step call 0 t).handler_map in
      let calls = calls_of call map in
      let same : map ≡ t.handler_map = step_map call 0 t in
      let ran =
        cleared-Ran call (calls (visited call 0 t)) 0 t (middle call 0 t)
          (visit_all_fires call (visited call 0 t) (step call 0 t)) in
      let this : call_of call (Map.get timer_map_size map w.node.id) w.node.id
          ≡ (handler, id) ∷ [] =
        ap (λ x. call_of call (Map.get timer_map_size x w.node.id) w.node.id) same
        ∙ node_call id p t w in
      let numbers : calls (visited call 0 t) ≡ calls w.before ++ ((handler, id) ∷ calls w.after) =
        ap calls nodes
        ∙ calls-append map w.before (w.node ∷ w.after)
        ∙ ap (λ k. calls w.before ++ (k ++ calls w.after)) this in
      (calls w.before, calls w.after, ran.state ∙ ap (λ l. replay call l t.state) numbers)

  turn_fires :
      {handler : H} (id p : ℕ) (t : Timer H W)
      → Waits handler id p t
      → ((t.wheels 0).pos + 1) % 256 ≡ p
      → Returns (turn call 0 t) (λ t'. Handled handler id t t' × IsEnded t')
  turn_fires id p t w there =
      let P : ℕ → Type 0 = λ k. Unit in
      let g =
        visit_all-Grown call P 0 (visited call 0 t) (step call 0 t) (Have-all (visited call 0 t)) in
      (
        clear_slot call 0 (middle call 0 t),
        turn_run call 0 t w.ended,
        (turn-Handled id p t w there, cleared-IsEnded call P 0 t (middle call 0 t) w.ended g),
      )

  update_fires :
      {handler : H} (id p : ℕ) (t : Timer H W)
      → Waits handler id p t
      → ((t.wheels 0).pos + 1) % 256 ≡ p
      → Returns (update call t) (Handled handler id t)
  unfolding update wheeling
  update_fires {handler = handler} id p t w there =
      let (t', run, (handled, ended)) = turn_fires id p t w there in
      elim (Bool-cases ((t'.wheels 0).pos == 0)) [
        | inr stays ↦ (t', rw (update, wheeling, run, ◌>>=◌, stays) refl, handled)
        | inl wraps ↦
            let (u, run', v) = wheeling-Went 2 1 t' ended in
            (
              u,
              rw (update, wheeling, run, ◌>>=◌, wraps) run',
              Handled-still handler id t t' u handled v.called,
            )
      ]

  updates_run :
      (n : ℕ) (t t' : Timer H W)
      → update call t ≡ done t'
      → updates call (suc n) t ≡ updates call n t'
  unfolding updates
  updates_run n t t' run = rw (updates, run) refl

  updates_none : (t : Timer H W) → updates call 0 t ≡ done t
  unfolding updates
  updates_none t = refl

  -- `k` updates are left, of which the last one comes to the node's place.
  pub updates_wait :
      {handler : H} (id p m k : ℕ) (t : Timer H W)
      → Waits handler id p t
      → ((t.wheels 0).pos + (m + k)) % 256 ≡ p
      → 0 < k
      → m + k ≤ 255
      → Returns (updates call m t) (Called call (λ n. n ≢ id) t)
  updates_wait id p zero k t w there pos small = (
    t,
    updates_none t,
    record { more = []; ran = record { state = refl; map = refl }; have = tt },
  )
  updates_wait id p (suc m) k t w there pos small =
      let (t', run, (w', same, before)) =
        update-Waits call id p t w (λ z. omega (arith, z, there, pos, small)) in
      let (u, run', quiet) =
        updates_wait id p m k t' w' (omega (arith, same, there)) pos (omega (arith, small)) in
      (u, updates_run m t t' run ∙ run', Called-trans call (λ n. n ≢ id) t t' u before quiet)

  pub updates_fire :
      {handler : H} (id p m : ℕ) (t : Timer H W)
      → Waits handler id p t
      → ((t.wheels 0).pos + suc m) % 256 ≡ p
      → suc m ≤ 255
      → Returns (updates call (suc m) t) (Handled handler id t)
  updates_fire id p zero t w there small =
      let (t', run, handled) = update_fires id p t w (omega (arith, there)) in
      (t', updates_run 0 t t' run ∙ updates_none t', handled)
  updates_fire {handler = handler} id p (suc m) t w there small =
      let (t', run, (w', same, before)) =
        update-Waits call id p t w (λ z. omega (arith, z, there, small)) in
      let (u, run', handled) =
        updates_fire id p m t' w' (omega (arith, same, there)) (omega (arith, small)) in
      (
        u,
        updates_run (suc m) t t' run ∙ run',
        Handled-later handler id (λ n. n ≢ id) t t' u before handled,
      )
