-- ===== src/Timer/Turn.antt =====
-- One turn of a wheel, and the wheels behind it.
use mathlib.Core.List.{append_assoc}
use gearkit.Base.{
  All-append, ℕ, zero, suc, ◌+◌, ◌%◌, ◌≡◌, ◌≢◌, ◌<◌, ◌⊎◌, inl, inr, refl, sym, ap, ◌∙◌, subst,
  arith, List, ◌∷◌, ◌++◌, Bool, true, false, Bool-cases, ◌==◌, ne_false,
}
use gearkit.Base.Run.{done, Returns, ◌>>=◌}
use gearkit.Map
use gearkit.Timer.{timer_map_size, Node, Timer, step, visit_all, clear_slot, turn, wheeling, update}
use gearkit.Timer.Slots.{Have, slot_at}
use gearkit.Timer.Grow.{Called, Called-trans, TimerGrown, visit_all-Grown}
use gearkit.Timer.Fire.{
  IsEnded, Waits, cleared-Ran, step_slots, step_pos, step_pos_other, clear_pos, clear_slots,
}

module _ {H W : Type 0} (call : H → ℕ → W → Bool × W) where
  -- The nodes that a turn visits.
  abbrev pub visited : ℕ → Timer H W → List Node
  visited index t =
      (slot_at (step call index t).wheels index ((step call index t).wheels index).pos).nodes

  -- The state before the slot is emptied.
  abbrev pub middle : ℕ → Timer H W → Timer H W
  middle index t = visit_all call index (visited index t) (step call index t)

  turn_ends :
      (index : ℕ) (t : Timer H W)
      → (slot_at (step call index t).wheels index ((step call index t).wheels index).pos).ends
        ≡ true
      → turn call index t ≡ done (clear_slot call index (middle index t))
  unfolding turn
  turn_ends index t e = rw (turn, e) refl

  pub turn_run :
      (index : ℕ) (t : Timer H W)
      → IsEnded t
      → turn call index t ≡ done (clear_slot call index (middle index t))
  turn_run index t ended = turn_ends index t (
      ap (λ s. s.ends) (step_slots call index t index ((step call index t).wheels index).pos)
      ∙ ended index ((step call index t).wheels index).pos)

  pub cleared-IsEnded :
      (P : ℕ → Type 0) (index : ℕ) (t t' : Timer H W)
      → IsEnded t
      → TimerGrown call P (step call index t) t'
      → IsEnded (clear_slot call index t')
  cleared-IsEnded P index t t' ended g i j = elim (clear_slots call index t' i j) [
    | inl (a, b, e) ↦ ap (λ s. s.ends) e
    | inr e ↦
        ap (λ s. s.ends) e
        ∙ (g.wheels.slots i j).ends
        ∙ ap (λ s. s.ends) (step_slots call index t i j)
        ∙ ended i j
  ]

  -- The slots after a turn: emptied, or as before with more nodes in front.
  cleared_nodes :
      (P : ℕ → Type 0) (index : ℕ) (t t' : Timer H W) (i j : ℕ)
      → (g : TimerGrown call P (step call index t) t')
      → ((i ≡ index) × (j ≡ (t'.wheels index).pos))
        ⊎ ((slot_at (clear_slot call index t').wheels i j).nodes
            ≡ (g.wheels.slots i j).front ++ (slot_at t.wheels i j).nodes)
  cleared_nodes P index t t' i j g = elim (clear_slots call index t' i j) [
    | inl (a, b, e) ↦ inl (a, b)
    | inr e ↦ inr (
        ap (λ s. s.nodes) e
        ∙ (g.wheels.slots i j).nodes
        ∙ ap (λ s. (g.wheels.slots i j).front ++ s.nodes) (step_slots call index t i j))
  ]

  cleared_lacks :
      (P : ℕ → Type 0) (index : ℕ) (t t' : Timer H W) (i j : ℕ)
      → TimerGrown call P (step call index t) t'
      → Have P (slot_at t.wheels i j).nodes
      → Have P (slot_at (clear_slot call index t').wheels i j).nodes
  cleared_lacks P index t t' i j g h = elim (clear_slots call index t' i j) [
    | inl (a, b, e) ↦ subst (λ s. Have P s.nodes) (sym e) tt
    | inr e ↦
        let s = g.wheels.slots i j in
        subst (Have P)
          (sym (
            ap (λ k. k.nodes) e
            ∙ s.nodes
            ∙ ap (λ k. s.front ++ k.nodes) (step_slots call index t i j)))
          (All-append (λ n. P n.id) s.front (slot_at t.wheels i j).nodes s.have h)
  ]

  -- What a turn of `index` leaves of a node that waits.
  pub record Kept (handler : H) (id p index : ℕ) (t t' : Timer H W) : Type 0 where
    pub waits : Waits handler id p t'
    pub called : Called call (λ k. k ≢ id) t t'
    pub pos : (t'.wheels index).pos ≡ ((t.wheels index).pos + 1) % 256
    pub others : (i : ℕ) → (i == index) ≡ false → (t'.wheels i).pos ≡ (t.wheels i).pos

  turned_pos :
      (P : ℕ → Type 0) (index : ℕ) (t t' : Timer H W)
      → TimerGrown call P (step call index t) t'
      → (t'.wheels index).pos ≡ ((t.wheels index).pos + 1) % 256
  turned_pos P index t t' g = g.wheels.pos index ∙ step_pos call index t

  pub cleared-Called :
      (P : ℕ → Type 0) (index : ℕ) (t t' : Timer H W)
      → TimerGrown call P (step call index t) t'
      → Called call P t (clear_slot call index t')
  cleared-Called P index t t' g = record {
    more = g.called.more;
    ran = cleared-Ran call g.called.more index t t' g.called.ran;
    have = g.called.have;
  }

  turned-Waits :
      {handler : H} (id p index : ℕ) (t t' : Timer H W)
      → Waits handler id p t
      → (index ≡ 0 → ((t.wheels index).pos + 1) % 256 ≢ p)
      → TimerGrown call (λ k. k ≢ id) (step call index t) t'
      → Waits handler id p (clear_slot call index t')
  turned-Waits id p index t t' w off g =
      let pos = turned_pos (λ k. k ≢ id) index t t' g in
      record {
        before = (g.wheels.slots 0 p).front ++ w.before;
        node = w.node;
        after = w.after;
        here = elim (cleared_nodes (λ k. k ≢ id) index t t' 0 p g) [
          | inl (a, b) ↦ absurd (off (sym a) (sym (b ∙ pos)))
          | inr e ↦
              e
              ∙ ap (λ l. (g.wheels.slots 0 p).front ++ l) w.here
              ∙ sym (append_assoc (g.wheels.slots 0 p).front w.before (w.node ∷ w.after))
        ];
        named = w.named;
        others = λ i j h. cleared_lacks (λ k. k ≢ id) index t t' i j g (w.others i j h);
        ended = cleared-IsEnded (λ k. k ≢ id) index t t' w.ended g;
        known =
            ap (λ m. Map.get timer_map_size m id)
              (cleared-Ran call g.called.more index t t' g.called.ran).map
            ∙ w.known;
      }

  turn-Kept :
      {handler : H} (id p index : ℕ) (t : Timer H W)
      → Waits handler id p t
      → (index ≡ 0 → ((t.wheels index).pos + 1) % 256 ≢ p)
      → Returns (turn call index t) (Kept handler id p index t)
  turn-Kept id p index t w off =
      let pos = step_pos call index t in
      let slot = step_slots call index t index ((step call index t).wheels index).pos in
      let have : Have (λ k. k ≢ id) (visited index t) =
        subst (λ s. Have (λ k. k ≢ id) s.nodes) (sym slot)
          (w.others index ((step call index t).wheels index).pos (λ z e. off z (sym pos ∙ e))) in
      let g = visit_all-Grown call (λ k. k ≢ id) index (visited index t) (step call index t) have in
      let t' = middle index t in
      (
        clear_slot call index t',
        turn_run index t w.ended,
        record {
          waits = turned-Waits id p index t t' w off g;
          called = cleared-Called (λ k. k ≢ id) index t t' g;
          pos = clear_pos call index t' index ∙ turned_pos (λ k. k ≢ id) index t t' g;
          others =
              λ i e. clear_pos call index t' i ∙ g.wheels.pos i ∙ step_pos_other call index t i e;
        },
      )

  wheeling-Waits :
      {handler : H} (id p rest index : ℕ) (t : Timer H W)
      → Waits handler id p t
      → 0 < index
      → Returns (wheeling call rest index t) (λ t'.
        Waits handler id p t'
        × ((t'.wheels 0).pos ≡ (t.wheels 0).pos)
        × Called call (λ k. k ≢ id) t t')
  unfolding wheeling
  wheeling-Waits id p zero index t w pos =
      let (t', run, k) = turn-Kept id p index t w (λ z. absurd (omega (arith, z, pos))) in
      (t', run, (k.waits, k.others 0 (ne_false (λ z. omega (arith, z, pos))), k.called))
  wheeling-Waits id p (suc rest) index t w pos =
      let (t', run, k) = turn-Kept id p index t w (λ z. absurd (omega (arith, z, pos))) in
      let first = k.others 0 (ne_false (λ z. omega (arith, z, pos))) in
      elim (Bool-cases ((t'.wheels index).pos == 0)) [
        | inr stays ↦ (t', rw (wheeling, run, ◌>>=◌, stays) refl, (k.waits, first, k.called))
        | inl wraps ↦
            let (u, run', (w', same, more)) =
              wheeling-Waits id p rest (suc index) t' k.waits (omega arith) in
            (
              u,
              rw (wheeling, run, ◌>>=◌, wraps) run',
              (w', same ∙ first, Called-trans call (λ k. k ≢ id) t t' u k.called more),
            )
      ]

  -- An update that does not come to the node's place.
  pub update-Waits :
      {handler : H} (id p : ℕ) (t : Timer H W)
      → Waits handler id p t
      → ((t.wheels 0).pos + 1) % 256 ≢ p
      → Returns (update call t) (λ t'.
        Waits handler id p t'
        × ((t'.wheels 0).pos ≡ ((t.wheels 0).pos + 1) % 256)
        × Called call (λ k. k ≢ id) t t')
  unfolding update wheeling
  update-Waits id p t w off =
      let (t', run, k) = turn-Kept id p 0 t w (λ z. off) in
      elim (Bool-cases ((t'.wheels 0).pos == 0)) [
        | inr stays ↦
            (t', rw (update, wheeling, run, ◌>>=◌, stays) refl, (k.waits, k.pos, k.called))
        | inl wraps ↦
            let (u, run', (w', same, more)) = wheeling-Waits id p 2 1 t' k.waits (omega arith) in
            (
              u,
              rw (update, wheeling, run, ◌>>=◌, wraps) run',
              (w', same ∙ k.pos, Called-trans call (λ k. k ≢ id) t t' u k.called more),
            )
      ]
