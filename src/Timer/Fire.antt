-- ===== src/Timer/Fire.antt =====
-- A node on the first wheel while the wheels turn.
use gearkit.Base.Table.{put, put_self, put_other}
use gearkit.Base.{
  ℕ, ◌+◌, ◌%◌, ◌≡◌, ◌≢◌, ◌⊎◌, inl, inr, refl, sym, ap, ◌∙◌, subst, List, ◌∷◌, ◌++◌, Bool, true,
  false, Bool-cases, ◌==◌, ==_iff, some,
}
use gearkit.Map
use gearkit.Timer.Grow.{Ran}
use gearkit.Timer.{timer_map_size, Node, Timer, null, step, clear_slot}
use gearkit.Timer.Slots.{Have, slot_at}

-- The chains end.
abbrev pub IsEnded : {H W : Type 0} → Timer H W → Type 0
IsEnded t = (i j : ℕ) → (slot_at t.wheels i j).ends ≡ true

-- A node with the number `id` stands at place `p` of the first wheel, and no other has that number,
-- which stands for `handler` in the map.
pub record Waits {H W : Type 0} (handler : H) (id p : ℕ) (t : Timer H W) : Type 0 where
  pub before : List Node
  pub node : Node
  pub after : List Node
  pub here : (slot_at t.wheels 0 p).nodes ≡ before ++ (node ∷ after)
  pub named : node.id ≡ id
  pub others : (i j : ℕ) → (i ≡ 0 → j ≢ p) → Have (λ k. k ≢ id) (slot_at t.wheels i j).nodes
  pub ended : IsEnded t
  pub known : Map.get timer_map_size t.handler_map id ≡ some handler

module _ {H W : Type 0} (call : H → ℕ → W → Bool × W) where
  pub step_map : (index : ℕ) (t : Timer H W) → (step call index t).handler_map ≡ t.handler_map
  unfolding step
  step_map index t = refl

  -- Neither `++wheel.pos` nor the reset of a slot touches the state or the map.
  pub cleared-Ran :
      (calls : List (H × ℕ)) (index : ℕ) (t t' : Timer H W)
      → Ran call calls (step call index t) t'
      → Ran call calls t (clear_slot call index t')
  unfolding step clear_slot
  cleared-Ran calls index t t' r = record { state = r.state; map = r.map }

  pub step_slots :
      (index : ℕ) (t : Timer H W) (i j : ℕ)
      → slot_at (step call index t).wheels i j ≡ slot_at t.wheels i j
  unfolding step
  step_slots index t i j = elim (Bool-cases (i == index)) [
    | inl is ↦
        let e = (==_iff i index).0 is in
        subst (λ k. slot_at (step call index t).wheels k j ≡ slot_at t.wheels k j) (sym e)
          (ap (λ w. w.nodes j) (put_self index _ t.wheels))
    | inr is_not ↦ ap (λ w. w.nodes j) (put_other index _ t.wheels i is_not)
  ]

  pub step_pos :
      (index : ℕ) (t : Timer H W)
      → ((step call index t).wheels index).pos ≡ ((t.wheels index).pos + 1) % 256
  unfolding step
  step_pos index t = ap (λ w. w.pos) (put_self index _ t.wheels)

  pub step_pos_other :
      (index : ℕ) (t : Timer H W) (i : ℕ)
      → (i == index) ≡ false
      → ((step call index t).wheels i).pos ≡ (t.wheels i).pos
  unfolding step
  step_pos_other index t i e = ap (λ w. w.pos) (put_other index _ t.wheels i e)

  pub clear_pos :
      (index : ℕ) (t : Timer H W) (i : ℕ)
      → ((clear_slot call index t).wheels i).pos ≡ (t.wheels i).pos
  unfolding clear_slot
  clear_pos index t i = elim (Bool-cases (i == index)) [
    | inl is ↦
        let e = (==_iff i index).0 is in
        subst (λ k. ((clear_slot call index t).wheels k).pos ≡ (t.wheels k).pos) (sym e)
          (ap (λ w. w.pos) (put_self index _ t.wheels))
    | inr is_not ↦ ap (λ w. w.pos) (put_other index _ t.wheels i is_not)
  ]

  -- One slot is empty, and the others are as they were.
  pub clear_slots :
      (index : ℕ) (t : Timer H W) (i j : ℕ)
      → ((i ≡ index)
          × (j ≡ (t.wheels index).pos)
          × (slot_at (clear_slot call index t).wheels i j ≡ null))
        ⊎ (slot_at (clear_slot call index t).wheels i j ≡ slot_at t.wheels i j)
  unfolding clear_slot
  clear_slots index t i j = elim (Bool-cases (i == index)) [
    | inr is_not ↦ inr (ap (λ w. w.nodes j) (put_other index _ t.wheels i is_not))
    | inl is ↦
        let e = (==_iff i index).0 is in
        let pos = (t.wheels index).pos in
        let slot : slot_at (clear_slot call index t).wheels i j
            ≡ put pos null (t.wheels index).nodes j =
          ap (λ k. slot_at (clear_slot call index t).wheels k j) e
          ∙ ap (λ w. w.nodes j) (put_self index _ t.wheels) in
        elim (Bool-cases (j == pos)) [
          | inl at ↦
              let f = (==_iff j pos).0 at in
              inl (
                e,
                f,
                slot
                    ∙ ap (put pos null (t.wheels index).nodes) f
                    ∙ put_self pos null (t.wheels index).nodes,
              )
          | inr off ↦ inr (
              slot
              ∙ put_other pos null (t.wheels index).nodes j off
              ∙ ap (λ k. slot_at t.wheels k j) (sym e))
        ]
  ]
