-- ===== src/Timer/Grow.antt =====
-- The loop over the nodes of a slot: what it adds to the slots, and whose handlers it calls.
use gearkit.Base.{
  All-append, ℕ, ◌≡◌, inl, inr, refl, sym, ap, ◌∙◌, subst, List, [], ◌∷◌, ◌++◌, Option, none, some,
  Option-cases, Bool, ltb, Bool-cases, All, if◌then◌else◌,
}
use gearkit.Map.{Map}
use gearkit.Map
use gearkit.Timer.{
  Node, Wheel, Timer, timer_map_size, add_node, handle_timer, fire, visit, visit_all,
}
use gearkit.Timer.Slots.{Have, Grown, Grown-refl, Grown-trans, add_node-Grown}

module _ {H W : Type 0} (call : H → ℕ → W → Bool × W) where
  -- Calls of handlers, each with its number, one behind the other.
  abbrev pub replay : List (H × ℕ) → W → W
  replay [] w = w
  replay ((handler, id) ∷ calls) w = replay calls (call handler id w).1

  pub replay-append : (l m : List (H × ℕ)) (w : W) → replay (l ++ m) w ≡ replay m (replay l w)
  replay-append [] m w = refl
  replay-append ((handler, id) ∷ l) m w = replay-append l m (call handler id w).1

  -- The call for a number, where the map has a handler for it.
  abbrev pub call_of : Option H → ℕ → List (H × ℕ)
  call_of none id = []
  call_of (some handler) id = (handler, id) ∷ []

  -- The map is as it was, and the state is what these calls make of it.
  pub record Ran (calls : List (H × ℕ)) (t t' : Timer H W) : Type 0 where
    pub state : t'.state ≡ replay calls t.state
    pub map : t'.handler_map ≡ t.handler_map

  pub Ran-trans :
      (l m : List (H × ℕ)) (t t' t'' : Timer H W) → Ran l t t' → Ran m t' t'' → Ran (l ++ m) t t''
  Ran-trans l m t t' t'' r s = record {
    state = s.state ∙ ap (replay m) r.state ∙ sym (replay-append l m t.state);
    map = s.map ∙ r.map;
  }

  -- Calls of handlers with numbers that all satisfy `P`.
  pub record Called (P : ℕ → Type 0) (t t' : Timer H W) : Type 0 where
    pub more : List (H × ℕ)
    pub ran : Ran more t t'
    pub have : All (λ c. P c.1) more

  pub Called-trans :
      (P : ℕ → Type 0) (t t' t'' : Timer H W) → Called P t t' → Called P t' t'' → Called P t t''
  Called-trans P t t' t'' g h = record {
    more = g.more ++ h.more;
    ran = Ran-trans g.more h.more t t' t'' g.ran h.ran;
    have = All-append (λ c. P c.1) g.more h.more g.have h.have;
  }

  -- More nodes in the slots and more calls, all of which satisfy `P`.
  pub record TimerGrown (P : ℕ → Type 0) (t t' : Timer H W) : Type 0 where
    pub wheels : Grown P t.wheels t'.wheels
    pub called : Called P t t'

  -- `handleTimer` leaves the wheels as they are, and calls the handler that the map has.
  pub handle_timer_lem :
      (id : ℕ) (t : Timer H W)
      → ((handle_timer call id t).1.wheels ≡ t.wheels)
        × Ran (call_of (Map.get timer_map_size t.handler_map id) id) t (handle_timer call id t).1
  unfolding handle_timer
  handle_timer_lem id t = elim (Option-cases (Map.get timer_map_size t.handler_map id)) [
    | inl e ↦ rw (handle_timer, e) (refl, record { state = refl; map = refl })
    | inr (handler, e) ↦ rw (handle_timer, e) (refl, record { state = refl; map = refl })
  ]

  abbrev pub calls_of : Map H → List Node → List (H × ℕ)
  calls_of map [] = []
  calls_of map (p ∷ ps) = call_of (Map.get timer_map_size map p.id) p.id ++ calls_of map ps

  -- What `fire` does to the wheels, and what it calls.
  pub record Fired (P : ℕ → Type 0) (p : Node) (t t' : Timer H W) : Type 0 where
    pub wheels : Grown P t.wheels t'.wheels
    pub ran : Ran (call_of (Map.get timer_map_size t.handler_map p.id) p.id) t t'

  again_lem :
      (P : ℕ → Type 0) (p : Node) (t : Timer H W) (r : Bool × Timer H W)
      → P p.id
      → handle_timer call p.id t ≡ r
      → Fired P p t (
          if r.0
          then r.1
          else if ltb 0 p.cycle
          then record r.1 { wheels = (add_node 4 (record p { delay = p.cycle }) r.1.wheels).1 }
          else r.1)
  again_lem P p t r have e =
      let (same, ran) = handle_timer_lem p.id t in
      let wheels : r.1.wheels ≡ t.wheels = ap (λ q. q.1.wheels) (sym e) ∙ same in
      let calls = call_of (Map.get timer_map_size t.handler_map p.id) p.id in
      let ran' : Ran calls t r.1 = subst (λ q. Ran calls t q.1) e ran in
      let still : Ran calls t
          (record r.1 { wheels = (add_node 4 (record p { delay = p.cycle }) r.1.wheels).1 }) =
        record { state = ran'.state; map = ran'.map } in
      let kept : Grown P t.wheels r.1.wheels =
        subst (λ w. Grown P t.wheels w) (sym wheels) (Grown-refl P t.wheels) in
      let put_back : Grown P t.wheels (add_node 4 (record p { delay = p.cycle }) r.1.wheels).1 =
        Grown-trans P _ _ _ kept
          (add_node-Grown P (record p { delay = p.cycle }) have 4 r.1.wheels) in
      elim (Bool-cases r.0) [
        | inl ends ↦ rw ends (record { wheels = kept; ran = ran' })
        | inr goes ↦ elim (Bool-cases (ltb 0 p.cycle)) [
          | inl cycles ↦ rw (goes, cycles) (record { wheels = put_back; ran = still })
          | inr once ↦ rw (goes, once) (record { wheels = kept; ran = ran' })
        ]
      ]

  pub fire-Fired :
      (P : ℕ → Type 0) (p : Node) (t : Timer H W) → P p.id → Fired P p t (fire call p t)
  unfolding fire
  fire-Fired P p t have = again_lem P p t (handle_timer call p.id t) have refl

  call_have : (P : ℕ → Type 0) (o : Option H) (id : ℕ) → P id → All (λ c. P c.1) (call_of o id)
  call_have P none id have = tt
  call_have P (some handler) id have = (have, tt)

  visit_run :
      (P : ℕ → Type 0) (index : ℕ) (p : Node) (t : Timer H W) (r : Bool × (ℕ → Wheel))
      → P p.id
      → add_node index p t.wheels ≡ r
      → TimerGrown P t (if r.0 then record t { wheels = r.1 } else fire call p t)
  visit_run P index p t r have e = elim (Bool-cases r.0) [
    | inl placed ↦ rw placed (record {
      wheels =
          subst (λ w. Grown P t.wheels w) (ap (λ q. q.1) e)
            (add_node-Grown P p have index t.wheels);
      called = record { more = []; ran = record { state = refl; map = refl }; have = tt };
    })
    | inr fires ↦
        let f = fire-Fired P p t have in
        rw fires (record {
          wheels = f.wheels;
          called = record {
            more = call_of (Map.get timer_map_size t.handler_map p.id) p.id;
            ran = f.ran;
            have = call_have P (Map.get timer_map_size t.handler_map p.id) p.id have;
          };
        })
  ]

  visit-Grown :
      (P : ℕ → Type 0) (index : ℕ) (p : Node) (t : Timer H W)
      → P p.id
      → TimerGrown P t (visit call index p t)
  unfolding visit
  visit-Grown P index p t have = visit_run P index p t (add_node index p t.wheels) have refl

  pub TimerGrown-trans :
      (P : ℕ → Type 0) (t t' t'' : Timer H W)
      → TimerGrown P t t'
      → TimerGrown P t' t''
      → TimerGrown P t t''
  TimerGrown-trans P t t' t'' g h = record {
    wheels = Grown-trans P _ _ _ g.wheels h.wheels;
    called = Called-trans P t t' t'' g.called h.called;
  }

  pub visit_all-Grown :
      (P : ℕ → Type 0) (index : ℕ) (ps : List Node) (t : Timer H W)
      → Have P ps
      → TimerGrown P t (visit_all call index ps t)
  unfolding visit_all
  visit_all-Grown P index [] t have = record {
    wheels = Grown-refl P t.wheels;
    called = record { more = []; ran = record { state = refl; map = refl }; have = tt };
  }
  visit_all-Grown P index (p ∷ ps) t (h, have) =
      TimerGrown-trans P _ _ _ (visit-Grown P index p t h)
        (visit_all-Grown P index ps (visit call index p t) have)

  visit_fires :
      (p : Node) (t : Timer H W)
      → Ran (call_of (Map.get timer_map_size t.handler_map p.id) p.id) t (visit call 0 p t)
  unfolding visit add_node
  visit_fires p t = let f = fire-Fired (λ _. Unit) p t tt in f.ran

  -- On the first wheel every node of the slot is handled.
  pub visit_all_fires :
      (ps : List Node) (t : Timer H W) → Ran (calls_of t.handler_map ps) t (visit_all call 0 ps t)
  unfolding visit_all
  visit_all_fires [] t = record { state = refl; map = refl }
  visit_all_fires (p ∷ ps) t =
      let first = visit_fires p t in
      let t' = visit call 0 p t in
      let calls = call_of (Map.get timer_map_size t.handler_map p.id) p.id in
      Ran-trans calls (calls_of t.handler_map ps) t t' (visit_all call 0 ps t') first (
        subst (λ m. Ran (calls_of m ps) t' (visit_all call 0 ps t')) first.map
          (visit_all_fires ps t'))
