-- ===== src/State/Reach.antt =====
-- What holds of every manager that its methods lead to.
use gearkit.Base.{
  ℕ, ◌<◌, ◌^◌, ◌==◌, arith, ap, ◌≡◌, refl, ◌∙◌, Option, none, some, inl, inr, Option-cases, subst,
}
use gearkit.Base.Run.{Run, done, Returns}
use gearkit.Map
use gearkit.State.{
  StateMgr, minus_one, kit_state_length, new, base_init, is_state, change, set_state,
  register_state, unregister_state, update, update_state,
}

-- A client's calls, from `create` on, with numbers that are not negative; a `setState` or an `update` that is a fault leads nowhere.
pub data Reachable (state_none : ℕ) : StateMgr → Type 0 where
  created : Reachable state_none (base_init state_none new)
  registered :
      {m : StateMgr} (id s : ℕ)
      → id < 2 ^ 31
      → Reachable state_none m
      → Reachable state_none (register_state id s m)
  unregistered :
      {m : StateMgr} (id : ℕ)
      → id < 2 ^ 31
      → Reachable state_none m
      → Reachable state_none (unregister_state id m)
  changed :
      {m m' : StateMgr} (id : ℕ)
      → id < 2 ^ 31
      → Reachable state_none m
      → set_state id m ≡ done m'
      → Reachable state_none m'
  updated :
      {m m' : StateMgr} → Reachable state_none m → update m ≡ done m' → Reachable state_none m'

==_comm : (a b : ℕ) → (a == b) ≡ (b == a)
==_comm a b = ground arith

-- There is a current state, and its number is still -1.
record IsUnnamed (m : StateMgr) : Type 0 where
  pub current : (s : ℕ) × (m.state ≡ some s)
  pub number : m.state_id ≡ minus_one

registers : (id s : ℕ) {m : StateMgr} → IsUnnamed m → IsUnnamed (register_state id s m)
unfolding register_state unregister_state
registers id s u = record { current = u.current; number = u.number }

unregisters : (id : ℕ) {m : StateMgr} → IsUnnamed m → IsUnnamed (unregister_state id m)
unfolding unregister_state
unregisters id u = record { current = u.current; number = u.number }

change_lem :
    (o : Option ℕ) (next : ℕ) (m : StateMgr)
    → IsUnnamed m
    → (s : ℕ) × (o ≡ some s)
    → Returns (change o next m) IsUnnamed
unfolding change
change_lem none next m u (s, e) = absurd cc
change_lem (some now) next m u e = (_, refl, record { current = (next, refl); number = u.number })

set_state-unknown :
    (id : ℕ) (m : StateMgr)
    → Map.get kit_state_length m.state_map id ≡ none
    → set_state id m ≡ done m
unfolding set_state
set_state-unknown id m e = rw (set_state, e) refl

set_state-known :
    (id next : ℕ) (m : StateMgr)
    → Map.get kit_state_length m.state_map id ≡ some next
    → set_state id m ≡ change m.state next m
unfolding set_state
set_state-known id next m e = rw (set_state, e) refl

set_state_ends : (id : ℕ) (m : StateMgr) → IsUnnamed m → Returns (set_state id m) IsUnnamed
set_state_ends id m u = elim (Option-cases (Map.get kit_state_length m.state_map id)) [
  | inl e ↦ (m, set_state-unknown id m e, u)
  | inr (next, e) ↦
      let (m', run, u') = change_lem m.state next m u u.current in
      (m', set_state-known id next m e ∙ run, u')
]

update_state_lem :
    (o : Option ℕ) (m : StateMgr)
    → IsUnnamed m
    → (s : ℕ) × (o ≡ some s)
    → Returns (update_state o m) IsUnnamed
unfolding update_state
update_state_lem none m u (s, e) = absurd cc
update_state_lem (some now) m u e = (_, refl, record { current = u.current; number = u.number })

update_ends : (m : StateMgr) → IsUnnamed m → Returns (update m) IsUnnamed
unfolding update
update_ends m u = update_state_lem m.state m u u.current

result_lem : (r : Run StateMgr) (m' : StateMgr) → r ≡ done m' → Returns r IsUnnamed → IsUnnamed m'
result_lem r m' e (m, run, u) = let same : m ≡ m' = cc in subst IsUnnamed same u

Reachable-IsUnnamed : {state_none : ℕ} {m : StateMgr} → Reachable state_none m → IsUnnamed m
unfolding base_init new
Reachable-IsUnnamed created = record { current = (_, refl); number = refl }
Reachable-IsUnnamed (registered id s small before) = registers id s (Reachable-IsUnnamed before)
Reachable-IsUnnamed (unregistered id small before) = unregisters id (Reachable-IsUnnamed before)
Reachable-IsUnnamed (changed {m} id small before e) =
    result_lem _ _ e (set_state_ends id m (Reachable-IsUnnamed before))
Reachable-IsUnnamed (updated {m} before e) =
    result_lem _ _ e (update_ends m (Reachable-IsUnnamed before))

-- For every manager that any sequence of registerState, unregisterState, setState and update leads to:
-- `isState` answers `true` for -1 and for no other number, whatever was set; and neither `setState`
-- of a number that is not negative nor `update` follows a null pointer.
pub is_state-minus_one :
    (state_none number id : ℕ) (m : StateMgr)
    → Reachable state_none m
    → id < 2 ^ 31
    → (is_state number m ≡ (number == minus_one))
      × Returns (set_state id m) (Reachable state_none)
      × Returns (update m) (Reachable state_none)
unfolding is_state
is_state-minus_one state_none number id m reach small =
    let u = Reachable-IsUnnamed reach in
    let (m', run, _) = set_state_ends id m u in
    let (m'', run', _) = update_ends m u in
    (
      ap (λ k. k == number) u.number ∙ ==_comm minus_one number,
      (m', run, changed id small reach run),
      (m'', run', updated reach run'),
    )
