-- ===== src/Emitter.antt =====
-- kit/Emitter.h, class Emitter: handlers by event. What a handler does is a parameter over a state of
-- its own; handlers that call the emitter themselves are not modelled.
pub mod Turn
pub mod Emit
pub mod Loop
pub mod Called
mod Tests
use gearkit.Base.{
  ℕ, zero, suc, ◌+◌, ◌-◌, List, [], ◌∷◌, ◌++◌, Option, none, some, Bool, true, false, ◌==◌,
  if◌then◌else◌, length, get_elem?, set, take,
}
use gearkit.Base.Run.{Run, done, fault, ◌>>=◌}

pub record HandlerItem (H : Type 0) : Type 0 where
  pub id : ℕ
  pub handler : H
  pub once : Bool
  pub deleted : Bool

-- The members.
pub record Emitter (H : Type 0) : Type 0 where
  pub id : ℕ
  pub handler_vecs : List (List (HandlerItem H))

unfoldable pub load : {A : Type 0} → List A → ℕ → Run A
load vec i = elim (get_elem? vec i) [ none ↦ fault | some v ↦ done v ]

-- The loop of `off`.
unfoldable pub mark : {H : Type 0} → ℕ → List (HandlerItem H) → List (HandlerItem H)
mark id [] = []
mark id (item ∷ vec) =
    let rest = item ∷ mark id vec in
    if item.id == id then record item { deleted = true } ∷ vec else rest

-- `__swap`: `temp` is a reference to the first place, so the second one keeps its value.
unfoldable pub swap : {A : Type 0} → ℕ → ℕ → List A → Run (List A)
swap ia ib vec = load vec ib >>= λ other. done (set vec ia other)

module _ {H : Type 0} where
  pub new : List (List (HandlerItem H)) → Emitter H
  new vecs = record { id = 0; handler_vecs = vecs }

  unfoldable pub append : Bool → ℕ → H → Emitter H → Run (Emitter H)
  append only event_id handler e = load e.handler_vecs event_id >>= λ vec.
      let item : HandlerItem H = record {
        id = suc e.id;
        handler = handler;
        once = only;
        deleted = false;
      } in
      done
        (record { id = suc e.id; handler_vecs = set e.handler_vecs event_id (vec ++ (item ∷ [])) })

  unfoldable pub on : ℕ → H → Emitter H → Run (ℕ × Emitter H)
  unfolding append
  on event_id handler e = append false event_id handler e >>= λ e'. done (e'.id, e')

  unfoldable pub once : ℕ → H → Emitter H → Run (Emitter H)
  unfolding append
  once event_id handler e = append true event_id handler e

  unfoldable pub off : ℕ → ℕ → Emitter H → Run (Emitter H)
  unfolding mark
  off event_id id e = load e.handler_vecs event_id >>= λ vec.
      done (record e { handler_vecs = set e.handler_vecs event_id (mark id vec) })

  pub empty_all : List (List (HandlerItem H)) → List (List (HandlerItem H))
  empty_all [] = []
  empty_all (vec ∷ vecs) = [] ∷ empty_all vecs

  pub clear : Emitter H → Emitter H
  clear e = record e { handler_vecs = empty_all e.handler_vecs }

  module _ {E W : Type 0} (call : H → E → W → W) where
    -- The first part of the loop's body: the item and the state afterwards.
    unfoldable pub visit : E → HandlerItem H → W → HandlerItem H × W
    visit event item w =
        if item.deleted
        then (item, w)
        else (if item.once then record item { deleted = true } else item, call item.handler event w)

    -- The loop's body behind the call; `again` are the rounds that follow.
    unfoldable pub after_visit :
        (ℕ → ℕ → List (HandlerItem H) → W → Run (ℕ × List (HandlerItem H) × W))
        → ℕ
        → ℕ
        → List (HandlerItem H)
        → HandlerItem H × W
        → Run (ℕ × List (HandlerItem H) × W)
    unfolding swap
    after_visit again i tail vec (item, w) = elim item.deleted [
      | true ↦ swap i (tail - 1) (set vec i item) >>= λ vec'. again i (tail - 1) vec' w
      | false ↦ again (i + 1) tail (set vec i item) w
    ]

    -- The loop of `emit`: `tail`, the vector and the state at its end. Out of fuel is a fault too.
    unfoldable pub emit_loop :
        E → ℕ → ℕ → ℕ → List (HandlerItem H) → W → Run (ℕ × List (HandlerItem H) × W)
    unfolding visit after_visit
    emit_loop event zero i tail vec w = fault
    emit_loop event (suc fuel) i tail vec w = elim (i == tail) [
      | true ↦ done (tail, vec, w)
      | false ↦
          load vec i >>= λ item. after_visit (emit_loop event fuel) i tail vec (visit event item w)
    ]

    unfoldable pub emit : ℕ → E → Emitter H → W → Run (Emitter H × W)
    unfolding emit_loop
    emit event_id event e w = load e.handler_vecs event_id >>= λ vec.
        emit_loop event (suc (length vec)) 0 (length vec) vec w >>= λ r. done (
          record e {
            handler_vecs =
                set e.handler_vecs event_id
                  (if length vec == length r.1 then take r.0 r.1 else r.1);
          },
          r.2,
        )
