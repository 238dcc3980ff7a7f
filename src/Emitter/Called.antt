-- ===== src/Emitter/Called.antt =====
-- `emit`: which handlers are called, and which stay.
use mathlib.Core.List.{Perm, append-nil}
use gearkit.Base.{
  ℕ, suc, ◌≡◌, refl, sym, ap, ap₂, ◌∙◌, arith, List, [], ◌++◌, some, true, length, length-append,
  get_elem?, set, take, ◌==◌, eq_refl, if◌then◌else◌,
}
use gearkit.Base.Slices.{take-append_length}
use gearkit.Base.Run.{done, Returns, ◌>>=◌}
use gearkit.Emitter.{HandlerItem, Emitter, load, emit_loop, emit}
use gearkit.Emitter.Turn.{load_run, keep, is_live, is_lasting, called}
use gearkit.Emitter.Loop.{Looped, loop_lem}

-- What `emit` does with the handlers of one event.
pub record Emitted {H E W : Type 0} (call : H → E → W → W) (event_id : ℕ) (event : E)
    (e : Emitter H) (vec : List (HandlerItem H)) (w : W) (r : Emitter H × W) : Type 0 where
  pub kept : List (HandlerItem H)
  pub calls : List (HandlerItem H)
  pub state : r.1 ≡ called call event calls w
  pub once_each : Perm calls (keep is_live vec)
  pub lasting : Perm kept (keep is_lasting vec)
  pub emitter : r.0 ≡ record e { handler_vecs = set e.handler_vecs event_id kept }

module _ {H E W : Type 0} (call : H → E → W → W) where
  emit_run :
      (event_id : ℕ) (event : E) (e : Emitter H) (vec : List (HandlerItem H)) (w : W)
      (r : ℕ × List (HandlerItem H) × W)
      → load e.handler_vecs event_id ≡ done vec
      → emit_loop call event (suc (length vec)) 0 (length vec) vec w ≡ done r
      → emit call event_id event e w
        ≡ done (
          record e {
            handler_vecs =
                set e.handler_vecs event_id
                  (if length vec == length r.1 then take r.0 r.1 else r.1);
          },
          r.2,
        )
  unfolding emit
  emit_run event_id event e vec w r there run = rw (emit, there, ◌>>=◌, run) refl

  cut_lem :
      (event : E) (vec : List (HandlerItem H)) (w : W) (r : ℕ × List (HandlerItem H) × W)
      → (l : Looped call event [] vec [] w r)
      → (if length vec == length r.1 then take r.0 r.1 else r.1) ≡ l.kept
  cut_lem event vec w r l =
      let same : length vec ≡ length r.1 =
        omega (arith, ap length l.vec, length-append l.kept l.behind, l.size) in
      let test : (length vec == length r.1) ≡ true =
        ap (λ k. length vec == k) (sym same) ∙ eq_refl (length vec) in
      rw test (ap₂ take l.tail l.vec ∙ take-append_length l.kept l.behind)

  -- `emit` of an event of the emitter stays inside its vectors and comes to its end. Every handler of the
  -- event that is not deleted is called, once for each time that it was added; those of them that are
  -- not for one call stay, and the other events keep their handlers.
  pub emit-Emitted :
      (event_id : ℕ) (event : E) (e : Emitter H) (vec : List (HandlerItem H)) (w : W)
      → get_elem? e.handler_vecs event_id ≡ some vec
      → Returns (emit call event_id event e w) (Emitted call event_id event e vec w)
  emit-Emitted event_id event e vec w there =
      let whole : vec ++ [] ≡ vec = append-nil vec in
      let (r, run, l) =
        loop_lem call event (suc (length vec)) (length vec) [] vec [] w (omega arith)
          (omega arith) in
      (
        _,
        emit_run event_id event e vec w r (load_run event_id e.handler_vecs vec there) (
            ap (λ k. emit_loop call event (suc (length vec)) 0 (length vec) k w) (sym whole) ∙ run),
        record {
          kept = l.kept;
          calls = l.calls;
          state = l.state;
          once_each = l.once_each;
          lasting = l.lasting;
          emitter =
              ap (λ k. record e { handler_vecs = set e.handler_vecs event_id k })
                (cut_lem event vec w r l);
        },
      )
