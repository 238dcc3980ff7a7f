-- ===== src/Emitter/Tests.antt =====
-- Three handlers that write their numbers down, and the theorem at a concrete input.
use gearkit.Base.{ℕ, refl, List, [], ◌∷◌, ◌++◌, Bool, true, false}
use gearkit.Base.Run.{Returns}
use gearkit.Emitter.{HandlerItem, Emitter, emit}
use gearkit.Emitter.Called.{Emitted, emit-Emitted}

abbrev item : ℕ → Bool → Bool → HandlerItem ℕ
item id only gone = record { id = id; handler = id; once = only; deleted = gone }

abbrev three : List (HandlerItem ℕ)
three = item 1 true false ∷ item 2 false true ∷ item 3 false false ∷ []

abbrev emitter : Emitter ℕ
emitter = record { id = 3; handler_vecs = [] ∷ three ∷ [] }

abbrev write_down : ℕ → ℕ → List ℕ → List ℕ
write_down id event log = log ++ (id ∷ [])

emit-Emitted_example :
    Returns (emit write_down 1 0 emitter []) (Emitted write_down 1 0 emitter three [])
emit-Emitted_example = emit-Emitted write_down 1 0 emitter three [] refl
