-- ===== src/Emitter/Emit.antt =====
-- The rounds of the loop of `emit`.
use mathlib.Core.List.{append_assoc}
use gearkit.Base.{
  ℕ, suc, ◌+◌, ◌-◌, ◌≡◌, refl, sym, ap, ap₂, ◌∙◌, arith, List, [], ◌∷◌, ◌++◌, true, false, length,
  length-append, set, ◌==◌, eq_refl, ne_false,
}
use gearkit.Base.Run.{Run, done, ◌>>=◌}
use gearkit.Emitter.{HandlerItem, load, swap, visit, after_visit, emit_loop}
use gearkit.Emitter.Turn.{get_elem?-middle, set-middle, load_run, Dropped}

module _ {H E W : Type 0} (call : H → E → W → W) (event : E) where
  pub visit_deleted :
      (item : HandlerItem H) (w : W) → item.deleted ≡ true → visit call event item w ≡ (item, w)
  unfolding visit
  visit_deleted item w is = rw (visit, is) refl

  pub visit_once :
      (item : HandlerItem H) (w : W)
      → item.deleted ≡ false
      → item.once ≡ true
      → visit call event item w ≡ (record item { deleted = true }, call item.handler event w)
  unfolding visit
  visit_once item w is_not only = rw (visit, is_not, only) refl

  pub visit_kept :
      (item : HandlerItem H) (w : W)
      → item.deleted ≡ false
      → item.once ≡ false
      → visit call event item w ≡ (item, call item.handler event w)
  unfolding visit
  visit_kept item w is_not more = rw (visit, is_not, more) refl

  pub round_ends :
      (fuel i : ℕ) (vec : List (HandlerItem H)) (w : W)
      → emit_loop call event (suc fuel) i i vec w ≡ done (i, vec, w)
  unfolding emit_loop
  round_ends fuel i vec w = rw (emit_loop, eq_refl i) refl

  round_run :
      (fuel i tail : ℕ) (vec : List (HandlerItem H)) (item : HandlerItem H)
      (out : HandlerItem H × W) (w : W)
      → (i == tail) ≡ false
      → load vec i ≡ done item
      → visit call event item w ≡ out
      → emit_loop call event (suc fuel) i tail vec w
        ≡ after_visit call (emit_loop call event fuel) i tail vec out
  unfolding emit_loop
  round_run fuel i tail vec item out w more there seen =
      rw (emit_loop, more, there, ◌>>=◌)
        (ap (after_visit call (emit_loop call event fuel) i tail vec) seen)

  drops_run :
      (again : ℕ → ℕ → List (HandlerItem H) → W → Run (ℕ × List (HandlerItem H) × W)) (i tail : ℕ)
      (vec vec' : List (HandlerItem H)) (item : HandlerItem H) (w : W)
      → item.deleted ≡ true
      → swap i (tail - 1) (set vec i item) ≡ done vec'
      → after_visit call again i tail vec (item, w) ≡ again i (tail - 1) vec' w
  unfolding after_visit
  drops_run again i tail vec vec' item w gone swapped = rw (after_visit, gone, swapped) refl

  keeps_run :
      (again : ℕ → ℕ → List (HandlerItem H) → W → Run (ℕ × List (HandlerItem H) × W)) (i tail : ℕ)
      (vec vec' : List (HandlerItem H)) (item : HandlerItem H) (w : W)
      → item.deleted ≡ false
      → set vec i item ≡ vec'
      → after_visit call again i tail vec (item, w) ≡ again (i + 1) tail vec' w
  unfolding after_visit
  keeps_run again i tail vec vec' item w stays written = rw (after_visit, stays, written) refl

  -- A round that drops the item `item`, which `visit` left as `item'`.
  pub drop_lem :
      (fuel tail : ℕ) (pre mid post : List (HandlerItem H)) (item item' : HandlerItem H) (w w' : W)
      → tail ≡ length pre + suc (length mid)
      → visit call event item w ≡ (item', w')
      → item'.deleted ≡ true
      → (d : Dropped pre item' mid post)
      → emit_loop call event (suc fuel) (length pre) tail (pre ++ ((item ∷ mid) ++ post)) w
        ≡ emit_loop call event fuel
            (length pre)
            (length pre + length mid)
            (pre ++ (d.rest ++ (d.last ∷ post)))
            w'
  drop_lem fuel tail pre mid post item item' w w' e seen gone d =
      let less : tail - 1 ≡ length pre + length mid = omega (arith, e) in
      round_run fuel (length pre) tail (pre ++ (item ∷ (mid ++ post))) item (item', w') w
        (ne_false (λ z. omega (arith, z, e)))
        (load_run (length pre) _ item (get_elem?-middle pre item (mid ++ post))) seen
      ∙ drops_run (emit_loop call event fuel) (length pre) tail (pre ++ (item ∷ (mid ++ post)))
          (pre ++ (d.rest ++ (d.last ∷ post))) item' w' gone
          (ap₂ (swap (length pre)) less (set-middle pre item item' (mid ++ post)) ∙ d.run)
      ∙ ap (λ k. emit_loop call event fuel (length pre) k (pre ++ (d.rest ++ (d.last ∷ post))) w')
          less

  pub keep_lem :
      (fuel tail : ℕ) (pre mid post : List (HandlerItem H)) (item : HandlerItem H) (w w' : W)
      → tail ≡ length pre + suc (length mid)
      → visit call event item w ≡ (item, w')
      → item.deleted ≡ false
      → emit_loop call event (suc fuel) (length pre) tail (pre ++ ((item ∷ mid) ++ post)) w
        ≡ emit_loop call event fuel
            (length (pre ++ (item ∷ [])))
            tail
            ((pre ++ (item ∷ [])) ++ (mid ++ post))
            w'
  keep_lem fuel tail pre mid post item w w' e seen stays =
      round_run fuel (length pre) tail (pre ++ (item ∷ (mid ++ post))) item (item, w') w
        (ne_false (λ z. omega (arith, z, e)))
        (load_run (length pre) _ item (get_elem?-middle pre item (mid ++ post))) seen
      ∙ keeps_run (emit_loop call event fuel) (length pre) tail (pre ++ (item ∷ (mid ++ post)))
          ((pre ++ (item ∷ [])) ++ (mid ++ post)) item w' stays
          (set-middle pre item item (mid ++ post)
            ∙ sym (append_assoc pre (item ∷ []) (mid ++ post)))
      ∙ ap (λ k. emit_loop call event fuel k tail ((pre ++ (item ∷ [])) ++ (mid ++ post)) w')
          (sym (length-append pre (item ∷ [])))
