-- ===== src/Emitter/Loop.antt =====
-- The loop of `emit`.
use mathlib.Core.List.{Perm, append-nil, append_assoc}
use mathlib.Core.List.Perm
use gearkit.Base.{
  ℕ, zero, suc, ◌+◌, ◌≡◌, ◌<◌, inl, inr, refl, sym, ap, ◌∙◌, subst, arith, List, [], ◌∷◌, ◌++◌,
  Bool, true, false, length, length-append, Bool-cases,
}
use gearkit.Base.Run.{Returns}
use gearkit.Emitter.{HandlerItem, emit_loop}
use gearkit.Emitter.Turn.{keep, Dropped, dropped_lem, is_live, is_lasting, called}
use gearkit.Emitter.Emit.{visit_deleted, visit_once, visit_kept, round_ends, drop_lem, keep_lem}

-- What the loop does with the items of `mid` behind those of `pre`: `kept` stay, and `calls` are called,
-- in this order.
pub record Looped {H E W : Type 0} (call : H → E → W → W) (event : E)
    (pre mid post : List (HandlerItem H)) (w : W) (r : ℕ × List (HandlerItem H) × W) : Type 0 where
  pub kept : List (HandlerItem H)
  pub calls : List (HandlerItem H)
  pub behind : List (HandlerItem H)
  pub tail : r.0 ≡ length (pre ++ kept)
  pub vec : r.1 ≡ (pre ++ kept) ++ behind
  pub size : length kept + length behind ≡ length mid + length post
  pub lasting : Perm kept (keep is_lasting mid)
  pub once_each : Perm calls (keep is_live mid)
  pub state : r.2 ≡ called call event calls w

module _ {A : Type 0} (p : A → Bool) where
  keep_yes : (x : A) (xs : List A) → p x ≡ true → keep p (x ∷ xs) ≡ x ∷ keep p xs
  keep_yes x xs e = rw e refl

  keep_no : (x : A) (xs : List A) → p x ≡ false → keep p (x ∷ xs) ≡ keep p xs
  keep_no x xs e = rw e refl

module _ {H : Type 0} (item : HandlerItem H) where
  deleted_dead : item.deleted ≡ true → (is_live item ≡ false) × (is_lasting item ≡ false)
  deleted_dead e = rw e (refl, refl)

  once_leaves :
      item.deleted ≡ false → item.once ≡ true → (is_live item ≡ true) × (is_lasting item ≡ false)
  once_leaves e f = rw (e, f) (refl, refl)

  other_stays :
      item.deleted ≡ false → item.once ≡ false → (is_live item ≡ true) × (is_lasting item ≡ true)
  other_stays e f = rw (e, f) (refl, refl)

module _ {H E W : Type 0} (call : H → E → W → W) (event : E) where
  ends_lem :
      (pre post : List (HandlerItem H)) (w : W)
      → Looped call event pre [] post w (length pre, pre ++ post, w)
  ends_lem pre post w = record {
    kept = [];
    calls = [];
    behind = post;
    tail = ap length (sym (append-nil pre));
    vec = ap (λ l. l ++ post) (sym (append-nil pre));
    size = refl;
    lasting = Perm.rfl;
    once_each = Perm.rfl;
    state = refl;
  }

  deleted_lem :
      (pre mid post : List (HandlerItem H)) (item item' : HandlerItem H) (w : W)
      (r : ℕ × List (HandlerItem H) × W)
      → item.deleted ≡ true
      → (d : Dropped pre item' mid post) → Looped call event pre d.rest (d.last ∷ post) w r
      → Looped call event pre (item ∷ mid) post w r
  deleted_lem pre mid post item item' w r is d l =
      let (dead, gone) = deleted_dead item is in
      record {
        kept = l.kept;
        calls = l.calls;
        behind = l.behind;
        tail = l.tail;
        vec = l.vec;
        size = omega (arith, l.size, d.size);
        lasting =
            subst (λ k. Perm l.kept k) (sym (keep_no is_lasting item mid gone))
              (Perm.trans l.lasting (d.same is_lasting));
        once_each =
            subst (λ k. Perm l.calls k) (sym (keep_no is_live item mid dead))
              (Perm.trans l.once_each (d.same is_live));
        state = l.state;
      }

  once_lem :
      (pre mid post : List (HandlerItem H)) (item item' : HandlerItem H) (w : W)
      (r : ℕ × List (HandlerItem H) × W)
      → item.deleted ≡ false
      → item.once ≡ true
      → (d : Dropped pre item' mid post)
      → Looped call event pre d.rest (d.last ∷ post) (call item.handler event w) r
      → Looped call event pre (item ∷ mid) post w r
  once_lem pre mid post item item' w r is_not only d l =
      let (lives, gone) = once_leaves item is_not only in
      record {
        kept = l.kept;
        calls = item ∷ l.calls;
        behind = l.behind;
        tail = l.tail;
        vec = l.vec;
        size = omega (arith, l.size, d.size);
        lasting =
            subst (λ k. Perm l.kept k) (sym (keep_no is_lasting item mid gone))
              (Perm.trans l.lasting (d.same is_lasting));
        once_each =
            subst (λ k. Perm (item ∷ l.calls) k) (sym (keep_yes is_live item mid lives))
              (Perm.cons item (Perm.trans l.once_each (d.same is_live)));
        state = l.state;
      }

  kept_lem :
      (pre mid post : List (HandlerItem H)) (item : HandlerItem H) (w : W)
      (r : ℕ × List (HandlerItem H) × W)
      → item.deleted ≡ false
      → item.once ≡ false
      → Looped call event (pre ++ (item ∷ [])) mid post (call item.handler event w) r
      → Looped call event pre (item ∷ mid) post w r
  kept_lem pre mid post item w r is_not more l =
      let (lives, lasts) = other_stays item is_not more in
      let whole = append_assoc pre (item ∷ []) l.kept in
      record {
        kept = item ∷ l.kept;
        calls = item ∷ l.calls;
        behind = l.behind;
        tail = l.tail ∙ ap length whole;
        vec = l.vec ∙ ap (λ k. k ++ l.behind) whole;
        size = omega (arith, l.size);
        lasting =
            subst (λ k. Perm (item ∷ l.kept) k) (sym (keep_yes is_lasting item mid lasts))
              (Perm.cons item l.lasting);
        once_each =
            subst (λ k. Perm (item ∷ l.calls) k) (sym (keep_yes is_live item mid lives))
              (Perm.cons item l.once_each);
        state = l.state;
      }

  pub loop_lem :
      (fuel tail : ℕ) (pre mid post : List (HandlerItem H)) (w : W)
      → length mid < fuel
      → tail ≡ length pre + length mid
      → Returns
          (emit_loop call event fuel (length pre) tail (pre ++ (mid ++ post)) w)
          (Looped call event pre mid post w)
  loop_lem zero tail pre mid post w f e = absurd (omega (arith, f))
  loop_lem (suc fuel) tail pre [] post w f e =
      let here : tail ≡ length pre = omega (arith, e) in
      (
        (length pre, pre ++ post, w),
        ap (λ k. emit_loop call event (suc fuel) (length pre) k (pre ++ post) w) here
            ∙ round_ends call event fuel (length pre) (pre ++ post) w,
        ends_lem pre post w,
      )
  loop_lem (suc fuel) tail pre (item ∷ mid) post w f e = elim (Bool-cases item.deleted) [
    | inl is ↦
        let d = dropped_lem pre item mid post in
        let (r, run, l) =
          loop_lem fuel (length pre + length mid) pre d.rest (d.last ∷ post) w
            (omega (arith, f, d.size)) (omega (arith, d.size)) in
        (
          r,
          drop_lem call event fuel tail pre mid post item item w w e
                (visit_deleted call event item w is) is d
              ∙ run,
          deleted_lem pre mid post item item w r is d l,
        )
    | inr is_not ↦ elim (Bool-cases item.once) [
      | inl only ↦
          let gone = record item { deleted = true } in
          let d = dropped_lem pre gone mid post in
          let w' = call item.handler event w in
          let (r, run, l) =
            loop_lem fuel (length pre + length mid) pre d.rest (d.last ∷ post) w'
              (omega (arith, f, d.size)) (omega (arith, d.size)) in
          (
            r,
            drop_lem call event fuel tail pre mid post item gone w w' e
                  (visit_once call event item w is_not only) refl d
                ∙ run,
            once_lem pre mid post item gone w r is_not only d l,
          )
      | inr more ↦
          let w' = call item.handler event w in
          let (r, run, l) =
            loop_lem fuel tail (pre ++ (item ∷ [])) mid post w' (omega (arith, f))
              (omega (arith, e, length-append pre (item ∷ []))) in
          (
            r,
            keep_lem call event fuel tail pre mid post item w w' e
                  (visit_kept call event item w is_not more) is_not
                ∙ run,
            kept_lem pre mid post item w r is_not more l,
          )
    ]
  ]
