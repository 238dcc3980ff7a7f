-- ===== src/Emitter/Turn.antt =====
-- One round of the loop of `emit`, on the vector in three pieces.
use mathlib.Core.List.{Perm, perm_middle, append-nil, append_assoc}
use mathlib.Core.List.Perm
use gearkit.Base.{
  ℕ, suc, ◌+◌, ◌≡◌, inl, inr, refl, sym, ap, ap₂, ◌∙◌, subst, arith, List, [], ◌∷◌, ◌++◌, some,
  Bool, true, false, length, length-append, Bool-cases, get_elem?, set, if◌then◌else◌,
}
use gearkit.Base.Run.{done}
use gearkit.Emitter.{HandlerItem, load, swap}

module _ {A : Type 0} where
  pub get_elem?-middle :
      (pre : List A) (x : A) (post : List A) → get_elem? (pre ++ (x ∷ post)) (length pre) ≡ some x
  get_elem?-middle [] x post = refl
  get_elem?-middle (y ∷ pre) x post = get_elem?-middle pre x post

  pub set-middle :
      (pre : List A) (x v : A) (post : List A)
      → set (pre ++ (x ∷ post)) (length pre) v ≡ pre ++ (v ∷ post)
  set-middle [] x v post = refl
  set-middle (y ∷ pre) x v post = ap (λ l. y ∷ l) (set-middle pre x v post)

  -- The last value of a list that has one.
  pub last_of :
      (x : A) (xs : List A) → (front : List A) × (last : A) × (x ∷ xs ≡ front ++ (last ∷ []))
  last_of x [] = ([], x, refl)
  last_of x (y ∷ xs) = let (front, last, e) = last_of y xs in (x ∷ front, last, ap (λ l. x ∷ l) e)

  pub last_first : (front : List A) (last : A) → Perm (last ∷ front) (front ++ (last ∷ []))
  last_first front last =
      subst (λ l. Perm (last ∷ l) (front ++ (last ∷ []))) (append-nil front)
        (Perm.symm (perm_middle front []))

  abbrev pub keep : (A → Bool) → List A → List A
  keep p [] = []
  keep p (x ∷ xs) = if p x then x ∷ keep p xs else keep p xs

  keep-append : (p : A → Bool) (xs ys : List A) → keep p (xs ++ ys) ≡ keep p xs ++ keep p ys
  keep-append p [] ys = refl
  keep-append p (x ∷ xs) ys = elim (Bool-cases (p x)) [
    | inl is ↦ rw is (ap (λ l. x ∷ l) (keep-append p xs ys))
    | inr is_not ↦ rw is_not (keep-append p xs ys)
  ]

  keep-last_first :
      (p : A → Bool) (front : List A) (last : A)
      → Perm (keep p (last ∷ front)) (keep p (front ++ (last ∷ [])))
  keep-last_first p front last =
      subst (λ l. Perm (keep p (last ∷ front)) l) (sym (keep-append p front (last ∷ [])))
        (elim (Bool-cases (p last)) [
          | inl is ↦ rw is (last_first (keep p front) last)
          | inr is_not ↦
              rw is_not
                (subst (λ l. Perm (keep p front) l) (sym (append-nil (keep p front))) Perm.rfl)
        ])

  -- What `__swap` leaves of a piece whose first item is dropped: the last item in front, and again
  -- behind.
  pub record Dropped (pre : List A) (item : A) (mid post : List A) : Type 0 where
    pub rest : List A
    pub last : A
    pub run :
        swap (length pre) (length pre + length mid) (pre ++ ((item ∷ mid) ++ post))
        ≡ done (pre ++ (rest ++ (last ∷ post)))
    pub size : length rest ≡ length mid
    pub same : (p : A → Bool) → Perm (keep p rest) (keep p mid)

  pub load_run : (i : ℕ) (vec : List A) (v : A) → get_elem? vec i ≡ some v → load vec i ≡ done v
  unfolding load
  load_run i vec v there = rw (load, there) refl

  swap_run :
      (i j : ℕ) (vec out : List A) (v : A)
      → get_elem? vec j ≡ some v
      → set vec i v ≡ out
      → swap i j vec ≡ done out
  unfolding swap
  swap_run i j vec out v there e = rw (swap, load_run j vec v there) (ap done e)

  drop_last :
      (pre : List A) (item : A) (front : List A) (last : A) (post : List A)
      → Dropped pre item (front ++ (last ∷ [])) post
  drop_last pre item front last post =
      let vec = pre ++ ((item ∷ (front ++ (last ∷ []))) ++ post) in
      let size : length (front ++ (last ∷ [])) ≡ suc (length front) =
        length-append front (last ∷ []) ∙ omega arith in
      let split : vec ≡ (pre ++ (item ∷ front)) ++ (last ∷ post) =
        ap (λ l. pre ++ (item ∷ l)) (append_assoc front (last ∷ []) post)
        ∙ sym (append_assoc pre (item ∷ front) (last ∷ post)) in
      let place : length (pre ++ (item ∷ front)) ≡ length pre + length (front ++ (last ∷ [])) =
        omega (arith, length-append pre (item ∷ front), size) in
      record {
        rest = last ∷ front;
        last = last;
        run =
            swap_run (length pre) (length pre + length (front ++ (last ∷ []))) vec _ last
              (ap₂ get_elem? split (sym place) ∙ get_elem?-middle (pre ++ (item ∷ front)) last post)
              (set-middle pre item last ((front ++ (last ∷ [])) ++ post)
                ∙ ap (λ l. pre ++ (last ∷ l)) (append_assoc front (last ∷ []) post));
        size = sym size;
        same = λ p. keep-last_first p front last;
      }

  pub dropped_lem : (pre : List A) (item : A) (mid post : List A) → Dropped pre item mid post
  dropped_lem pre item [] post = record {
    rest = [];
    last = item;
    run =
        swap_run (length pre) (length pre + 0) (pre ++ (item ∷ post)) _ item
          (ap (get_elem? (pre ++ (item ∷ post))) (omega arith) ∙ get_elem?-middle pre item post)
          (set-middle pre item item post);
    size = refl;
    same = λ p. Perm.rfl;
  }
  dropped_lem pre item (x ∷ mid) post =
      let (front, last, e) = last_of x mid in
      subst (λ l. Dropped pre item l post) (sym e) (drop_last pre item front last post)

module _ {H : Type 0} where
  abbrev pub is_live : HandlerItem H → Bool
  is_live item = if item.deleted then false else true

  abbrev pub is_lasting : HandlerItem H → Bool
  is_lasting item = if item.deleted then false else (if item.once then false else true)

  -- What `call` does for each item, in order.
  abbrev pub called : {E W : Type 0} → (H → E → W → W) → E → List (HandlerItem H) → W → W
  called call event [] w = w
  called call event (item ∷ vec) w = called call event vec (call item.handler event w)
