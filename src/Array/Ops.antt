-- ===== src/Array/Ops.antt =====
-- What an array holds, the write of one link, and `get`.
use gearkit.Base.{
  ℕ, ◌≤◌, ◌<◌, ◌≡◌, refl, sym, ap, subst, ◌∙◌, arith, List, Option, none, some, true, false, ◌==◌,
  length, get_elem?, Bool-cases, Option-cases, ==_iff, eq_refl, eq_false, inl, inr, length-set,
  get_elem?-set_self, get_elem?-set_ne, get_elem?-lt, ltb, ltb→lt,
}
use gearkit.Base.{set as set_at}
use gearkit.Base.Run.{done, Returns, ◌>>=◌}
use gearkit.Array.{Item, Array, is_at, item_empty, load, set_next, get}
use gearkit.Array.Cells.{
  find, Distinct, first_or, last_or, cell, fix_next, cell-none, cell-some, item_empty-cell,
}

-- `p` is -1 or a place of the array.
abbrev pub Within : ℕ → Option ℕ → Type 0
Within len p = (q : ℕ) → len ≤ q → is_at p q ≡ false

pub Within-lt : {len k : ℕ} → Within len (some k) → k < len
Within-lt {len} {k} h = elim (Bool-cases (ltb k len)) [
  | inl e ↦ ltb→lt k len e
  | inr e ↦ let clash : true ≡ false = sym (eq_refl k) ∙ h k (ground arith) in cc
]

module _ {ℓ} {A : Type ℓ} where
  -- What a slot shows: its cell, or an item that looks empty.
  abbrev pub Shows : Option (Item A) → Option (Item A) → Type ℓ
  Shows (some c) o = o ≡ some c
  Shows none o = (item : Item A) × (o ≡ some item) × (item_empty item ≡ true)

  pub record Holds (len : ℕ) (a : Array A) (es : List (ℕ × A)) : Type ℓ where
    pub size : length a.array ≡ len
    pub counted : a.count ≡ length es
    pub head : a.head ≡ first_or es none
    pub tail : a.tail ≡ last_or es none
    pub distinct : Distinct es
    pub inside : (j : ℕ) → len ≤ j → find j es ≡ none
    pub slots : (j : ℕ) → j < len → Shows (cell j none es) (get_elem? a.array j)

  pub vacant :
      {len : ℕ} {a : Array A} {es : List (ℕ × A)} (i : ℕ)
      → Holds len a es
      → i < len
      → find i es ≡ none
      → (item : Item A) × (get_elem? a.array i ≡ some item) × (item_empty item ≡ true)
  vacant {a = a} {es = es} i h lt e =
      subst (λ c. Shows c (get_elem? a.array i)) (cell-none i none es e) (h.slots i lt)

  pub occupied :
      {len : ℕ} {a : Array A} {es : List (ℕ × A)} (i : ℕ) {v : A}
      → Holds len a es
      → i < len
      → find i es ≡ some v
      → (c : Item A) × (cell i none es ≡ some c)
        × (get_elem? a.array i ≡ some c)
        × (item_empty c ≡ false)
        × (some c.value ≡ some v)
  occupied {a = a} {es = es} i h lt e =
      let (c, is, value) = cell-some i none es e in
      (
        c,
        is,
        subst (λ x. Shows x (get_elem? a.array i)) is (h.slots i lt),
        item_empty-cell i none es h.distinct tt is,
        value,
      )

  pub set_next_lem :
      (p n : Option ℕ) (arr : List (Item A))
      → Within (length arr) p
      → Returns (set_next p n arr) λ arr'.
        (length arr' ≡ length arr)
        × ((j : ℕ) → get_elem? arr' j ≡ fix_next (is_at p j) n (get_elem? arr j))
  unfolding set_next
  set_next_lem none n arr h = (arr, refl, (refl, λ j. refl))
  set_next_lem (some k) n arr h =
      let (item, e) = get_elem?-lt arr k (Within-lt h) in
      let item' : Item A = record item { next = n } in
      (
        set_at arr k item',
        rw (e, load, ◌>>=◌) refl,
        (
          length-set arr k item',
          λ j. elim (Bool-cases (k == j)) [
            | inl f ↦
                let same = (==_iff k j).0 f in
                rw (f, ← same, e) (get_elem?-set_self arr k item' (Within-lt h))
            | inr f ↦ rw f (get_elem?-set_ne arr item' (eq_false f))
          ],
        ),
      )

  -- In a slot of the array, `get` finds the value set there, or nothing.
  pub get_refines :
      {len : ℕ} {a : Array A} {es : List (ℕ × A)} (i : ℕ)
      → Holds len a es
      → i < len
      → get i a ≡ done (find i es)
  unfolding get
  get_refines {es = es} i h lt = elim (Option-cases (find i es)) [
    | inl e ↦ let (item, here, looks) = vacant i h lt e in rw (here, load, ◌>>=◌, looks, e) refl
    | inr (v, e) ↦
        let (c, is, here, looks, value) = occupied i h lt e in
        rw (here, load, ◌>>=◌, looks, e) (ap done value)
  ]
