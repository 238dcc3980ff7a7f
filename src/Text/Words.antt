-- ===== src/Text/Words.antt =====
-- What `split` finds: the words between separators that are not empty.
use gearkit.Base.{
  ℕ, zero, suc, ◌+◌, ◌<◌, ◌≡◌, refl, sym, ap, ◌∙◌, arith, List, [], ◌∷◌, ◌++◌, Option, none, some,
  false, ◌==◌, if◌then◌else◌, length, Bool-cases, Option-cases, inl, inr,
}
use mathlib.Core.List.{append_assoc, append-nil}
use gearkit.Text.{cut, split_loop, split}

-- The characters before the first separator, between two of them, and behind the last.
abbrev pub add_to_first : ℕ → List (List ℕ) → List (List ℕ)
add_to_first c [] = (c ∷ []) ∷ []
add_to_first c (w ∷ ws) = (c ∷ w) ∷ ws

abbrev pub segments : ℕ → List ℕ → List (List ℕ)
segments separator [] = [] ∷ []
segments separator (c ∷ cs) =
    let rest = segments separator cs in if c == separator then [] ∷ rest else add_to_first c rest

abbrev pub non_empty : List (List ℕ) → List (List ℕ)
non_empty [] = []
non_empty ([] ∷ ws) = non_empty ws
non_empty ((c ∷ w) ∷ ws) = (c ∷ w) ∷ non_empty ws

abbrev or_nil : Option (List ℕ) → List ℕ
or_nil none = []
or_nil (some s) = s

cut-none : (separator : ℕ) (s : List ℕ) → (cut separator s).1 ≡ none → segments separator s ≡ s ∷ []
unfolding cut
cut-none separator [] h = refl
cut-none separator (c ∷ cs) h = elim (Bool-cases (c == separator)) [
  | inl e ↦ let hit = rw e at h in cc
  | inr e ↦ rw (e, cut-none separator cs (rw e at h)) refl
]

cut-some :
    (separator : ℕ) (s : List ℕ) {after : List ℕ}
    → (cut separator s).1 ≡ some after
    → (segments separator s ≡ (cut separator s).0 ∷ segments separator after)
      × (length after < length s)
unfolding cut
cut-some separator [] h = cc
cut-some separator (c ∷ cs) {after} h = elim (Bool-cases (c == separator)) [
  | inl e ↦
      let same : cs ≡ after = ap or_nil (rw e at h) in
      (rw (e, ← same) refl, rw (← same) (omega arith))
  | inr e ↦ let (seg, less) = cut-some separator cs (rw e at h) in (rw (e, seg) refl, omega arith)
]

cut-cons :
    (separator c : ℕ) (cs : List ℕ)
    → (c == separator) ≡ false
    → cut separator (c ∷ cs) ≡ (c ∷ (cut separator cs).0, (cut separator cs).1)
unfolding cut
cut-cons separator c cs e = rw e refl

split_loop_lem :
    (fuel separator : ℕ) (text : List ℕ) (vec : List (List ℕ))
    → length text < fuel
    → split_loop fuel separator text vec ≡ some (vec ++ non_empty (segments separator text))
unfolding split_loop
split_loop_lem zero separator text vec h = absurd (omega arith)
split_loop_lem (suc fuel) separator [] vec h = ap some (sym (append-nil vec))
split_loop_lem (suc fuel) separator (c ∷ cs) vec h = elim (Bool-cases (c == separator)) [
  | inl e ↦ rw (e, split_loop) (split_loop_lem fuel separator cs vec (omega arith))
  | inr e ↦ elim (Option-cases (cut separator cs).1) [
    | inl none_left ↦
        rw (e, split_loop, cut-cons separator c cs e, none_left, cut-none separator cs none_left)
          refl
    | inr (after, left) ↦
        let (seg, less) = cut-some separator cs left in
        let rest =
          split_loop_lem fuel separator after (vec ++ ((c ∷ (cut separator cs).0) ∷ []))
            (omega arith) in
        rw (e, split_loop, cut-cons separator c cs e, left, cut-cons separator c cs e, seg)
          (rest ∙ ap some (append_assoc vec _ _))
  ]
]

-- `split` comes to its end, and puts behind what was in the vector the pieces of the text between
-- separators, in order, without the empty ones.
pub split_lem :
    (text : List ℕ) (vec : List (List ℕ)) (separator : ℕ)
    → split text vec separator ≡ some (vec ++ non_empty (segments separator text))
unfolding split
split_lem text vec separator = split_loop_lem (length text + 1) separator text vec (omega arith)
