-- ===== src/Text.antt =====
-- kit/Functions.cpp: `split`.
pub mod Words
mod Tests
use gearkit.Base.{
  ℕ, zero, suc, ◌+◌, length, List, [], ◌∷◌, ◌++◌, Option, none, some, Bool, true, false, ◌==◌,
  if◌then◌else◌,
}

-- `text.find(separator, pos)` on the characters from `pos` on: those before the separator, and
-- those after it, where there is one.
unfoldable pub cut : ℕ → List ℕ → List ℕ × Option (List ℕ)
cut separator [] = ([], none)
cut separator (c ∷ cs) =
    let (front, after) = cut separator cs in
    if c == separator then ([], some cs) else (c ∷ front, after)

-- The loop, on the characters from `pos` on, with what follows it: `none` where the fuel runs out.
unfoldable pub split_loop : ℕ → ℕ → List ℕ → List (List ℕ) → Option (List (List ℕ))
split_loop zero separator text vec = none
split_loop (suc fuel) separator [] vec = some vec
split_loop (suc fuel) separator (c ∷ cs) vec = elim (c == separator) [
  | true ↦ split_loop fuel separator cs vec
  | false ↦
      let (front, after) = cut separator (c ∷ cs) in
      elim after [
        | none ↦ some (vec ++ ((c ∷ cs) ∷ []))
        | some rest ↦ split_loop fuel separator rest (vec ++ (front ∷ []))
      ]
]

-- Every round passes a character.
unfoldable pub split : List ℕ → List (List ℕ) → ℕ → Option (List (List ℕ))
split text vec separator = split_loop (length text + 1) separator text vec
