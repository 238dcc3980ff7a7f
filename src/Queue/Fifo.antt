-- ===== src/Queue/Fifo.antt =====
-- What a bounded queue promises its clients: a list of at most `cap` values, oldest first.
use gearkit.Base.{
  ℕ, List, [], ◌∷◌, ◌++◌, Option, none, some, Bool, true, false, ltb, if◌then◌else◌, length,
}

-- A call of a client, and what it sees of one.
pub data Op {ℓ} (A : Type ℓ) : Type ℓ where
  put : A → Op A
  get : Op A
  peek : Op A

abbrev pub Reply {ℓ} : Type ℓ → Type ℓ
Reply A = Bool × Option A

module _ {ℓ} {A : Type ℓ} where
  unfoldable pub pop : List A → Bool × Option A × List A
  pop [] = (false, none, [])
  pop (x ∷ xs) = (true, some x, xs)

  unfoldable pub front : List A → Bool × Option A
  front [] = (false, none)
  front (x ∷ xs) = (true, some x)

  unfoldable pub push : ℕ → A → List A → Bool × List A
  push cap x xs = if ltb (length xs) cap then (true, xs ++ (x ∷ [])) else (false, xs)

  unfoldable pub run : ℕ → List A → List (Op A) → List (Reply A)
  run cap xs [] = []
  run cap xs (put x ∷ ops) = let (ok, ys) = push cap x xs in (ok, none) ∷ run cap ys ops
  run cap xs (get ∷ ops) = let (ok, out, ys) = pop xs in (ok, out) ∷ run cap ys ops
  run cap xs (peek ∷ ops) = front xs ∷ run cap xs ops
