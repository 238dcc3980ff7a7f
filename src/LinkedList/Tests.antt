-- ===== src/LinkedList/Tests.antt =====
-- A list of two nodes, and the theorem at a concrete input.
use gearkit.Base.{
  ℕ, zero, suc, ◌==◌, ne_false, false, ◌≡◌, refl, arith, get_elem?, [], ◌∷◌, some, none, true,
}
use gearkit.Base.Run.{done, fault, Returns, ◌>>=◌}
use gearkit.Array.Cells.{find, cell}
use gearkit.LinkedList.{
  LinkedList, Heap, new, push, link_tail, pop, pop_node, cut_prev, front, clear,
}
use gearkit.LinkedList.Nodes.{Holds}
use gearkit.LinkedList.Clear.{clear_dangles}

abbrev heap : Heap ℕ
heap = []

abbrev two : LinkedList ℕ
two = record {
  head = some 0;
  tail = some 1;
  count = 2;
  heap =
      some (record { next = some 1; prev = none; value = 5 })
      ∷ some (record { next = none; prev = some 0; value = 6 })
      ∷ [];
}

two_pushed : (push 5 (new heap) >>= push 6) ≡ done two
unfolding push new link_tail
two_pushed = refl

first_popped : (pop two >>= λ r. front r.2) ≡ done (true, some 6)
unfolding pop pop_node cut_prev front
first_popped = refl

abbrev one : LinkedList ℕ
one = record {
  head = some 0;
  tail = some 0;
  count = 1;
  heap = some (record { next = none; prev = none; value = 5 }) ∷ [];
}

one_linked :
    (j : ℕ) (v : ℕ)
    → find j ((0, 5) ∷ []) ≡ some v
    → get_elem? one.heap j ≡ some (cell j none ((0, 5) ∷ []))
one_linked zero v e = refl
one_linked (suc j) v e =
    let off : (0 == suc j) ≡ false = ne_false {a = 0} {b = suc j} (λ t. omega (arith, t)) in
    let gone = rw off at e in cc

one-Holds : Holds one ((0, 5) ∷ [])
one-Holds = record {
  counted = refl;
  head = refl;
  tail = refl;
  distinct = (refl, tt);
  linked = one_linked;
}

clear_dangles_example : Returns (clear 1 one) λ l.
    ((j : ℕ) (v : ℕ) → find j ((0, 5) ∷ []) ≡ some v → get_elem? l.heap j ≡ some none)
    × (l.count ≡ 1)
    × (front l ≡ fault)
    × (pop l ≡ fault)
clear_dangles_example = clear_dangles 1 one-Holds (omega arith) (omega arith)
