-- ===== src/Timer/Slots.antt =====
-- What `addNode` does to the slots: it puts a node in front of one of them.
use gearkit.Base.Table.{put, put_self, put_other}
use mathlib.Core.List.{append_assoc}
use gearkit.Base.{
  All-append, ℕ, zero, suc, ◌+◌, ◌%◌, ◌≡◌, ◌≢◌, inl, inr, refl, sym, ap, ◌∙◌, subst, List, [], ◌∷◌,
  ◌++◌, false, ltb, ◌==◌, Bool-cases, ==_iff, ne_false, All,
}
use gearkit.Timer.{Node, Slot, Wheel, bits, insert, add_node}

-- The numbers of the nodes satisfy `P`.
abbrev pub Have : (ℕ → Type 0) → List Node → Type 0
Have P l = All (λ n. P n.id) l

abbrev pub slot_at : (ℕ → Wheel) → ℕ → ℕ → Slot
slot_at ws i j = (ws i).nodes j

-- A slot that has got more nodes in front, whose numbers satisfy `P`.
pub record SlotGrown (P : ℕ → Type 0) (s s' : Slot) : Type 0 where
  pub front : List Node
  pub have : Have P front
  pub nodes : s'.nodes ≡ front ++ s.nodes
  pub ends : s'.ends ≡ s.ends

pub record Grown (P : ℕ → Type 0) (ws ws' : ℕ → Wheel) : Type 0 where
  pub slots : (i j : ℕ) → SlotGrown P (slot_at ws i j) (slot_at ws' i j)
  pub pos : (i : ℕ) → (ws' i).pos ≡ (ws i).pos

slot_same : (P : ℕ → Type 0) (s s' : Slot) → s' ≡ s → SlotGrown P s s'
slot_same P s s' e = record {
  front = [];
  have = tt;
  nodes = ap (λ t. t.nodes) e;
  ends = ap (λ t. t.ends) e;
}

pub Grown-refl : (P : ℕ → Type 0) (ws : ℕ → Wheel) → Grown P ws ws
Grown-refl P ws = record { slots = λ i j. slot_same P _ _ refl; pos = λ i. refl }

pub Grown-trans :
    (P : ℕ → Type 0) (ws ws' ws'' : ℕ → Wheel) → Grown P ws ws' → Grown P ws' ws'' → Grown P ws ws''
Grown-trans P ws ws' ws'' g h = record {
  slots = λ i j.
      let a = g.slots i j in
      let b = h.slots i j in
      record {
        front = b.front ++ a.front;
        have = All-append (λ n. P n.id) b.front a.front b.have a.have;
        nodes =
            b.nodes
            ∙ ap (λ l. b.front ++ l) a.nodes
            ∙ sym (append_assoc b.front a.front (slot_at ws i j).nodes);
        ends = b.ends ∙ a.ends;
      };
  pos = λ i. h.pos i ∙ g.pos i;
}

module _ (P : ℕ → Type 0) (node : Node) (other : P node.id) where
  slot_grows : (s : Slot) → SlotGrown P s (record s { nodes = node ∷ s.nodes })
  slot_grows s = record { front = node ∷ []; have = (other, tt); nodes = refl; ends = refl }

  insert_here :
      (index pos : ℕ) (ws : ℕ → Wheel)
      → insert index pos node ws index ≡ record (ws index) {
        nodes =
            put pos
              (record (slot_at ws index pos) { nodes = node ∷ (slot_at ws index pos).nodes })
              (ws index).nodes;
      }
  unfolding insert
  insert_here index pos ws = put_self index _ ws

  insert_there :
      (index pos : ℕ) (ws : ℕ → Wheel) (i : ℕ)
      → (i == index) ≡ false
      → insert index pos node ws i ≡ ws i
  unfolding insert
  insert_there index pos ws i e = put_other index _ ws i e

  pub insert_slot_self :
      (index pos : ℕ) (ws : ℕ → Wheel)
      → slot_at (insert index pos node ws) index pos
        ≡ record (slot_at ws index pos) { nodes = node ∷ (slot_at ws index pos).nodes }
  insert_slot_self index pos ws =
      ap (λ w. w.nodes pos) (insert_here index pos ws) ∙ put_self pos _ (ws index).nodes

  pub insert_slot_other :
      (index pos : ℕ) (ws : ℕ → Wheel) (i j : ℕ)
      → (i ≡ index → j ≢ pos)
      → slot_at (insert index pos node ws) i j ≡ slot_at ws i j
  insert_slot_other index pos ws i j off = elim (Bool-cases (i == index)) [
    | inl is ↦
        let e = (==_iff i index).0 is in
        ap (λ k. slot_at (insert index pos node ws) k j) e
        ∙ ap (λ w. w.nodes j) (insert_here index pos ws)
        ∙ put_other pos _ (ws index).nodes j (ne_false (off e))
        ∙ ap (λ k. slot_at ws k j) (sym e)
    | inr is_not ↦ ap (λ w. w.nodes j) (insert_there index pos ws i is_not)
  ]

  wheel_grows :
      (index pos j : ℕ) (ws : ℕ → Wheel)
      → SlotGrown P (slot_at ws index j) (slot_at (insert index pos node ws) index j)
  wheel_grows index pos j ws =
      let grown : Slot = record (slot_at ws index pos) {
        nodes = node ∷ (slot_at ws index pos).nodes;
      } in
      let here : slot_at (insert index pos node ws) index j ≡ put pos grown (ws index).nodes j =
        ap (λ w. w.nodes j) (insert_here index pos ws) in
      elim (Bool-cases (j == pos)) [
        | inl is ↦
            let e = (==_iff j pos).0 is in
            subst
              (λ k. SlotGrown P (slot_at ws index k) (slot_at (insert index pos node ws) index j))
              (sym e)
              (subst (SlotGrown P (slot_at ws index pos))
                (sym (
                  here
                  ∙ ap (put pos grown (ws index).nodes) e
                  ∙ put_self pos grown (ws index).nodes))
                (slot_grows (slot_at ws index pos)))
        | inr is_not ↦ slot_same P _ _ (here ∙ put_other pos grown (ws index).nodes j is_not)
      ]

  insert-Grown : (index pos : ℕ) (ws : ℕ → Wheel) → Grown P ws (insert index pos node ws)
  insert-Grown index pos ws = record {
    slots = λ i j. elim (Bool-cases (i == index)) [
      | inl is ↦
          let e = (==_iff i index).0 is in
          subst (λ k. SlotGrown P (slot_at ws k j) (slot_at (insert index pos node ws) k j)) (sym e)
            (wheel_grows index pos j ws)
      | inr is_not ↦ slot_same P _ _ (ap (λ w. w.nodes j) (insert_there index pos ws i is_not))
    ];
    pos = λ i. elim (Bool-cases (i == index)) [
      | inl is ↦
          let e = (==_iff i index).0 is in
          subst (λ k. (insert index pos node ws k).pos ≡ (ws k).pos) (sym e)
            (ap (λ w. w.pos) (insert_here index pos ws))
      | inr is_not ↦ ap (λ w. w.pos) (insert_there index pos ws i is_not)
    ];
  }

  pub add_node-Grown : (n : ℕ) (ws : ℕ → Wheel) → Grown P ws (add_node n node ws).1
  unfolding add_node
  add_node-Grown zero ws = Grown-refl P ws
  add_node-Grown (suc index) ws = elim (Bool-cases (ltb 0 (bits index node.delay))) [
    | inl is ↦
        rw (add_node, is) (insert-Grown index (((ws index).pos + bits index node.delay) % 256) ws)
    | inr is_not ↦ rw (add_node, is_not) (add_node-Grown index ws)
  ]
