-- ===== src/Quadtree/Contents.antt =====
-- The entities of a tree, up to order: what `insert` and `clear` do to them.
use shinzui.Base.{
  ℕ, zero, suc, ◌+◌, ◌≡◌, refl, ap, ◌∙◌, List, [], ◌∷◌, ◌++◌, Option, none, some, arith, Bool-cases,
  Option-cases, inl, inr, ◌==◌, if◌then◌else◌, ltb, length,
}
use shinzui.Float.{Floats, Vec4}
use shinzui.World.{EntityPtr}
use shinzui.Quadtree.Steps.{insert_above-leaf, insert_above-stays}
use shinzui.Quadtree.{
  Node, Nodes, Tree, Index, at0, at1, at2, at3, change, new_node, push, get_index, distribute,
  spread, settle, insert_above, insert, split_to, split, clear, clear_at,
}

-- How often an entity is in a list.
abbrev pub copies : ℕ → List ℕ → ℕ
copies a [] = 0
copies a (e ∷ es) = (if e == a then 1 else 0) + copies a es

pub copies-append : (a : ℕ) (es fs : List ℕ) → copies a (es ++ fs) ≡ copies a es + copies a fs
copies-append a [] fs = omega arith
copies-append a (e ∷ es) fs = omega (arith, copies-append a es fs)

-- How often an entity is in the nodes, in a node, and in a tree.
abbrev pub in_nodes : {C : Type 0} → (C → ℕ) → Nodes C → ℕ
in_nodes held ns = held ns.node0 + held ns.node1 + held ns.node2 + held ns.node3

abbrev pub in_option : {C : Type 0} → (C → ℕ) → Option (Nodes C) → ℕ
in_option held none = 0
in_option held (some ns) = in_nodes held ns

abbrev pub in_node : {F C : Type 0} → ℕ → (C → ℕ) → Node F C → ℕ
in_node a held t = copies a t.entities + in_option held t.nodes

abbrev pub held : (F : Type 0) (n : ℕ) → ℕ → Tree F n → ℕ
held F zero a t = in_node a (λ c. 0) t
held F (suc n) a t = in_node a (held F n a) t

in_nodes-change :
    {C : Type 0}
    → (holds : C → ℕ) (g : C → C) (k : ℕ) (i : Index) (ns : Nodes C)
    → ((c : C) → holds (g c) ≡ k + holds c)
    → in_nodes holds (change g i ns) ≡ k + in_nodes holds ns
unfolding change
in_nodes-change holds g k at0 ns h = omega (arith, h ns.node0)
in_nodes-change holds g k at1 ns h = omega (arith, h ns.node1)
in_nodes-change holds g k at2 ns h = omega (arith, h ns.node2)
in_nodes-change holds g k at3 ns h = omega (arith, h ns.node3)

module _ {F : Type 0} ⦃f : Floats F⦄ (max_entities : ℕ) (rect_of : EntityPtr → Vec4 F) (a : ℕ) where
  -- 1 for the entity itself.
  abbrev one : EntityPtr → ℕ
  one e = if e == a then 1 else 0

  module _ {C : Type 0} (holds : C → ℕ) (into : EntityPtr → C → C)
      (adds : (e : EntityPtr) (c : C) → holds (into e c) ≡ one e + holds c) where
    distribute-copies :
        (bounds : Vec4 F) (es : List EntityPtr) (ns : Nodes C)
        → let (kept, ns') = distribute max_entities rect_of into bounds es ns in
          copies a kept + in_nodes holds ns' ≡ copies a es + in_nodes holds ns
    unfolding distribute
    distribute-copies bounds [] ns = refl
    distribute-copies bounds (e ∷ es) ns = elim (Option-cases (get_index bounds (rect_of e))) [
      | inl stays ↦ rw (stays, distribute) (omega (arith, distribute-copies bounds es ns))
      | inr (i, moves) ↦
          rw (moves, distribute)
            (omega (
              arith,
              distribute-copies bounds es (change (into e) i ns),
              in_nodes-change holds (into e) (one e) i ns (adds e),
            ))
    ]

    spread-copies :
        (ns : Nodes C) (t : Node F C)
        → in_node a holds (spread max_entities rect_of into ns t)
          ≡ copies a t.entities + in_nodes holds ns
    unfolding spread
    spread-copies ns t = distribute-copies t.bounds t.entities ns

    settle-copies :
        (made : Nodes C) (t : Node F C)
        → in_nodes holds made ≡ 0
        → in_node a holds (settle max_entities rect_of into made t) ≡ in_node a holds t
    unfolding settle spread
    settle-copies made t empty = elim (Bool-cases (ltb max_entities (length t.entities))) [
      | inr few ↦ rw (few, settle) refl
      | inl many ↦ elim (Option-cases t.nodes) [
        | inl leaf ↦ rw (many, leaf, settle) (omega (arith, spread-copies made t))
        | inr (ns, there) ↦ rw (many, there, settle) (spread-copies ns t)
      ]
    ]

    settle-push-copies :
        (made : Nodes C) (e : EntityPtr) (t : Node F C)
        → in_nodes holds made ≡ 0
        → in_node a holds (settle max_entities rect_of into made (push e t))
          ≡ one e + in_node a holds t
    unfolding push
    settle-push-copies made e t empty =
        settle-copies made (push e t) empty ∙ omega (arith, copies-append a t.entities (e ∷ []))

    insert_above-copies :
        (made : Nodes C) (e : EntityPtr) (t : Node F C)
        → in_nodes holds made ≡ 0
        → in_node a holds (insert_above max_entities rect_of into made e t)
          ≡ one e + in_node a holds t
    unfolding insert_above
    insert_above-copies made e t empty = elim (Option-cases t.nodes) [
      | inl leaf ↦
          ap (in_node a holds) (insert_above-leaf max_entities rect_of into made e t leaf)
          ∙ settle-push-copies made e t empty
      | inr (ns, there) ↦ elim (Option-cases (get_index t.bounds (rect_of e))) [
        | inl stays ↦
            ap (in_node a holds) (insert_above-stays max_entities rect_of into made e t stays)
            ∙ settle-push-copies made e t empty
        | inr (i, moves) ↦
            rw (there, moves, insert_above)
              (omega (arith, in_nodes-change holds (into e) (one e) i ns (adds e)))
      ]
    ]

  split_to-empty : (n : ℕ) (b : Vec4 F) → in_nodes (held F n a) (split_to n b) ≡ 0
  unfolding split_to split new_node
  split_to-empty zero b = refl
  split_to-empty (suc n) b = refl

  -- `insert` adds the entity to the tree, once, and neither drops nor repeats one of those there.
  pub insert-copies :
      (n : ℕ) (e : EntityPtr) (t : Tree F n)
      → held F n a (insert max_entities rect_of n e t) ≡ (if e == a then 1 else 0) + held F n a t
  unfolding insert push
  insert-copies zero e t = omega (arith, copies-append a t.entities (e ∷ []))
  insert-copies (suc n) e t =
      insert_above-copies (held F n a) (insert max_entities rect_of n) (insert-copies n)
        (split_to n t.bounds) e t (split_to-empty n t.bounds)

-- `clear` leaves no entity in the tree.
pub clear-copies : (F : Type 0) (n a : ℕ) (t : Tree F n) → held F n a (clear F n t) ≡ 0
unfolding clear clear_at
clear-copies F zero a t = elim (Option-cases t.nodes) [
  | inl leaf ↦ rw (leaf, clear_at) refl
  | inr (ns, there) ↦ rw (there, clear_at) refl
]
clear-copies F (suc n) a t = elim (Option-cases t.nodes) [
  | inl leaf ↦ rw (leaf, clear_at) refl
  | inr (ns, there) ↦
      rw (there, clear_at)
        (omega (
          arith,
          clear-copies F n a ns.node0,
          clear-copies F n a ns.node1,
          clear-copies F n a ns.node2,
          clear-copies F n a ns.node3,
        ))
]
