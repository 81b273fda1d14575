-- ===== src/Quadtree/Capacity.antt =====
-- src/map/quadtree.hpp: what `split` and the loop of `insert` are for, the number of the entities that a
-- tree keeps for itself.
use shinzui.Base.{
  ℕ, zero, suc, ◌≤◌, ◌≡◌, sym, ap, subst, ◌∙◌, false, List, [], ◌∷◌, ◌++◌, Option, none, some,
  arith, Bool-cases, Option-cases, inl, inr, ltb, length,
}
use shinzui.Float.{Floats, Vec4}
use shinzui.World.{EntityPtr}
use shinzui.Quadtree.Steps.{
  settle-few, settle-many, insert_above-leaf, insert_above-stays, insert_above-moves,
}
use shinzui.Quadtree.{
  Node, Nodes, Tree, Index, at0, at1, at2, at3, change, nodes_or, new_node, push, get_index,
  distribute, spread, settle, insert_above, insert, split_to, split, clear, clear_at,
}

-- The four nodes satisfy P.
abbrev pub AllNodes : {C : Type 0} → (C → Type 0) → Nodes C → Type 0
AllNodes P ns = P ns.node0 × P ns.node1 × P ns.node2 × P ns.node3

change-AllNodes :
    {C : Type 0} {P : C → Type 0} (g : C → C) (i : Index) (ns : Nodes C)
    → ((c : C) → P c → P (g c))
    → AllNodes P ns
    → AllNodes P (change g i ns)
unfolding change
change-AllNodes g at0 ns h (p0, p1, p2, p3) = (h ns.node0 p0, p1, p2, p3)
change-AllNodes g at1 ns h (p0, p1, p2, p3) = (p0, h ns.node1 p1, p2, p3)
change-AllNodes g at2 ns h (p0, p1, p2, p3) = (p0, p1, h ns.node2 p2, p3)
change-AllNodes g at3 ns h (p0, p1, p2, p3) = (p0, p1, p2, h ns.node3 p3)

module _ {F : Type 0} ⦃f : Floats F⦄ (max_entities : ℕ) (rect_of : EntityPtr → Vec4 F) where
  -- No entity of the list fits in a node of a tree with these bounds.
  abbrev pub AllStay : Vec4 F → List EntityPtr → Type 0
  AllStay bounds [] = Unit
  AllStay bounds (e ∷ es) = (get_index bounds (rect_of e) ≡ none) × AllStay bounds es

  abbrev pub FitsNodes :
      {C : Type 0} → (C → Type 0) → Vec4 F → List EntityPtr → Option (Nodes C) → Type 0
  FitsNodes P bounds es none = length es ≤ max_entities
  FitsNodes P bounds es (some ns) = AllStay bounds es × AllNodes P ns

  abbrev pub Fits : (n : ℕ) → Tree F n → Type 0
  Fits zero t = Unit
  Fits (suc n) t = FitsNodes (Fits n) t.bounds t.entities t.nodes

  AllStay-push :
      (bounds : Vec4 F) (es : List EntityPtr) (e : EntityPtr)
      → AllStay bounds es
      → get_index bounds (rect_of e) ≡ none
      → AllStay bounds (es ++ (e ∷ []))
  AllStay-push bounds [] e tt stays = (stays, tt)
  AllStay-push bounds (x ∷ es) e (s, ss) stays = (s, AllStay-push bounds es e ss stays)

  module _ {C : Type 0} (P : C → Type 0) (into : EntityPtr → C → C)
      (keeps : (e : EntityPtr) (c : C) → P c → P (into e c)) where
    distribute-AllStay :
        (bounds : Vec4 F) (es : List EntityPtr) (ns : Nodes C)
        → AllNodes P ns
        → let (kept, ns') = distribute max_entities rect_of into bounds es ns in
          AllStay bounds kept × AllNodes P ns'
    unfolding distribute
    distribute-AllStay bounds [] ns h = (tt, h)
    distribute-AllStay bounds (e ∷ es) ns h = elim (Option-cases (get_index bounds (rect_of e))) [
      | inl stays ↦
          let (rest, all) = distribute-AllStay bounds es ns h in
          rw (stays, distribute) ((stays, rest), all)
      | inr (i, moves) ↦
          rw (moves, distribute)
            (distribute-AllStay bounds es (change (into e) i ns)
              (change-AllNodes (into e) i ns (keeps e) h))
    ]

    abbrev AbovePart : Node F C → Type 0
    AbovePart t = FitsNodes P t.bounds t.entities t.nodes

    spread-Fits :
        (ns : Nodes C) (t : Node F C)
        → AllNodes P ns
        → AbovePart (spread max_entities rect_of into ns t)
    unfolding spread
    spread-Fits ns t h = distribute-AllStay t.bounds t.entities ns h

    settle-leaf :
        (made : Nodes C) (t : Node F C)
        → t.nodes ≡ none
        → AllNodes P made
        → AbovePart (settle max_entities rect_of into made t)
    settle-leaf made t leaf fits = elim (Bool-cases (ltb max_entities (length t.entities))) [
      | inr few ↦
          subst AbovePart (sym (settle-few max_entities rect_of into made t few)) (small few)
      | inl many ↦
          subst AbovePart
            (sym (
              settle-many max_entities rect_of into made t many
              ∙ ap (λ ns. spread max_entities rect_of into (nodes_or made ns) t) leaf))
            (spread-Fits made t fits)
    ]
      where
        small : ltb max_entities (length t.entities) ≡ false → AbovePart t
        small few = rw leaf (ground (arith, few))

    settle-branch :
        (made : Nodes C) (t : Node F C) {ns : Nodes C}
        → t.nodes ≡ some ns
        → AllStay t.bounds t.entities
        → AllNodes P ns
        → AbovePart (settle max_entities rect_of into made t)
    settle-branch made t {ns} there stay fits =
        elim (Bool-cases (ltb max_entities (length t.entities))) [
          | inr few ↦
              subst AbovePart (sym (settle-few max_entities rect_of into made t few))
                (rw there (stay, fits))
          | inl many ↦
              subst AbovePart
                (sym (
                  settle-many max_entities rect_of into made t many
                  ∙ ap (λ ns. spread max_entities rect_of into (nodes_or made ns) t) there))
                (spread-Fits ns t fits)
        ]

    insert_above-Fits :
        (made : Nodes C) (e : EntityPtr) (t : Node F C)
        → AllNodes P made
        → AbovePart t
        → AbovePart (insert_above max_entities rect_of into made e t)
    unfolding push
    insert_above-Fits made e t fits h = elim (Option-cases t.nodes) [
      | inl leaf ↦
          subst AbovePart (sym (insert_above-leaf max_entities rect_of into made e t leaf))
            (settle-leaf made (push e t) leaf fits)
      | inr (ns, there) ↦
          let (stay, below) = subst (FitsNodes P t.bounds t.entities) there h in
          elim (Option-cases (get_index t.bounds (rect_of e))) [
            | inl stays ↦
                subst AbovePart (sym (insert_above-stays max_entities rect_of into made e t stays))
                  (settle-branch made (push e t) there
                    (AllStay-push t.bounds t.entities e stay stays) below)
            | inr (i, moves) ↦
                subst AbovePart
                  (sym (insert_above-moves max_entities rect_of into made e t there moves))
                  (stay, change-AllNodes (into e) i ns (keeps e) below)
          ]
    ]

  split_to-Fits : (n : ℕ) (b : Vec4 F) → AllNodes (Fits n) (split_to n b)
  unfolding split_to split new_node
  split_to-Fits zero b = (tt, tt, tt, tt)
  split_to-Fits (suc n) b = (omega arith, omega arith, omega arith, omega arith)

  -- `insert` keeps that a tree with no nodes, above `MaxDepth`, has at most `MaxEntities` entities, and
  -- that a tree with nodes keeps only those for which `getIndex` answers -1.
  pub insert-Fits :
      (n : ℕ) (e : EntityPtr) (t : Tree F n) → Fits n t → Fits n (insert max_entities rect_of n e t)
  unfolding insert
  insert-Fits zero e t h = tt
  insert-Fits (suc n) e t h =
      insert_above-Fits (Fits n) (insert max_entities rect_of n) (insert-Fits n)
        (split_to n t.bounds) e t (split_to-Fits n t.bounds) h

  -- `clear` keeps it too.
  pub clear-Fits : (n : ℕ) (t : Tree F n) → Fits n t → Fits n (clear F n t)
  unfolding clear clear_at
  clear-Fits zero t h = tt
  clear-Fits (suc n) t h = elim (Option-cases t.nodes) [
    | inl leaf ↦ rw (leaf, clear_at) (omega arith)
    | inr (ns, there) ↦
        let (stay, (p0, p1, p2, p3)) = subst (FitsNodes (Fits n) t.bounds t.entities) there h in
        rw (there, clear_at)
          (
            tt,
            (
              clear-Fits n ns.node0 p0,
              clear-Fits n ns.node1 p1,
              clear-Fits n ns.node2 p2,
              clear-Fits n ns.node3 p3,
            ),
          )
  ]
