-- ===== src/Quadtree/Steps.antt =====
-- src/map/quadtree.hpp: the branches of `insert`, one equation each.
use shinzui.Base.{ℕ, ◌≡◌, none, some, true, false, Option-cases, inl, inr, ltb, length}
use shinzui.Float.{Floats, Vec4}
use shinzui.World.{EntityPtr}
use shinzui.Quadtree.{
  Node, Nodes, Index, change, nodes_or, push, get_index, spread, settle, insert_above,
}

module _ {F : Type 0} ⦃f : Floats F⦄ (max_entities : ℕ) (rect_of : EntityPtr → Vec4 F) where
  module _ {C : Type 0} (into : EntityPtr → C → C) where
    pub settle-few :
        (made : Nodes C) (t : Node F C)
        → ltb max_entities (length t.entities) ≡ false
        → settle max_entities rect_of into made t ≡ t
    unfolding settle
    settle-few made t few = simp (few, settle)

    pub settle-many :
        (made : Nodes C) (t : Node F C)
        → ltb max_entities (length t.entities) ≡ true
        → settle max_entities rect_of into made t
          ≡ spread max_entities rect_of into (nodes_or made t.nodes) t
    unfolding settle
    settle-many made t many = simp (many, settle)

    pub insert_above-leaf :
        (made : Nodes C) (e : EntityPtr) (t : Node F C)
        → t.nodes ≡ none
        → insert_above max_entities rect_of into made e t
          ≡ settle max_entities rect_of into made (push e t)
    unfolding insert_above
    insert_above-leaf made e t leaf = simp (leaf, insert_above)

    pub insert_above-stays :
        (made : Nodes C) (e : EntityPtr) (t : Node F C)
        → get_index t.bounds (rect_of e) ≡ none
        → insert_above max_entities rect_of into made e t
          ≡ settle max_entities rect_of into made (push e t)
    unfolding insert_above
    insert_above-stays made e t stays = elim (Option-cases t.nodes) [
      | inl leaf ↦ insert_above-leaf made e t leaf
      | inr (ns, there) ↦ simp (there, stays, insert_above)
    ]

    pub insert_above-moves :
        (made : Nodes C) (e : EntityPtr) (t : Node F C) {ns : Nodes C} {i : Index}
        → t.nodes ≡ some ns
        → get_index t.bounds (rect_of e) ≡ some i
        → insert_above max_entities rect_of into made e t
          ≡ record t { nodes = some (change (into e) i ns) }
    unfolding insert_above
    insert_above-moves made e t there moves = simp (there, moves, insert_above)
