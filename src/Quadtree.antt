-- ===== src/Quadtree.antt =====
-- src/map/quadtree.hpp: the tree that a cell keeps its entities in. A `Tree F n` is a `QuadTree` whose
-- `_depth` is `MaxDepth - n`: the constructor starts at depth 0, and `split` makes nodes one deeper, so
-- that a tree at `MaxDepth` has none. `_vertices`, which nothing reads, is left out. `rect_of` is an
-- entity's `boundingBox()->asRect()`.
pub mod Steps
pub mod Contents
pub mod Capacity
pub mod Search
pub mod Tests
use shinzui.Base.{
  ℕ, zero, suc, ◌+◌, List, [], ◌∷◌, ◌++◌, Option, none, some, Bool, true, false, not, ltb,
  if◌then◌else◌, ◌&&◌, ◌||◌, length, ℤ, pos, ◌+ℤ◌,
}
use shinzui.Float.{Floats, Vec2, Vec4, vec2, vec4, number, ◌⊕◌, ◌⊖◌, ◌⊗◌, ◌⊘◌, ◌≺◌}
use shinzui.World.{EntityPtr}
use shinzui.Physics.{cross}

-- The elements of `_nodes` after `split`.
pub record Nodes (C : Type 0) : Type 0 where
  pub node0 : C
  pub node1 : C
  pub node2 : C
  pub node3 : C

-- The members of a `QuadTree` whose nodes have the type `C`; `none` is the empty vector.
pub record Node (F C : Type 0) : Type 0 where
  pub bounds : Vec4 F
  pub entities : List EntityPtr
  pub nodes : Option (Nodes C)

abbrev pub Tree : Type 0 → ℕ → Type 0
Tree F zero = Node F ⊥
Tree F (suc n) = Node F (Tree F n)

-- What `getIndex` answers when it is not -1.
pub data Index : Type 0 where
  at0 at1 at2 at3 : Index

-- `_nodes[index]`, changed.
unfoldable pub change : {C : Type 0} → (C → C) → Index → Nodes C → Nodes C
change g at0 ns = record ns { node0 = g ns.node0 }
change g at1 ns = record ns { node1 = g ns.node1 }
change g at2 ns = record ns { node2 = g ns.node2 }
change g at3 ns = record ns { node3 = g ns.node3 }

-- The nodes; `split` makes them if there are none.
abbrev pub nodes_or : {C : Type 0} → Nodes C → Option (Nodes C) → Nodes C
nodes_or made none = made
nodes_or made (some ns) = ns

unfoldable pub new_node : {F C : Type 0} → Vec4 F → Node F C
new_node bounds = record { bounds = bounds; entities = []; nodes = none }

unfoldable pub push : {F C : Type 0} → EntityPtr → Node F C → Node F C
push e t = record t { entities = t.entities ++ (e ∷ []) }

unfoldable pub collect_nodes :
    {C : Type 0} → (C → List EntityPtr) → Option (Nodes C) → List EntityPtr
collect_nodes from none = []
collect_nodes from (some ns) = from ns.node0 ++ (from ns.node1 ++ (from ns.node2 ++ from ns.node3))

-- `clear`, which keeps the nodes.
unfoldable pub clear_at : {F C : Type 0} → (C → C) → Node F C → Node F C
clear_at cleared t = record t {
  entities = [];
  nodes = elim t.nodes [
    | none ↦ none
    | some ns ↦ some (record {
      node0 = cleared ns.node0;
      node1 = cleared ns.node1;
      node2 = cleared ns.node2;
      node3 = cleared ns.node3;
    })
  ];
}

unfoldable pub clear : (F : Type 0) (n : ℕ) → Tree F n → Tree F n
clear F zero t = clear_at (λ c. c) t
clear F (suc n) t = clear_at (clear F n) t

module _ {F : Type 0} ⦃f : Floats F⦄ where
  unfoldable pub get_index : Vec4 F → Vec4 F → Option Index
  get_index bounds rect =
      let vertical = bounds.x ⊕ (bounds.z ⊖ bounds.x) ⊘ number 2 in
      let horizontal = bounds.y ⊕ (bounds.w ⊖ bounds.y) ⊘ number 2 in
      let top = (rect.y ≺ horizontal) && (rect.y ⊕ (rect.w ⊖ rect.y) ≺ horizontal) in
      let bottom = horizontal ≺ rect.y in
      if (rect.x ≺ vertical) && (rect.x ⊕ (rect.z ⊖ rect.x) ≺ vertical)
      then if top then some at1 else if bottom then some at2 else none
      else if vertical ≺ rect.x
      then if top then some at0 else if bottom then some at3 else none
      else none

  -- `QuadTree::intersects`.
  unfoldable pub intersects : Vec4 F → Vec2 F → Vec2 F → Bool
  intersects b start end =
      let width = b.z ⊖ b.x in
      let height = b.w ⊖ b.y in
      let p0 = vec2 b.x b.y in
      let p1 = vec2 b.x (b.y ⊕ height) in
      let p2 = vec2 (b.x ⊕ width) (b.y ⊕ height) in
      let p3 = vec2 (b.x ⊕ width) b.y in
      ((b.x ≺ start.x) && (b.y ≺ start.y) && (end.x ≺ b.z) && (end.y ≺ b.w))
      || cross p0 p1 start end
      || cross p1 p2 start end
      || cross p2 p3 start end
      || cross p3 p0 start end

  -- The four tests of `retrieve`.
  unfoldable pub overlaps : Vec4 F → Vec4 F → Bool
  overlaps rect b =
      intersects b (vec2 rect.x rect.y) (vec2 rect.z rect.y)
      || intersects b (vec2 rect.x rect.y) (vec2 rect.z rect.w)
      || intersects b (vec2 rect.z rect.y) (vec2 rect.z rect.w)
      || intersects b (vec2 rect.x rect.y) (vec2 rect.z rect.y)

  -- `split`: the bounds of the four nodes. They are made of a corner, a width and a height.
  unfoldable pub split : {C : Type 0} → Vec4 F → Nodes (Node F C)
  split b =
      let sub_width = f.truncate ((b.z ⊖ b.x) ⊘ number 2) in
      let sub_height = f.truncate ((b.w ⊖ b.y) ⊘ number 2) in
      let x = f.truncate b.x in
      let y = f.truncate b.y in
      let w = f.of_int sub_width in
      let h = f.of_int sub_height in
      record {
        node0 = new_node (vec4 (f.of_int (x +ℤ sub_width)) (f.of_int y) w h);
        node1 = new_node (vec4 (f.of_int x) (f.of_int y) w h);
        node2 = new_node (vec4 (f.of_int x) (f.of_int (y +ℤ sub_height)) w h);
        node3 = new_node (vec4 (f.of_int (x +ℤ sub_width)) (f.of_int (y +ℤ sub_height)) w h);
      }

  unfoldable pub split_to : (n : ℕ) → Vec4 F → Nodes (Tree F n)
  split_to zero b = split b
  split_to (suc n) b = split b

  module _ (max_entities : ℕ) (rect_of : EntityPtr → Vec4 F) where
    -- The loop of `insert` over `_entities`: those that stay, and the nodes.
    unfoldable pub distribute :
        {C : Type 0}
        → (EntityPtr → C → C)
        → Vec4 F
        → List EntityPtr
        → Nodes C
        → List EntityPtr × Nodes C
    distribute into bounds [] ns = ([], ns)
    distribute into bounds (e ∷ es) ns = elim (get_index bounds (rect_of e)) [
      | some i ↦ distribute into bounds es (change (into e) i ns)
      | none ↦ let (kept, ns') = distribute into bounds es ns in (e ∷ kept, ns')
    ]

    unfoldable pub spread : {C : Type 0} → (EntityPtr → C → C) → Nodes C → Node F C → Node F C
    spread into ns t =
        let (kept, ns') = distribute into t.bounds t.entities ns in
        record t { entities = kept; nodes = some ns' }

    -- The second half of `insert`, where `_depth < MaxDepth`. `made` is what `split` makes.
    unfoldable pub settle : {C : Type 0} → (EntityPtr → C → C) → Nodes C → Node F C → Node F C
    settle into made t =
        if ltb max_entities (length t.entities) then spread into (nodes_or made t.nodes) t else t

    -- `insert`, where `_depth < MaxDepth`.
    unfoldable pub insert_above :
        {C : Type 0} → (EntityPtr → C → C) → Nodes C → EntityPtr → Node F C → Node F C
    insert_above into made e t = elim t.nodes [
      | none ↦ settle into made (push e t)
      | some ns ↦ elim (get_index t.bounds (rect_of e)) [
        | some i ↦ record t { nodes = some (change (into e) i ns) }
        | none ↦ settle into made (push e t)
      ]
    ]

    unfoldable pub insert : (n : ℕ) → EntityPtr → Tree F n → Tree F n
    insert zero e t = push e t
    insert (suc n) e t = insert_above (insert n) (split_to n t.bounds) e t

  -- `retrieve` and `trace`, which differ in the test on a node's bounds: the nodes first, then the
  -- entities of the node itself.
  unfoldable pub collect_at :
      {C : Type 0} → (C → List EntityPtr) → (Vec4 F → Bool) → Node F C → List EntityPtr
  collect_at from reaches t =
      if reaches t.bounds then collect_nodes from t.nodes ++ t.entities else []

  unfoldable pub collect : (Vec4 F → Bool) → (n : ℕ) → Tree F n → List EntityPtr
  collect reaches zero t = collect_at (λ c. []) reaches t
  collect reaches (suc n) t = collect_at (collect reaches n) reaches t

  unfoldable pub retrieve : (n : ℕ) → Tree F n → Vec4 F → List EntityPtr
  retrieve n t rect = collect (overlaps rect) n t

  unfoldable pub trace : (n : ℕ) → Tree F n → Vec2 F → Vec2 F → List EntityPtr
  trace n t start end = collect (λ b. intersects b start end) n t

  -- `RadialQuadTree`: the tree around a circle, and `contains`.
  unfoldable pub radial_bounds : Vec2 F → F → Vec4 F
  radial_bounds center radius =
      vec4 (center.x ⊖ radius) (center.y ⊖ radius) (center.x ⊕ radius) (center.y ⊕ radius)

  unfoldable pub radial : (n : ℕ) → Vec2 F → F → Tree F n
  radial zero center radius = new_node (radial_bounds center radius)
  radial (suc n) center radius = new_node (radial_bounds center radius)

  unfoldable pub contains : Vec2 F → F → Vec2 F → Bool
  contains center radius p =
      let dx = p.x ⊖ center.x in
      let dy = p.y ⊖ center.y in not (radius ⊗ radius ≺ dx ⊗ dx ⊕ dy ⊗ dy)
