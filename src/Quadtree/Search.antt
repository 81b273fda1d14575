-- ===== src/Quadtree/Search.antt =====
-- src/map/quadtree.hpp: the bag of entities that a tree stands for, which forgets the order and the nodes
-- in which it keeps them, and some calls of `insert` and `clear` in a row.
use mathlib.Core.Quot
use mathlib.Core.Quot.{Quot, Quot-set}
use shinzui.Base.{
  ℕ, zero, suc, ◌≤◌, ◌≡◌, refl, ap, ◌∙◌, List, [], ◌∷◌, ◌++◌, Option, none, some, Bool, arith,
  Bool-cases, inl, inr,
}
use shinzui.Float.{Floats, Vec2, Vec4}
use shinzui.World.{EntityPtr}
use shinzui.Quadtree.{
  Node, Nodes, Tree, insert, clear, collect, collect_at, collect_nodes, retrieve, trace, overlaps,
  intersects, radial, new_node,
}
use shinzui.Quadtree.Capacity.{Fits, insert-Fits, clear-Fits}
use shinzui.Quadtree.Contents.{
  copies, copies-append, held, in_node, in_option, insert-copies, clear-copies,
}

-- The two lists have the same entities, each as often.
abbrev Alike : List ℕ → List ℕ → Type 0
Alike es fs = (e : ℕ) → copies e es ≡ copies e fs

-- Entities without an order.
abbrev pub EntityBag : Type 0
EntityBag = Quot Alike

abbrev pub bag_of : List ℕ → EntityBag
bag_of = Quot.mk

abbrev pub with_entity : ℕ → EntityBag → EntityBag
with_entity e =
    Quot.lift Quot-set (λ es. bag_of (e ∷ es)) λ es fs same. Quot.sound λ a. omega (arith, same a)

-- How often an entity is in a bag.
abbrev pub copies_in : ℕ → EntityBag → ℕ
copies_in a = Quot.lift (hlevel) (copies a) λ es fs same. same a

-- The two operations that change a tree; the first with the `asRect` of the entities at its time.
pub data Command (F : Type 0) : Type 0 where
  inserts : (EntityPtr → Vec4 F) → EntityPtr → Command F
  clears : Command F

abbrev pub run_bag : {F : Type 0} → List (Command F) → EntityBag → EntityBag
run_bag [] b = b
run_bag (inserts rect_of e ∷ cs) b = run_bag cs (with_entity e b)
run_bag (clears ∷ cs) b = run_bag cs (bag_of [])

collect_nodes-copies :
    {C : Type 0}
    → (a : ℕ) (from : C → List EntityPtr) (ns : Option (Nodes C))
    → copies a (collect_nodes from ns) ≡ in_option (λ c. copies a (from c)) ns
unfolding collect_nodes
collect_nodes-copies a from none = refl
collect_nodes-copies a from (some ns) = omega (
  arith,
  copies-append a (from ns.node0) (from ns.node1 ++ (from ns.node2 ++ from ns.node3)),
  copies-append a (from ns.node1) (from ns.node2 ++ from ns.node3),
  copies-append a (from ns.node2) (from ns.node3),
)

in_option-le :
    {C : Type 0}
    → (m k : C → ℕ) (ns : Option (Nodes C)) → ((c : C) → m c ≤ k c)
    → in_option m ns ≤ in_option k ns
in_option-le m k none h = omega arith
in_option-le m k (some ns) h = omega (arith, h ns.node0, h ns.node1, h ns.node2, h ns.node3)

module _ {F : Type 0} ⦃f : Floats F⦄ where
  collect_at-copies :
      {C : Type 0}
      → (a : ℕ) (from : C → List EntityPtr) (holds : C → ℕ) (reaches : Vec4 F → Bool) (t : Node F C)
      → ((c : C) → copies a (from c) ≤ holds c)
      → copies a (collect_at from reaches t) ≤ in_node a holds t
  unfolding collect_at
  collect_at-copies a from holds reaches t h = elim (Bool-cases (reaches t.bounds)) [
    | inr misses ↦ rw (misses, collect_at) (omega arith)
    | inl meets ↦
        rw (meets, collect_at)
          (omega (
            arith,
            copies-append a (collect_nodes from t.nodes) t.entities,
            collect_nodes-copies a from t.nodes,
            in_option-le (λ c. copies a (from c)) holds t.nodes h,
          ))
  ]

  -- `retrieve` and `trace` answer entities of the tree, none of them more often than it is there.
  pub collect-copies :
      (a : ℕ) (reaches : Vec4 F → Bool) (n : ℕ) (t : Tree F n)
      → copies a (collect reaches n t) ≤ held F n a t
  unfolding collect
  collect-copies a reaches zero t =
      collect_at-copies a (λ c. []) (λ c. 0) reaches t (λ c. omega arith)
  collect-copies a reaches (suc n) t =
      collect_at-copies a (collect reaches n) (held F n a) reaches t (collect-copies a reaches n)

  unfoldable pub run_commands : (max_entities n : ℕ) → List (Command F) → Tree F n → Tree F n
  run_commands max_entities n [] t = t
  run_commands max_entities n (inserts rect_of e ∷ cs) t =
      run_commands max_entities n cs (insert max_entities rect_of n e t)
  run_commands max_entities n (clears ∷ cs) t = run_commands max_entities n cs (clear F n t)

  -- The rectangles of the entities are the same at each insertion.
  abbrev pub Unmoved : (EntityPtr → Vec4 F) → List (Command F) → Type 0
  Unmoved rect_of [] = Unit
  Unmoved rect_of (inserts r e ∷ cs) = (r ≡ rect_of) × Unmoved rect_of cs
  Unmoved rect_of (clears ∷ cs) = Unmoved rect_of cs

-- All the entities of a tree, wherever they are, and the bag that it stands for.
abbrev contents : (F : Type 0) (n : ℕ) → Tree F n → List EntityPtr
contents F zero t = t.entities
contents F (suc n) t = collect_nodes (contents F n) t.nodes ++ t.entities

abbrev pub to_bag : (F : Type 0) (n : ℕ) → Tree F n → EntityBag
to_bag F n t = bag_of (contents F n t)

in_option-same :
    {C : Type 0}
    → (m k : C → ℕ) (ns : Option (Nodes C)) → ((c : C) → m c ≡ k c)
    → in_option m ns ≡ in_option k ns
in_option-same m k none h = refl
in_option-same m k (some ns) h = omega (arith, h ns.node0, h ns.node1, h ns.node2, h ns.node3)

none-zero : {C : Type 0} (ns : Option (Nodes C)) → in_option (λ c. 0) ns ≡ 0
none-zero none = refl
none-zero (some ns) = refl

contents-copies : (F : Type 0) (n a : ℕ) (t : Tree F n) → copies a (contents F n t) ≡ held F n a t
contents-copies F zero a t = omega (arith, none-zero t.nodes)
contents-copies F (suc n) a t = omega (
  arith,
  copies-append a (collect_nodes (contents F n) t.nodes) t.entities,
  collect_nodes-copies a (contents F n) t.nodes,
  in_option-same (λ c. copies a (contents F n c)) (held F n a) t.nodes (contents-copies F n a),
)

same_bag :
    (F : Type 0) (n : ℕ) (t : Tree F n) (xs : List ℕ)
    → ((a : ℕ) → held F n a t ≡ copies a xs)
    → to_bag F n t ≡ bag_of xs
same_bag F n t xs h = Quot.sound λ a. contents-copies F n a t ∙ h a

module _ {F : Type 0} ⦃f : Floats F⦄ (max_entities : ℕ) where
  -- Whatever entities are inserted, with whatever rectangles at each time, and whenever the tree is
  -- cleared, it stands for the bag that the same additions and removals make: neither the nodes nor
  -- the order of insertion show in it.
  pub run_commands-bag :
      (n : ℕ) (cs : List (Command F)) (t : Tree F n)
      → to_bag F n (run_commands max_entities n cs t) ≡ run_bag cs (to_bag F n t)
  unfolding run_commands
  run_commands-bag n [] t = refl
  run_commands-bag n (inserts rect_of e ∷ cs) t =
      run_commands-bag n cs (insert max_entities rect_of n e t)
      ∙ ap (run_bag cs) (
          same_bag F n (insert max_entities rect_of n e t) (e ∷ contents F n t)
            λ a. omega (arith, insert-copies max_entities rect_of a n e t, contents-copies F n a t))
  run_commands-bag n (clears ∷ cs) t =
      run_commands-bag n cs (clear F n t)
      ∙ ap (run_bag cs) (same_bag F n (clear F n t) [] λ a. clear-copies F n a t)

  -- Let the rectangles of the entities be the same at every call. In a tree, let each part that has no
  -- nodes, above `MaxDepth`, have at most `MaxEntities` entities, and each that has nodes only those
  -- for whose rectangle `getIndex` answers -1. This is so after any calls of `insert` and `clear`.
  pub run_commands-Fits :
      (rect_of : EntityPtr → Vec4 F) (n : ℕ) (cs : List (Command F)) (t : Tree F n)
      → Unmoved rect_of cs
      → Fits max_entities rect_of n t
      → Fits max_entities rect_of n (run_commands max_entities n cs t)
  unfolding run_commands
  run_commands-Fits rect_of n [] t u h = h
  run_commands-Fits rect_of n (inserts r e ∷ cs) t (same, u) h = rw same (
      run_commands-Fits rect_of n cs (insert max_entities rect_of n e t) u
        (insert-Fits max_entities rect_of n e t h))
  run_commands-Fits rect_of n (clears ∷ cs) t u h =
      run_commands-Fits rect_of n cs (clear F n t) u (clear-Fits max_entities rect_of n t h)

  radial-Fits :
      (rect_of : EntityPtr → Vec4 F) (n : ℕ) (center : Vec2 F) (radius : F)
      → Fits max_entities rect_of n (radial n center radius)
  unfolding radial new_node
  radial-Fits rect_of zero center radius = tt
  radial-Fits rect_of (suc n) center radius = omega arith

  -- `retrieve` and `trace` answer entities of the tree, none of them more often than it was inserted
  -- since the last `clear`.
  pub retrieve-trace :
      (n : ℕ) (t : Tree F n) (rect : Vec4 F) (start end : Vec2 F) (a : ℕ)
      → (copies a (retrieve n t rect) ≤ copies_in a (to_bag F n t))
        × (copies a (trace n t start end) ≤ copies_in a (to_bag F n t))
  unfolding retrieve trace
  retrieve-trace n t rect start end a = (within (overlaps rect), within λ b. intersects b start end)
    where
      within :
          (reaches : Vec4 F → Bool) → copies a (collect reaches n t) ≤ copies_in a (to_bag F n t)
      within reaches = omega (arith, collect-copies a reaches n t, contents-copies F n a t)
