-- ===== src/Map/Trees/Round.antt =====
-- src/map/cell.cpp: what a round of `update`, `physics` and `cleanup` does to the quadtrees.
use shinzui.Base.{
  ℕ, ◌+◌, ◌≡◌, ◌≢◌, refl, ap, subst, ◌∙◌, List, [], ◌∷◌, Option, none, some, Bool, true, false,
  arith, Bool-cases, inl, inr, ◌⊎◌, ◌==◌, if◌then◌else◌, In,
}
use shinzui.Float.{Floats, Vec2, Vec4}
use shinzui.Offset.Place.{center, tree_radius}
use shinzui.World.{World, CellPtr, EntityPtr, write_at}
use shinzui.Quadtree.{Tree, clear, contains}
use shinzui.Quadtree.Contents.{held, insert-copies, clear-copies}
use shinzui.Map.{get_siblings}
use shinzui.Map.Trees.{insert_at, insert_near, insert_all, update_trees, cleanup_trees}

-- The entities of a cell.
abbrev pub listed : List (ℕ × EntityPtr) → List EntityPtr
listed [] = []
listed ((id, e) ∷ es) = e ∷ listed es

module _ (F : Type 0) ⦃f : Floats F⦄ (n : ℕ) (a : ℕ) where
  module _ (max_entities : ℕ) (rect_of : EntityPtr → Vec4 F)
      (position_of : EntityPtr → Vec2 F) where
    insert_at-own :
        (p : CellPtr) (e : EntityPtr) (trees : CellPtr → Tree F n)
        → held F n a (insert_at F n max_entities rect_of position_of p e trees p)
          ≡ (if e == a then 1 else 0) + held F n a (trees p)
    unfolding insert_at write_at
    insert_at-own p e trees = ground (arith, insert-copies max_entities rect_of a n e (trees p))

    insert_at-other :
        (p q : CellPtr) (e : EntityPtr) (trees : CellPtr → Tree F n)
        → (q == p) ≡ false
        → insert_at F n max_entities rect_of position_of p e trees q ≡ trees q
    unfolding insert_at write_at
    insert_at-other p q e trees other = rw (other, write_at) refl

    -- How often the neighbours of a list are the cell.
    abbrev pub occurs : CellPtr → List (Option CellPtr) → ℕ
    occurs q [] = 0
    occurs q (none ∷ ps) = occurs q ps
    occurs q (some p ∷ ps) = (if q == p then 1 else 0) + occurs q ps

    -- The place of the entity is within the square around the cell's centre.
    abbrev pub reaches : World → EntityPtr → CellPtr → Bool
    reaches w e q = contains (center (w.heap q).offset) tree_radius (position_of e)

    -- What an entity of the cell `p` is to bring to the tree of `q`.
    abbrev pub brought : World → CellPtr → EntityPtr → CellPtr → ℕ
    brought w p e q =
        if e == a
        then (if q == p then 1 else 0) + (if reaches w e q then occurs q (get_siblings p w) else 0)
        else 0

    abbrev pub brought_by_cell : World → CellPtr → List (ℕ × EntityPtr) → CellPtr → ℕ
    brought_by_cell w p [] q = 0
    brought_by_cell w p ((id, e) ∷ es) q = brought w p e q + brought_by_cell w p es q

    -- What a round over cells is to bring to the tree of `q`.
    abbrev pub brought_by : World → List CellPtr → CellPtr → ℕ
    brought_by w [] q = 0
    brought_by w (p ∷ ps) q = brought_by_cell w p (w.heap p).entities q + brought_by w ps q

    insert_at-held :
        (p q : CellPtr) (e : EntityPtr) (trees : CellPtr → Tree F n)
        → held F n a (insert_at F n max_entities rect_of position_of p e trees q)
          ≡ (if q == p then (if e == a then 1 else 0) else 0) + held F n a (trees q)
    insert_at-held p q e trees = elim (Bool-cases (q == p)) [
      | inl same ↦ rw same (
          subst
            (λ k.
              held F n a (insert_at F n max_entities rect_of position_of p e trees k)
              ≡ (if e == a then 1 else 0) + held F n a (trees k))
            (the_same same) (insert_at-own p e trees))
      | inr other ↦ rw other (omega (arith, ap (held F n a) (insert_at-other p q e trees other)))
    ]
      where
        the_same : (q == p) ≡ true → p ≡ q
        the_same h = ground (arith, h)

    insert_if-held :
        (reached : Bool) (p q : CellPtr) (e : EntityPtr) (trees : CellPtr → Tree F n)
        → held F n a (
            (if reached then insert_at F n max_entities rect_of position_of p e trees else trees) q)
          ≡ (if reached then (if q == p then (if e == a then 1 else 0) else 0) else 0)
            + held F n a (trees q)
    insert_if-held true p q e trees = insert_at-held p q e trees
    insert_if-held false p q e trees = omega arith

    reaches-same :
        (w : World) (e : EntityPtr) (p q : CellPtr)
        → (q == p) ≡ true
        → reaches w e p ≡ reaches w e q
    reaches-same w e p q h = let same : p ≡ q = ground (arith, h) in ap (reaches w e) same

    insert_near-held :
        (w : World) (e : EntityPtr) (ps : List (Option CellPtr)) (trees : CellPtr → Tree F n)
        (q : CellPtr)
        → held F n a (insert_near F n max_entities rect_of position_of w e ps trees q)
          ≡ (if e == a then (if reaches w e q then occurs q ps else 0) else 0)
            + held F n a (trees q)
    unfolding insert_near
    insert_near-held w e [] trees q = ground arith
    insert_near-held w e (none ∷ ps) trees q = insert_near-held w e ps trees q
    insert_near-held w e (some p ∷ ps) trees q =
        let here = insert_if-held (reaches w e p) p q e trees in
        let next =
          if reaches w e p
          then insert_at F n max_entities rect_of position_of p e trees
          else trees in
        let rest = insert_near-held w e ps next q in
        elim (Bool-cases (q == p)) [
          | inl same ↦ ground (arith, here, rest, reaches-same w e p q same)
          | inr other ↦ ground (arith, here, rest, other)
        ]

    insert_all-held :
        (w : World) (p : CellPtr) (es : List (ℕ × EntityPtr)) (trees : CellPtr → Tree F n)
        (q : CellPtr)
        → held F n a (insert_all F n max_entities rect_of position_of w p es trees q)
          ≡ brought_by_cell w p es q + held F n a (trees q)
    unfolding insert_all
    insert_all-held w p [] trees q = omega arith
    insert_all-held w p ((id, e) ∷ es) trees q =
        let t1 = insert_at F n max_entities rect_of position_of p e trees in
        let t2 = insert_near F n max_entities rect_of position_of w e (get_siblings p w) t1 in
        let own = insert_at-held p q e trees in
        let near = insert_near-held w e (get_siblings p w) t1 q in
        let rest = insert_all-held w p es t2 q in ground (arith, own, near, rest)

    update_trees-held :
        (w : World) (ps : List CellPtr) (trees : CellPtr → Tree F n) (q : CellPtr)
        → held F n a (update_trees F n max_entities rect_of position_of w ps trees q)
          ≡ brought_by w ps q + held F n a (trees q)
    unfolding update_trees
    update_trees-held w [] trees q = omega arith
    update_trees-held w (p ∷ ps) trees q = omega (
      arith,
      insert_all-held w p (w.heap p).entities trees q,
      update_trees-held w ps
          (insert_all F n max_entities rect_of position_of w p (w.heap p).entities trees) q,
    )

  write_clear :
      (p q : CellPtr) (trees : CellPtr → Tree F n)
      → ((q ≡ p) × (held F n a (write_at trees p (clear F n (trees p)) q) ≡ 0))
        ⊎ ((q ≢ p) × (write_at trees p (clear F n (trees p)) q ≡ trees q))
  unfolding write_at
  write_clear p q trees = elim (Bool-cases (q == p)) [
    | inl same ↦ inl (ground (arith, same), rw (same, write_at) (clear-copies F n a (trees p)))
    | inr other ↦ inr (ground (arith, other), rw (other, write_at) refl)
  ]

  cleanup_trees-empty :
      (ps : List CellPtr) (trees : CellPtr → Tree F n) (q : CellPtr)
      → held F n a (trees q) ≡ 0
      → held F n a (cleanup_trees F n ps trees q) ≡ 0
  unfolding cleanup_trees
  cleanup_trees-empty [] trees q h = h
  cleanup_trees-empty (p ∷ ps) trees q h =
      cleanup_trees-empty ps (write_at trees p (clear F n (trees p))) q
        (elim (write_clear p q trees) [
          | inl (e, empty) ↦ empty
          | inr (e, same) ↦ ap (held F n a) same ∙ h
        ])

  -- A round of `cleanup` empties the trees of its cells, and leaves those of all others alone.
  pub cleanup_trees_split :
      (ps : List CellPtr) (trees : CellPtr → Tree F n) (q : CellPtr)
      → (In q ps × (held F n a (cleanup_trees F n ps trees q) ≡ 0))
        ⊎ ((¬ In q ps) × (cleanup_trees F n ps trees q ≡ trees q))
  unfolding cleanup_trees
  cleanup_trees_split [] trees q = inr (λ m. m, refl)
  cleanup_trees_split (p ∷ ps) trees q = elim (write_clear p q trees) [
    | inl (e, empty) ↦
        inl (inl e, cleanup_trees-empty ps (write_at trees p (clear F n (trees p))) q empty)
    | inr (ne, same) ↦ elim (cleanup_trees_split ps (write_at trees p (clear F n (trees p))) q) [
      | inl (m, empty) ↦ inl (inr m, empty)
      | inr (out, kept) ↦ inr (λ m. elim m [ inl e ↦ ne e | inr m' ↦ out m' ], kept ∙ same)
    ]
  ]

  -- After a round of `update` and one of `cleanup` over the same cells, the tree of each of them is
  -- empty. The tree of any other cell has, of each entity, what it had and as many more as the round
  -- brings it, and none is taken out: one for each time that the cell is among the neighbours of an
  -- entity's cell and the entity's place is within reach of it.
  pub cleanup_trees-update_trees :
      (max_entities : ℕ) (rect_of : EntityPtr → Vec4 F) (position_of : EntityPtr → Vec2 F)
      (w : World) (ps : List CellPtr) (trees : CellPtr → Tree F n) (q : CellPtr)
      → let after =
          cleanup_trees F n ps (update_trees F n max_entities rect_of position_of w ps trees) in
        (In q ps × (held F n a (after q) ≡ 0))
        ⊎ ((¬ In q ps)
            × (held F n a (after q)
                ≡ brought_by max_entities rect_of position_of w ps q + held F n a (trees q)))
  cleanup_trees-update_trees max_entities rect_of position_of w ps trees q =
      let updated = update_trees F n max_entities rect_of position_of w ps trees in
      elim (cleanup_trees_split ps updated q) [
        | inl emptied ↦ inl emptied
        | inr (out, kept) ↦ inr (
          out,
          ap (held F n a) kept ∙ update_trees-held max_entities rect_of position_of w ps trees q,
        )
      ]
