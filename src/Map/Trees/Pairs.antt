-- ===== src/Map/Trees/Pairs.antt =====
-- src/map/cell.cpp: the pairs that `physics` finds to collide.
use shinzui.Base.{
  ℕ, ◌≡◌, ◌≢◌, ◌↔◌, refl, sym, ap, ap₂, subst, ◌∙◌, List, [], ◌∷◌, ◌++◌, Option, none, some, Bool,
  true, false, arith, Bool-cases, inl, inr, ◌==◌, if◌then◌else◌, In, In-append_iff,
}
use shinzui.Float.{Floats, Vec4}
use shinzui.World.{EntityPtr}
use shinzui.Physics.{Box, collides, ◌>>=◌}
use shinzui.Quadtree.{Tree, retrieve}
use shinzui.Physics.Total.{IsWhole, Answers, collides-Answers}
use shinzui.Map.Trees.{collide_with, physics}
use shinzui.Map.Trees.Round.{listed}

-- An answer, if there is one, has exactly the pairs that P tells.
abbrev pub Finds : (EntityPtr → EntityPtr → Type 0) → Option (List (EntityPtr × EntityPtr)) → Type 0
Finds P none = Unit
Finds P (some found) = (x y : EntityPtr) → In (x, y) found ↔ P x y

Finds-iff :
    (P Q : EntityPtr → EntityPtr → Type 0) (r : Option (List (EntityPtr × EntityPtr)))
    → ((x y : EntityPtr) → P x y ↔ Q x y)
    → Finds P r
    → Finds Q r
Finds-iff P Q none h k = tt
Finds-iff P Q (some found) h k = λ x y. (λ m. (h x y).0 ((k x y).0 m), λ q. (k x y).1 ((h x y).1 q))

module _ {F : Type 0} ⦃f : Floats F⦄ (n : ℕ) (box_of : EntityPtr → Box F) where
  -- Two entities that collide.
  abbrev pub Collide : EntityPtr → EntityPtr → Type 0
  Collide x y = (x ≢ y) × (collides (box_of x) (box_of y) ≡ some true)

  abbrev With : EntityPtr → List EntityPtr → EntityPtr → EntityPtr → Type 0
  With e1 es x y = (x ≡ e1) × In y es × Collide x y

  With-same :
      (e1 e2 : EntityPtr) (es : List EntityPtr) (x y : EntityPtr)
      → e1 ≡ e2
      → With e1 es x y ↔ With e1 (e2 ∷ es) x y
  With-same e1 e2 es x y e = (
    λ (p, m, c). (p, inr m, c),
    λ (p, m, c). elim m [ inl z ↦ absurd (c.0 (p ∙ e ∙ sym z)) | inr z ↦ (p, z, c) ],
  )

  join :
      (e1 e2 : EntityPtr) (es : List EntityPtr) (hit : Option Bool)
      (r : Option (List (EntityPtr × EntityPtr)))
      → e1 ≢ e2
      → collides (box_of e1) (box_of e2) ≡ hit
      → Finds (With e1 es) r
      → Finds
          (With e1 (e2 ∷ es))
          (hit >>= λ h. r >>= λ found. some (if h then (e1, e2) ∷ found else found))
  join e1 e2 es none r ne e k = tt
  join e1 e2 es (some h) none ne e k = tt
  join e1 e2 es (some true) (some found) ne e k = λ x y. (
    λ m. elim m [
      | inl z ↦
          let p : x ≡ e1 = ap (λ u. u.0) z in
          let q : y ≡ e2 = ap (λ u. u.1) z in
          (p, inl q, (λ s. ne (sym p ∙ s ∙ q), ap₂ (λ u v. collides (box_of u) (box_of v)) p q ∙ e))
      | inr z ↦ let (p, i, c) = (k x y).0 z in (p, inr i, c)
    ],
    λ (p, m, c). elim m [
      | inl q ↦ inl (ap₂ (λ u v. (u, v)) p q)
      | inr z ↦ inr ((k x y).1 (p, z, c))
    ],
  )
  join e1 e2 es (some false) (some found) ne e k = λ x y. (
    λ m. let (p, i, c) = (k x y).0 m in (p, inr i, c),
    λ (p, m, c). elim m [
      | inl q ↦ absurd (cc (c.1, e, ap₂ (λ u v. collides (box_of u) (box_of v)) p q))
      | inr z ↦ (k x y).1 (p, z, c)
    ],
  )

  collide_with-Finds :
      (e1 : EntityPtr) (es : List EntityPtr) → Finds (With e1 es) (collide_with F n box_of e1 es)
  unfolding collide_with
  collide_with-Finds e1 [] = λ x y. (λ m. absurd m, λ m. absurd m.1)
  collide_with-Finds e1 (e2 ∷ es) = elim (Bool-cases (e1 == e2)) [
    | inl same ↦ rw same (
        Finds-iff (With e1 es) (With e1 (e2 ∷ es)) (collide_with F n box_of e1 es)
          (λ x y. With-same e1 e2 es x y (ground (arith, same))) (collide_with-Finds e1 es))
    | inr other ↦ rw other (
        join e1 e2 es (collides (box_of e1) (box_of e2)) (collide_with F n box_of e1 es)
          (ground (arith, other)) refl (collide_with-Finds e1 es))
  ]

  -- What `physics` looks for: an entity of the cell, one of its candidates in the tree, and the two
  -- collide.
  abbrev pub Hit : Tree F n → (EntityPtr → Vec4 F) → List EntityPtr → EntityPtr → EntityPtr → Type 0
  Hit tree rect_of es x y = In x es × In y (retrieve n tree (rect_of x)) × Collide x y

  both :
      (tree : Tree F n) (rect_of : EntityPtr → Vec4 F) (e : EntityPtr) (es : List EntityPtr)
      (r s : Option (List (EntityPtr × EntityPtr)))
      → Finds (With e (retrieve n tree (rect_of e))) r
      → Finds (Hit tree rect_of es) s
      → Finds (Hit tree rect_of (e ∷ es)) (r >>= λ found. s >>= λ rest. some (found ++ rest))
  both tree rect_of e es none s h k = tt
  both tree rect_of e es (some found) none h k = tt
  both tree rect_of e es (some found) (some rest) h k = λ x y. (
    λ m. elim ((In-append_iff (x, y) found rest).0 m) [
      | inl z ↦
          let (p, i, c) = (h x y).0 z in
          (inl p, subst (λ u. In y (retrieve n tree (rect_of u))) (sym p) i, c)
      | inr z ↦ let (i, c, d) = (k x y).0 z in (inr i, c, d)
    ],
    λ (m, i, c). (In-append_iff (x, y) found rest).1 (elim m [
      | inl p ↦ inl ((h x y).1 (p, subst (λ u. In y (retrieve n tree (rect_of u))) p i, c))
      | inr z ↦ inr ((k x y).1 (z, i, c))
    ]),
  )

  physics-Finds :
      (tree : Tree F n) (rect_of : EntityPtr → Vec4 F) (es : List (ℕ × EntityPtr))
      → Finds (Hit tree rect_of (listed es)) (physics F n box_of rect_of tree es)
  unfolding physics
  physics-Finds tree rect_of [] = λ x y. (λ m. absurd m, λ m. absurd m.0)
  physics-Finds tree rect_of ((id, e) ∷ es) =
      both tree rect_of e (listed es) (collide_with F n box_of e (retrieve n tree (rect_of e)))
        (physics F n box_of rect_of tree es) (collide_with-Finds e (retrieve n tree (rect_of e)))
        (physics-Finds tree rect_of es)

  module _ (whole : (e : EntityPtr) → IsWhole (box_of e)) where
    collide_with-Answers :
        (e1 : EntityPtr) (es : List EntityPtr) → Answers (collide_with F n box_of e1 es)
    unfolding collide_with
    collide_with-Answers e1 [] = ([], refl)
    collide_with-Answers e1 (e2 ∷ es) =
        let (found, r) = collide_with-Answers e1 es in
        let (hit, h) = collides-Answers (box_of e1) (box_of e2) (whole e1) (whole e2) in
        elim (Bool-cases (e1 == e2)) [
          | inl same ↦ (found, rw same r)
          | inr other ↦ (if hit then (e1, e2) ∷ found else found, rw (other, h, r) refl)
        ]

    physics-Answers :
        (tree : Tree F n) (rect_of : EntityPtr → Vec4 F) (es : List (ℕ × EntityPtr))
        → Answers (physics F n box_of rect_of tree es)
    unfolding physics
    physics-Answers tree rect_of [] = ([], refl)
    physics-Answers tree rect_of ((id, e) ∷ es) =
        let (found, h) = collide_with-Answers e (retrieve n tree (rect_of e)) in
        let (rest, r) = physics-Answers tree rect_of es in (found ++ rest, rw (h, r) refl)

    -- Where every rectangle has its four vertices, `physics` answers, and it finds exactly the pairs of
    -- an entity of the cell and another one, of those that the tree answers for its rectangle, that
    -- collide.
    pub physics-Hit :
        (tree : Tree F n) (rect_of : EntityPtr → Vec4 F) (es : List (ℕ × EntityPtr))
        → (found : List (EntityPtr × EntityPtr)) × (physics F n box_of rect_of tree es ≡ some found)
          × ((x y : EntityPtr) → In (x, y) found ↔ Hit tree rect_of (listed es) x y)
    physics-Hit tree rect_of es =
        let (found, e) = physics-Answers tree rect_of es in
        (found, e, subst (Finds (Hit tree rect_of (listed es))) e (physics-Finds tree rect_of es))
