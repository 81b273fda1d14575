-- ===== src/Cluster/Groups.antt =====
-- The first half of `update`: the cells by the components of the graph.
use mathlib.Core.Logic.{if_pos, if_neg}
use shinzui.Base.{
  ◌^◌, ℕ, ◌<◌, ◌≡◌, ◌≢◌, ◌↔◌, refl, sym, ap, ◌∙◌, List, [], ◌∷◌, ◌++◌, some, false, arith, inl, inr,
  ◌⊎◌, In, lookup, ℕ_discrete, ◌==◌, ==_iff,
}
use shinzui.World.{Cluster, CellPtr, write_at}
use shinzui.Cluster.{order_by_cluster, group_cells}
use shinzui.Cluster.Graph.{GraphValid}
use shinzui.Cluster.Touch.{Linked}

-- What `update` relies on in `boost::connected_components`, which gives the number of components and
-- the component of each vertex: vertices that an edge joins are in one component, and the components
-- are numbered from 0.
pub record AreComponents (cc : ℕ → List (ℕ × ℕ) → ℕ × (ℕ → ℕ)) : Type 0 where
  pub joined :
      (n : ℕ) (es : List (ℕ × ℕ)) (u v : ℕ)
      → u < n
      → v < n
      → In (u, v) es
      → (cc n es).1 u ≡ (cc n es).1 v
  pub numbered : (n : ℕ) (es : List (ℕ × ℕ)) (v : ℕ) → v < n → (cc n es).1 v < (cc n es).0

In-snoc : (xs : List ℕ) (x y : ℕ) → In y (xs ++ (x ∷ [])) ↔ (In y xs ⊎ (y ≡ x))
In-snoc xs x y = (there xs, back xs)
  where
    there : (xs : List ℕ) → In y (xs ++ (x ∷ [])) → In y xs ⊎ (y ≡ x)
    there [] (inl e) = inr e
    there [] (inr h) = absurd h
    there (z ∷ xs) (inl e) = inl (inl e)
    there (z ∷ xs) (inr h) = elim (there xs h) [ inl m ↦ inl (inr m) | inr e ↦ inr e ]

    back : (xs : List ℕ) → In y xs ⊎ (y ≡ x) → In y (xs ++ (x ∷ []))
    back [] (inl h) = absurd h
    back [] (inr e) = inl e
    back (z ∷ xs) (inl (inl e)) = inl e
    back (z ∷ xs) (inl (inr h)) = inr (back xs (inl h))
    back (z ∷ xs) (inr e) = inr (back xs (inr e))

written :
    (f : ℕ → List CellPtr) (d c : ℕ) (p q : CellPtr)
    → In p (write_at f d (f d ++ (q ∷ [])) c) ↔ (In p (f c) ⊎ ((d ≡ c) × (p ≡ q)))
unfolding write_at
written f d c p q = elim (ℕ_discrete d c) [
  | yes same ↦
      rw (← same, (==_iff d d).1 refl)
        (
          λ h. elim ((In-snoc (f d) q p).0 h) [ inl m ↦ inl m | inr e ↦ inr (refl, e) ],
          λ h. elim h [
            | inl m ↦ (In-snoc (f d) q p).1 (inl m)
            | inr (e, here) ↦ (In-snoc (f d) q p).1 (inr here)
          ],
        )
  | no other ↦
      rw (not_here other) (λ h. inl h, λ h. elim h [ inl m ↦ m | inr (e, here) ↦ absurd (other e) ])
]
  where
    not_here : d ≢ c → (c == d) ≡ false
    not_here n = ground (arith, ==_iff c d)

-- After the cells are ordered by component, the list of a component holds exactly the cells that
-- it held before and those with a vertex in the component.
pub order_by_cluster-In :
    (component : ℕ → ℕ) (vs : List (CellPtr × ℕ)) (f : ℕ → List CellPtr) (c : ℕ) (p : CellPtr)
    → In p (order_by_cluster component vs f c)
      ↔ (In p (f c) ⊎ ((v : ℕ) × In (p, v) vs × (component v ≡ c)))
unfolding order_by_cluster
order_by_cluster-In component vs f c p = (there vs f, back vs f)
  where
    there :
        (vs : List (CellPtr × ℕ)) (f : ℕ → List CellPtr)
        → In p (order_by_cluster component vs f c)
        → In p (f c) ⊎ ((v : ℕ) × In (p, v) vs × (component v ≡ c))
    there [] f h = inl h
    there ((q, v) ∷ vs) f h = elim (there vs _ h) [
      | inr (u, m, e) ↦ inr (u, inr m, e)
      | inl m ↦ elim ((written f (component v) c p q).0 m) [
        | inl old ↦ inl old
        | inr (e, same) ↦ inr (v, inl (ap (λ x. (x, v)) same), e)
      ]
    ]

    back :
        (vs : List (CellPtr × ℕ)) (f : ℕ → List CellPtr)
        → In p (f c) ⊎ ((v : ℕ) × In (p, v) vs × (component v ≡ c))
        → In p (order_by_cluster component vs f c)
    back [] f (inl h) = h
    back [] f (inr (v, m, e)) = absurd m
    back ((q, v) ∷ vs) f (inl h) = back vs _ (inl ((written f (component v) c p q).1 (inl h)))
    back ((q, v) ∷ vs) f (inr (u, inl same, e)) = back vs _ (
        inl (
          (written f (component v) c p q).1 (
            inr (
              ap component (ap (λ (x : CellPtr × ℕ). x.1) (sym same)) ∙ e,
              ap (λ (x : CellPtr × ℕ). x.0) same,
            ))))
    back ((q, v) ∷ vs) f (inr (u, inr m, e)) = back vs _ (inr (u, m, e))

lookup-In :
    (p : CellPtr) (vs : List (CellPtr × ℕ)) (v : ℕ) → lookup ℕ_discrete p vs ≡ some v → In (p, v) vs
unfolding lookup
lookup-In p [] v e = absurd (ground arith)
lookup-In p ((q, u) ∷ vs) v e = elim (ℕ_discrete q p) [
  | yes same ↦ inl (ground (arith, if_pos (ℕ_discrete q p) same (some u) (lookup ℕ_discrete p vs)))
  | no other ↦ inr (lookup-In p vs v (sym (if_neg (ℕ_discrete q p) other _ _) ∙ e))
]

-- If the answer of `connected_components` puts vertices that an edge joins in one component, the
-- graph is well formed, and fewer than 2 ^ 16 components are found, two cells that an edge joins are
-- in the list of one component, whose number is below the number of components that is kept.
pub group_cells-Linked :
    (cc : ℕ → List (ℕ × ℕ) → ℕ × (ℕ → ℕ)) (k : Cluster) (p q : CellPtr)
    → AreComponents cc
    → GraphValid k
    → (cc k.num_vertices k.edges).0 < 2 ^ 16
    → Linked p q k
    → let k' = group_cells cc k in
      (c : ℕ) × (c < k'.num_components)
      × In p (k'.cells_by_cluster c)
      × In q (k'.cells_by_cluster c)
unfolding group_cells
group_cells-Linked cc k p q a g fits (v, u, ep, eq, edge) =
    let component = (cc k.num_vertices k.edges).1 in
    let v_in = (g.sound p v ep).1 in
    let u_in = (g.sound q u eq).1 in
    (
      component v,
      omega (arith, a.numbered k.num_vertices k.edges v v_in),
      (order_by_cluster-In component k.vertices k.cells_by_cluster (component v) p).1
          (inr (v, lookup-In p k.vertices v ep, refl)),
      (order_by_cluster-In component k.vertices k.cells_by_cluster (component v) q).1 (
          inr (
            u,
            lookup-In q k.vertices u eq,
            sym (a.joined k.num_vertices k.edges v u v_in u_in edge),
          )),
    )
