-- ===== src/Cluster/Graph.antt =====
-- The graph of the cells that are updated: `_currentCells`, `_vertices` and the edges.
use mathlib.Core.Logic.{ite, if_pos, if_neg}
use shinzui.Base.{
  ℕ, suc, ◌<◌, ◌≡◌, refl, sym, ap, ◌∙◌, List, [], ◌∷◌, ◌++◌, Option, none, some, true, false, arith,
  Bool-cases, Option-cases, inl, inr, ◌⊎◌, ◌||◌, ◌==◌, All, In, lookup, assign, lookup-assign,
  ℕ_discrete,
}
use shinzui.World.{Cluster, CellPtr, contains}
use shinzui.Cluster.{insert_vertex}

abbrev pub vertex_of : Cluster → CellPtr → Option ℕ
vertex_of k p = lookup ℕ_discrete p k.vertices

-- The touched cells are exactly those that have a vertex; no two share one; edges join vertices.
pub record GraphValid (k : Cluster) : Type 0 where
  pub complete :
      (p : CellPtr) → contains k.current_cells p ≡ true → (v : ℕ) × (vertex_of k p ≡ some v)
  pub sound :
      (p : CellPtr) (v : ℕ)
      → vertex_of k p ≡ some v
      → (contains k.current_cells p ≡ true) × (v < k.num_vertices)
  pub distinct : (p q : CellPtr) (v : ℕ) → vertex_of k p ≡ some v → vertex_of k q ≡ some v → p ≡ q
  pub joined : All (λ (e : ℕ × ℕ). (e.0 < k.num_vertices) × (e.1 < k.num_vertices)) k.edges

pub contains-append :
    (xs : List ℕ) (a b : ℕ) → contains (xs ++ (a ∷ [])) b ≡ (contains xs b || a == b)
unfolding contains
contains-append [] a b = ground arith
contains-append (x ∷ xs) a b = ground (arith, contains-append xs a b)

-- `k'` has the vertices and the edges of `k`, and perhaps more.
pub record Grows (k k' : Cluster) : Type 0 where
  pub vertices_kept : (p : CellPtr) (v : ℕ) → vertex_of k p ≡ some v → vertex_of k' p ≡ some v
  pub edges_kept : (e : ℕ × ℕ) → In e k.edges → In e k'.edges

pub Grows-refl : (k : Cluster) → Grows k k
Grows-refl k = record { vertices_kept = λ p v h. h; edges_kept = λ e h. h }

pub Grows-trans : {k l m : Cluster} → Grows k l → Grows l m → Grows k m
Grows-trans f g = record {
  vertices_kept = λ p v h. g.vertices_kept p v (f.vertices_kept p v h);
  edges_kept = λ e h. g.edges_kept e (f.edges_kept e h);
}

-- The graph with a new vertex for `p`.
abbrev inserted : CellPtr → Cluster → Cluster
inserted p k = record k {
  current_cells = k.current_cells ++ (p ∷ []);
  vertices = assign ℕ_discrete p k.num_vertices k.vertices;
  num_vertices = suc k.num_vertices;
}

vertex_of-inserted :
    (p : CellPtr) (k : Cluster) (q : CellPtr)
    → vertex_of (inserted p k) q ≡ ite (ℕ_discrete p q) (some k.num_vertices) (vertex_of k q)
vertex_of-inserted p k q = lookup-assign ℕ_discrete p q k.num_vertices k.vertices

-- A vertex of the larger graph is the new one or one of before.
vertex_cases :
    (p : CellPtr) (k : Cluster) (q : CellPtr) (x : ℕ)
    → vertex_of (inserted p k) q ≡ some x
    → ((p ≡ q) × (k.num_vertices ≡ x)) ⊎ (vertex_of k q ≡ some x)
vertex_cases p k q x e = elim (ℕ_discrete p q) [
  | yes same ↦
      let found : some k.num_vertices ≡ some x =
        sym (vertex_of-inserted p k q ∙ if_pos (ℕ_discrete p q) same _ _) ∙ e in
      inl (same, cc)
  | no other ↦ inr (sym (vertex_of-inserted p k q ∙ if_neg (ℕ_discrete p q) other _ _) ∙ e)
]

raise :
    (n : ℕ) (es : List (ℕ × ℕ))
    → All (λ (e : ℕ × ℕ). (e.0 < n) × (e.1 < n)) es
    → All (λ (e : ℕ × ℕ). (e.0 < suc n) × (e.1 < suc n)) es
raise n [] a = tt
raise n (e ∷ es) a = (omega (arith, a.0), raise n es a.1)

module _ (p : CellPtr) (k : Cluster) (v : GraphValid k)
    (new : contains k.current_cells p ≡ false) where
  no_vertex : vertex_of k p ≡ none
  no_vertex = elim (Option-cases (vertex_of k p)) [
    | inl e ↦ e
    | inr (x, e) ↦ cc ((v.sound p x e).0)
  ]

  inserted_self : vertex_of (inserted p k) p ≡ some k.num_vertices
  inserted_self = vertex_of-inserted p k p ∙ if_pos (ℕ_discrete p p) refl _ _

  inserted_kept :
      (q : CellPtr) (x : ℕ) → vertex_of k q ≡ some x → vertex_of (inserted p k) q ≡ some x
  inserted_kept q x e =
      vertex_of-inserted p k q
      ∙ if_neg (ℕ_discrete p q) (λ same. cc (no_vertex, e, ap (vertex_of k) same)) _ _
      ∙ e

  inserted_complete :
      (q : CellPtr)
      → contains (inserted p k).current_cells q ≡ true
      → (x : ℕ) × (vertex_of (inserted p k) q ≡ some x)
  inserted_complete q h = elim (ℕ_discrete p q) [
    | yes same ↦ (k.num_vertices, rw (← same) inserted_self)
    | no other ↦
        let before : contains k.current_cells q ≡ true =
          ground (arith, contains-append k.current_cells p q) in
        let (x, e) = v.complete q before in (x, inserted_kept q x e)
  ]

  inserted_sound :
      (q : CellPtr) (x : ℕ)
      → vertex_of (inserted p k) q ≡ some x
      → (contains (inserted p k).current_cells q ≡ true) × (x < suc k.num_vertices)
  inserted_sound q x e = elim (vertex_cases p k q x e) [
    | inl (same, top) ↦ (ground (arith, contains-append k.current_cells p q), omega arith)
    | inr old ↦
        let (there, below) = v.sound q x old in
        (ground (arith, contains-append k.current_cells p q), omega arith)
  ]

  inserted_distinct :
      (q r : CellPtr) (x : ℕ)
      → vertex_of (inserted p k) q ≡ some x
      → vertex_of (inserted p k) r ≡ some x
      → q ≡ r
  inserted_distinct q r x e f = elim (vertex_cases p k q x e) [
    | inl (same, top) ↦ elim (vertex_cases p k r x f) [
      | inl (same', top') ↦ sym same ∙ same'
      | inr old ↦ absurd (omega (arith, (v.sound r x old).1))
    ]
    | inr old ↦ elim (vertex_cases p k r x f) [
      | inl (same, top) ↦ absurd (omega (arith, (v.sound q x old).1))
      | inr old' ↦ v.distinct q r x old old'
    ]
  ]

  inserted-GraphValid : GraphValid (inserted p k)
  inserted-GraphValid = record {
    complete = inserted_complete;
    sound = inserted_sound;
    distinct = inserted_distinct;
    joined = raise k.num_vertices k.edges v.joined;
  }

  inserted-Grows : Grows k (inserted p k)
  inserted-Grows = record { vertices_kept = inserted_kept; edges_kept = λ e h. h }

-- Inserting a cell in a well-formed graph: the graph stays well formed, keeps its vertices and
-- edges, and the cell has a vertex.
pub insert_vertex-GraphValid :
    (p : CellPtr) (k : Cluster)
    → GraphValid k
    → GraphValid (insert_vertex p k)
      × Grows k (insert_vertex p k)
      × ((v : ℕ) × (vertex_of (insert_vertex p k) p ≡ some v))
unfolding insert_vertex
insert_vertex-GraphValid p k v = elim (Bool-cases (contains k.current_cells p)) [
  | inl old ↦ rw (old, insert_vertex) (v, Grows-refl k, v.complete p old)
  | inr new ↦
      rw (new, insert_vertex)
        (
          inserted-GraphValid p k v new,
          inserted-Grows p k v new,
          (k.num_vertices, inserted_self p k v new),
        )
]
