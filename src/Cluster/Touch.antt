-- ===== src/Cluster/Touch.antt =====
-- `touchWithNeighbours`: the cell and the neighbours that are updated with it are joined.
use shinzui.Base.{
  ℕ, ◌≡◌, ◌≢◌, refl, List, [], ◌∷◌, ◌++◌, Option, none, some, Bool, true, false, not, arith,
  Bool-cases, inl, inr, ◌&&◌, ◌||◌, ◌==◌, All-append, In, lookup, ==_iff, ℕ_discrete,
}
use shinzui.World.{World, Cluster, CellPtr, contains, set_cluster, set_cell, write_at}
use shinzui.Cluster.{
  insert_vertex, unstall, erase_stall, touch, vertex, connect, with_stall, not_stall,
  touch_neighbour,
}
use shinzui.Cluster.Graph.{
  GraphValid, Grows, Grows-refl, Grows-trans, vertex_of, insert_vertex-GraphValid,
}

-- The cell is not on cooldown.
abbrev pub Active : CellPtr → World → Type 0
Active q w = (w.heap q).stall.is_on_cooldown ≡ false

-- The two cells have vertices, and an edge joins them.
abbrev pub Linked : CellPtr → CellPtr → Cluster → Type 0
Linked p q k = (v u : ℕ) × (vertex_of k p ≡ some v) × (vertex_of k q ≡ some u) × In (v, u) k.edges

pub Linked-Grows : {k k' : Cluster} (p q : CellPtr) → Grows k k' → Linked p q k → Linked p q k'
Linked-Grows p q g (v, u, a, b, e) =
    (v, u, g.vertices_kept p v a, g.vertices_kept q u b, g.edges_kept (v, u) e)

-- A step that leaves the graph well formed, takes nothing away, and puts no cell on cooldown.
pub record Step (w w' : World) : Type 0 where
  pub valid : GraphValid w'.cluster
  pub grows : Grows w.cluster w'.cluster
  pub active : (q : CellPtr) → Active q w → Active q w'

pub Step-refl : (w : World) → GraphValid w.cluster → Step w w
Step-refl w v = record { valid = v; grows = Grows-refl w.cluster; active = λ q a. a }

pub Step-trans : {u v w : World} → Step u v → Step v w → Step u w
Step-trans s t = record {
  valid = t.valid;
  grows = Grows-trans s.grows t.grows;
  active = λ q a. t.active q (s.active q a);
}

-- Taking a cell out of the stalled ones does not touch the graph.
erase_stall-Step : (p : CellPtr) (w : World) → GraphValid w.cluster → Step w (erase_stall p w)
unfolding erase_stall
erase_stall-Step p w v = elim (Bool-cases (contains w.cluster.stall_cells p)) [
  | inl there ↦
      rw (there, erase_stall)
        (record {
          valid = record {
            complete = v.complete;
            sound = v.sound;
            distinct = v.distinct;
            joined = v.joined;
          };
          grows = record { vertices_kept = λ q x h. h; edges_kept = λ e h. h };
          active = λ q a. a;
        })
  | inr missing ↦
      rw (missing, erase_stall)
        (record { valid = v; grows = Grows-refl w.cluster; active = λ q a. a })
]

unstall-Step :
    (p : CellPtr) (is_stall : Bool) (w : World)
    → GraphValid w.cluster
    → Step w (unstall p is_stall w)
unfolding unstall write_at
unstall-Step p is_stall w v =
    let s = (w.heap p).stall in
    elim (Bool-cases (not is_stall && (s.is_registered || s.is_on_cooldown))) [
      | inl yes_stalled ↦
          rw (yes_stalled, unstall) (Step-trans cleared (erase_stall-Step p _ cleared.valid))
      | inr not_stalled ↦ rw (not_stalled, unstall) (Step-refl w v)
    ]
  where
    cleared : Step w (set_cell p (with_stall (not_stall (w.heap p).stall) (w.heap p)) w)
    cleared = record { valid = v; grows = Grows-refl w.cluster; active = λ q a. ground arith }

-- A touch: afterwards the cell has a vertex, if the touch says so.
pub touch-Step :
    (p : CellPtr) (is_stall : Bool) (w : World)
    → GraphValid w.cluster
    → Step w (touch p is_stall w).1
unfolding touch
touch-Step p is_stall w v = elim (Bool-cases (w.heap p).stall.is_on_cooldown) [
  | inl cools ↦ rw (cools, touch) (unstall-Step p is_stall w v)
  | inr active ↦ rw (active, touch) (Step-trans grown (unstall-Step p is_stall _ grown.valid))
]
  where
    grown : Step w (set_cluster (insert_vertex p w.cluster) w)
    grown =
        let g = insert_vertex-GraphValid p w.cluster v in
        record { valid = g.0; grows = g.1; active = λ q a. a }

pub touch-Active :
    (p : CellPtr) (is_stall : Bool) (w : World)
    → GraphValid w.cluster
    → Active p w
    → ((touch p is_stall w).0 ≡ true)
      × ((v : ℕ) × (vertex_of (touch p is_stall w).1.cluster p ≡ some v))
unfolding touch
touch-Active p is_stall w v a =
    let g = insert_vertex-GraphValid p w.cluster v in
    let (n, e) = g.2 in
    let w1 = set_cluster (insert_vertex p w.cluster) w in
    rw (a, touch) (refl, (n, (unstall-Step p is_stall w1 g.0).grows.vertices_kept p n e))

vertex-found :
    (p : CellPtr) (vs : List (CellPtr × ℕ)) (v : ℕ)
    → lookup ℕ_discrete p vs ≡ some v
    → vertex p vs ≡ (v, vs)
unfolding vertex
vertex-found p vs v e = rw (e, vertex) refl

In-append : (es : List (ℕ × ℕ)) (e d : ℕ × ℕ) → In d es → In d (es ++ (e ∷ []))
In-append [] e d h = absurd h
In-append (c ∷ es) e d (inl h) = inl h
In-append (c ∷ es) e d (inr h) = inr (In-append es e d h)

In-last : (es : List (ℕ × ℕ)) (e : ℕ × ℕ) → In e (es ++ (e ∷ []))
In-last [] e = inl refl
In-last (c ∷ es) e = inr (In-last es e)

-- Joining two cells that have vertices.
connect-Step :
    (a b : CellPtr) (w : World) (va vb : ℕ)
    → GraphValid w.cluster
    → vertex_of w.cluster a ≡ some va
    → vertex_of w.cluster b ≡ some vb
    → Step w (connect a b w) × Linked a b (connect a b w).cluster
unfolding connect
connect-Step a b w va vb v ea eb =
    rw (vertex-found a w.cluster.vertices va ea, vertex-found b w.cluster.vertices vb eb, connect)
      (
        record {
          valid = record {
            complete = v.complete;
            sound = v.sound;
            distinct = v.distinct;
            joined =
                All-append _ w.cluster.edges ((va, vb) ∷ []) v.joined
                  (((v.sound a va ea).1, (v.sound b vb eb).1), tt);
          };
          grows = record {
            vertices_kept = λ q x h. h;
            edges_kept = λ e h. In-append w.cluster.edges (va, vb) e h;
          };
          active = λ q h. h;
        },
        (va, vb, ea, eb, In-last w.cluster.edges (va, vb)),
      )

-- One neighbour.
pub touch_neighbour-Step :
    (p q : CellPtr) (is_stall : Bool) (w : World) (v : ℕ)
    → GraphValid w.cluster
    → vertex_of w.cluster p ≡ some v
    → Active q w
    → p ≢ q
    → Step w (touch_neighbour p is_stall (some q) w)
      × Linked p q (touch_neighbour p is_stall (some q) w).cluster
unfolding touch_neighbour
touch_neighbour-Step p q is_stall w v g e a n =
    let (ins, (u, f)) = touch-Active q is_stall w g a in
    let t = touch-Step q is_stall w g in
    let (c, l) =
      connect-Step p q (touch q is_stall w).1 v u t.valid (t.grows.vertices_kept p v e) f in
    rw (other, ins, touch_neighbour) (Step-trans t c, l)
  where
    other : (q == p) ≡ false
    other = ground (arith, ==_iff q p)

-- A neighbour that may be the cell itself, or on cooldown.
pub touch_neighbour-any :
    (p : CellPtr) (q : Option CellPtr) (is_stall : Bool) (w : World) (v : ℕ)
    → GraphValid w.cluster
    → vertex_of w.cluster p ≡ some v
    → Step w (touch_neighbour p is_stall q w)
unfolding touch_neighbour
touch_neighbour-any p none is_stall w v g e = Step-refl w g
touch_neighbour-any p (some q) is_stall w v g e = elim (ℕ_discrete p q) [
  | yes same ↦ rw (← same, (==_iff p p).1 refl, touch_neighbour) (Step-refl w g)
  | no other ↦ elim (Bool-cases (w.heap q).stall.is_on_cooldown) [
    | inr active ↦ (touch_neighbour-Step p q is_stall w v g e active other).0
    | inl cools ↦ rw (not_same other, skipped cools, touch_neighbour) (touch-Step q is_stall w g)
  ]
]
  where
    not_same : p ≢ q → (q == p) ≡ false
    not_same n = ground (arith, ==_iff q p)

    skipped : (w.heap q).stall.is_on_cooldown ≡ true → (touch q is_stall w).0 ≡ false
    skipped c = unfold touch in rw c refl
