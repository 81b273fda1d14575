-- ===== src/Cluster/Tests.antt =====
-- A map with three cells of which none is touched, and an answer for the components of two vertices.
use shinzui.Base.{
  none, ◌++◌, ◌-ℤ◌, ℕ, ◌<◌, ◌≤◌, ◌≡◌, refl, List, [], ◌∷◌, some, true, false, arith, inl, In,
  lookup, ℕ_discrete,
}
use shinzui.Offset.{distance}
use shinzui.World.{World, keep, destroy, remove, Cluster, CellPtr, contains}
use shinzui.Cell.{get, construct}
use shinzui.Cluster.{
  with_stall, process_stalls, touch, touch_with_neighbours, group_cells, run_scheduled_operations,
}
use shinzui.Cluster.Round.{Warm, run_scheduled_operations-Safe}
use shinzui.Cluster.Stalls.{StallValid, Safe, touch-process_stalls}
use shinzui.Cluster.Graph.{GraphValid, Grows, vertex_of}
use shinzui.Cluster.Touch.{Active, Linked}
use shinzui.Cluster.Neighbours.{touch_with_neighbours-Linked}
use shinzui.Cluster.Groups.{AreComponents, group_cells-Linked}
use shinzui.Map.Tests.{small, east, no_cluster, player}

untouched-GraphValid : GraphValid no_cluster
unfolding contains lookup
untouched-GraphValid = record {
  complete = λ p h. ground arith;
  sound = λ p v h. ground arith;
  distinct = λ p q v h i. ground arith;
  joined = tt;
}

east_found : get small east ≡ some 1
unfolding get lookup
east_found = ground arith

east_near : distance (small.heap 0).offset east ≤ 1
unfolding construct distance ◌-ℤ◌
east_near = omega arith

active : (p : CellPtr) → Active p small
unfolding construct
active p = refl

touch_with_neighbours-Linked_example :
    let (added, w') = touch_with_neighbours 0 false small in
    (added ≡ true) × GraphValid w'.cluster × Grows small.cluster w'.cluster × Linked 0 1 w'.cluster
touch_with_neighbours-Linked_example =
    touch_with_neighbours-Linked 0 1 east false small untouched-GraphValid (active 0) (active 1)
      (λ e. omega arith) east_found east_near

-- All vertices in one component.
abbrev one_component : ℕ → List (ℕ × ℕ) → ℕ × (ℕ → ℕ)
one_component n es = (1, λ v. 0)

one_component-AreComponents : AreComponents one_component
one_component-AreComponents = record {
  joined = λ n es u v a b h. refl;
  numbered = λ n es v h. omega arith;
}

-- Two cells with an edge.
abbrev pair : Cluster
pair = record no_cluster {
  num_vertices = 2;
  edges = (0, 1) ∷ [];
  current_cells = 4 ∷ 6 ∷ [];
  vertices = (4, 0) ∷ (6, 1) ∷ [];
}

pair-GraphValid : GraphValid pair
unfolding contains lookup
pair-GraphValid = record {
  complete = λ p h. pair-complete p h;
  sound = λ p v h. ground arith;
  distinct = λ p q v h i. ground arith;
  joined = ((omega arith, omega arith), tt);
}
  where
    pair-complete :
        (p : CellPtr) → contains pair.current_cells p ≡ true → (v : ℕ) × (vertex_of pair p ≡ some v)
    pair-complete p h = elim (ℕ_discrete 4 p) [
      | yes a ↦ (0, ground arith)
      | no b ↦ elim (ℕ_discrete 6 p) [ yes c ↦ (1, ground arith) | no d ↦ absurd (ground arith) ]
    ]

pair-Linked : Linked 4 6 pair
unfolding lookup ℕ_discrete
pair-Linked = (0, 1, refl, refl, inl refl)

group_cells-Linked_example :
    let k' = group_cells one_component pair in
    (c : ℕ) × (c < k'.num_components) × In 4 (k'.cells_by_cluster c) × In 6 (k'.cells_by_cluster c)
group_cells-Linked_example =
    group_cells-Linked one_component pair 4 6 one_component-AreComponents pair-GraphValid
      (omega arith) pair-Linked

abbrev first_component : ℕ → ℕ
first_component v = 0

abbrev no_cells : ℕ → List CellPtr
no_cells c = []

-- Entity 4 is in the first cell, and keeps it.
abbrev kept_small : World
kept_small = record small { entity = λ e. record player { cell = some 0 } }

kept_small-StallValid : StallValid kept_small
unfolding construct
kept_small-StallValid = λ p h. ground arith

kept_small-Warm : Warm kept_small
unfolding construct
kept_small-Warm = λ p. refl

run_scheduled_operations-Safe_example :
    Safe kept_small (run_scheduled_operations (keep 4 ∷ []) kept_small)
run_scheduled_operations-Safe_example =
    run_scheduled_operations-Safe (keep 4 ∷ []) kept_small kept_small-StallValid kept_small-Warm tt
      ((0, refl), tt)

-- The third cell is on cooldown.
abbrev cooling : World
cooling = record small {
  heap = λ p.
      with_stall (record { is_registered = false; is_on_cooldown = true; remaining = 0 })
        (small.heap p);
  cluster = record no_cluster { stall_cells = 2 ∷ [] };
}

removed_once : contains (remove cooling.cluster.stall_cells 2) 2 ≡ false
unfolding contains remove
removed_once = refl

touch-process_stalls_example :
    let w1 = (process_stalls (2 ∷ []) 0 cooling).1 in
    (w1.map_pushed
      ≡ cooling.map_pushed
        ++ (record {
          type = destroy;
          offset = (cooling.heap 2).offset;
          entity = none;
          param = some 2;
        }
            ∷ []))
    × ((touch 2 false w1).1.undefined ≡ true)
touch-process_stalls_example = touch-process_stalls 2 cooling refl removed_once
