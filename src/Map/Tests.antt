-- ===== src/Map/Tests.antt =====
-- A concrete map.
use shinzui.Base.{
  ◌-ℤ◌, suc, zero, ◌<◌, ◌≤◌, ◌≡◌, ◌≢◌, ◌↔◌, refl, List, [], ◌∷◌, none, some, true, false, pos,
  arith, ◌⊎◌, In, lookup,
}
use shinzui.Offset.{Offset, distance}
use shinzui.World.{
  MapOperation, add_entity, remove_entity, destroy, World, Entity, CellPtr, Cluster,
}
use shinzui.Cell.{get, construct}
use shinzui.Map.{get_or_create, run_add, run_remove, get_cells_excluding, run_scheduled_operations}
use shinzui.Cluster.Stalls.{StallValid}
use shinzui.Map.Operations.Live.{Live, AllAimed, run_scheduled_operations-Live}
use shinzui.Map.Operations.Defined.{Beside}
use shinzui.Map.Operations.Beside.{run_add-Beside, run_remove-Beside, run_add-run_remove-Beside}
use shinzui.Map.Cells.{IsValid, Extends, Located}
use shinzui.Map.Excluding.{get_cells_excluding-adjacent}
use shinzui.Map.Operations.{entity_of}

abbrev pub origin : Offset
origin = record { q = pos 0; r = pos 0 }

abbrev pub east : Offset
east = record { q = pos 1; r = pos 0 }

abbrev pub far : Offset
far = record { q = pos 5; r = pos 2 }

abbrev pub no_cluster : Cluster
no_cluster = record {
  num_vertices = 0;
  edges = [];
  current_cells = [];
  old_cells = [];
  stall_cells = [];
  num_stall = 0;
  num_stall_candidates = 0;
  cells_by_cluster = λ i. [];
  vertices = [];
  keepers = [];
  num_components = 0;
}

abbrev pub player : Entity
player = record {
  id = 7;
  client = some 3;
  cell = none;
  is_updater = true;
  spawn_packet = 100;
  despawn_packet = 101;
}

abbrev pub places : CellPtr → Offset
places zero = origin
places (suc zero) = east
places (suc (suc n)) = far

-- A map with three cells, at addresses 0, 1 and 2.
abbrev pub small : World
small = record {
  heap = λ p. construct (places p) 0;
  next_address = 3;
  freed = [];
  cells = (origin, 0) ∷ (east, 1) ∷ (far, 2) ∷ [];
  entity = λ e. player;
  cluster = no_cluster;
  map_pushed = [];
  cluster_pushed = [];
  sent = [];
  undefined = false;
}

pub small-IsValid : IsValid small
unfolding get lookup construct
small-IsValid = record { placed = λ o p h. ground arith; allocated = λ o p h. ground arith }

found : get small origin ≡ some 0
unfolding get lookup
found = ground arith

empty : entity_of 7 (construct origin 0) ≡ none
unfolding construct lookup
empty = refl

nowhere :
    (let (p, w1) = get_or_create origin small in entity_of (small.entity 4).id (w1.heap p) ≡ none)
unfolding get_or_create
nowhere = rw (found, get_or_create) empty

east-adjacent : distance (small.heap 0).offset (small.heap 1).offset ≡ 1
unfolding construct distance ◌-ℤ◌
east-adjacent = refl

far-apart : distance (small.heap 0).offset (small.heap 2).offset ≢ 1
unfolding construct distance ◌-ℤ◌
far-apart = λ e. omega arith

get_cells_excluding-adjacent_example :
    let (ps, w') = get_cells_excluding (some 1) (some 0) small in
    (os : List Offset) × Located w' os ps
    × ((x : Offset)
        → In x os
          ↔ ((distance (small.heap 1).offset x ≤ 1) × (1 < distance (small.heap 0).offset x)))
    × Extends small w'
get_cells_excluding-adjacent_example =
    get_cells_excluding-adjacent 1 0 small small-IsValid east-adjacent

-- The player enters, another one leaves, and a cell is destroyed.
abbrev several : List MapOperation
several =
    record { type = add_entity; offset = origin; entity = some 4; param = none }
    ∷ record { type = remove_entity; offset = east; entity = some 5; param = none }
    ∷ record { type = destroy; offset = far; entity = none; param = some 2 }
    ∷ []

east_found : get small east ≡ some 1
unfolding get lookup
east_found = ground arith

empty_east : entity_of 7 (construct east 0) ≡ none
unfolding construct lookup
empty_east = refl

pub small-StallValid : StallValid small
unfolding construct
small-StallValid = λ p h. ground arith

next_to_origin : Beside small origin (some 1)
unfolding construct distance ◌-ℤ◌
next_to_origin = (omega arith, refl)

origin-east : distance origin east ≡ 1
unfolding distance ◌-ℤ◌
origin-east = refl

run_add-Beside_example :
    let w' = run_add origin 4 (some 1) small in
    (w'.undefined ≡ false)
    × StallValid w'
    × ((p : CellPtr) × IsValid w'
        × (get w' origin ≡ some p)
        × ((w'.entity 4).cell ≡ some p)
        × (entity_of (small.entity 4).id (w'.heap p) ≡ some 4))
run_add-Beside_example =
    run_add-Beside origin 4 (some 1) small small-IsValid small-StallValid next_to_origin nowhere

run_remove-Beside_example :
    let w' = run_remove origin 4 (some 1) small in
    (w'.undefined ≡ false)
    × StallValid w'
    × (((get small origin ≡ none) × (w' ≡ small))
        ⊎ ((p : CellPtr) × (get small origin ≡ some p)
            × IsValid w'
            × (get w' origin ≡ some p)
            × ((w'.entity 4).cell ≡ none)
            × (entity_of (small.entity 4).id (w'.heap p) ≡ none)))
run_remove-Beside_example =
    run_remove-Beside origin 4 (some 1) small small-IsValid small-StallValid next_to_origin

run_add-run_remove-Beside_example :
    let w' = run_add east 4 (some 0) (run_remove origin 4 (some 1) small) in
    (w'.undefined ≡ false)
    × StallValid w'
    × (IsValid w'
        × (get w' origin ≡ some 0)
        × (get w' east ≡ some 1)
        × (entity_of (small.entity 4).id (w'.heap 0) ≡ none)
        × (entity_of (small.entity 4).id (w'.heap 1) ≡ some 4)
        × ((w'.entity 4).cell ≡ some 1))
run_add-run_remove-Beside_example =
    run_add-run_remove-Beside origin east 4 0 1 small small-IsValid small-StallValid found
      east_found origin-east empty_east

small-Live : Live small
small-Live = record { valid = small-IsValid; alive = λ o p h m. absurd m; made = λ p m. absurd m }

-- A cell is destroyed, and made again by an entity that comes to its place.
abbrev far_again : List MapOperation
far_again =
    record { type = destroy; offset = far; entity = none; param = some 2 }
    ∷ record { type = add_entity; offset = far; entity = some 4; param = none }
    ∷ []

far_again-AllAimed : AllAimed small far_again
unfolding construct
far_again-AllAimed = (λ e. (2, refl, omega arith, refl), (λ e. absurd (ground arith), tt))

run_scheduled_operations-Live_example : Live (run_scheduled_operations far_again small)
run_scheduled_operations-Live_example =
    run_scheduled_operations-Live far_again small small-Live far_again-AllAimed
