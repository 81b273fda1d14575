-- ===== src/Cell/Tests.antt =====
-- Concrete cells.
use shinzui.Base.{
  In, length, ◌*◌, ◌<◌, ◌≡◌, ◌↔◌, refl, [], ◌∷◌, ◌++◌, none, some, true, pos, arith, lookup,
  ℕ_discrete,
}
use shinzui.Offset.{Offset, distance}
use shinzui.World.{Cell, Entity, EntityPtr}
use shinzui.Cell.{construct, open_queue, closed_queue, cleanup}
use shinzui.Cell.{ring_offsets}
use shinzui.Cell.Hexagon.{In-ring_offsets}
use shinzui.Cell.Entities.{Counts}
use shinzui.Cell.Queues.{broadcast_all, flip, cleanup-keeps_new}

abbrev origin : Offset
origin = record { q = pos 0; r = pos 0 }

abbrev pub player : Entity
player = record {
  id = 7;
  client = some 3;
  cell = none;
  is_updater = true;
  spawn_packet = 100;
  despawn_packet = 101;
}

abbrev players : EntityPtr → Entity
players e = player

-- A cell with no entity, and one with the player.
abbrev empty_cell : Cell
empty_cell = construct origin 0

abbrev pub home : Cell
home = record (construct origin 1) { entities = (7, 1) ∷ [] }

empty_cell-Counts : Counts players 0 empty_cell
unfolding construct
empty_cell-Counts = record { unique = tt; counted = refl }

home-Counts : Counts players 0 home
unfolding construct lookup
home-Counts = record { unique = (refl, tt); counted = refl }

home_holds : lookup ℕ_discrete 7 home.entities ≡ some 1
unfolding lookup ℕ_discrete
home_holds = refl

absent : lookup ℕ_discrete 7 empty_cell.entities ≡ none
unfolding lookup construct
absent = refl

home-positive : 0 < home.clients_count
unfolding construct
home-positive = omega arith

cleanup-keeps_new_example :
    let after = cleanup (broadcast_all (5 ∷ 6 ∷ []) (flip home)) in
    (open_queue after ≡ closed_queue home ++ (5 ∷ 6 ∷ []))
    × (closed_queue after ≡ [])
    × (after.requests ≡ [])
cleanup-keeps_new_example = cleanup-keeps_new home (5 ∷ 6 ∷ []) home-positive

In-ring_offsets_example :
    (In (record { q = pos 1; r = pos 1 }) (ring_offsets origin 2)
      ↔ (distance origin (record { q = pos 1; r = pos 1 }) ≡ 2))
    × (length (ring_offsets origin 2) ≡ 6 * 2)
In-ring_offsets_example = In-ring_offsets origin (record { q = pos 1; r = pos 1 }) 2 (omega arith)
