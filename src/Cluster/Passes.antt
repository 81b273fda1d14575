-- ===== src/Cluster/Passes.antt =====
-- What `Cluster::update`, `cleanup` and `runScheduledOperations` keep: a statement about the world that
-- each of their steps keeps.
use shinzui.Base.{
  ℕ, zero, suc, ◌≡◌, refl, List, [], ◌∷◌, Option, none, some, true, false, not, arith, Bool-cases,
  inl, inr, ◌||◌, ◌==◌,
}
use shinzui.World.{
  World, Cell, Request, CellPtr, EntityPtr, PacketPtr, ClientPtr, Cluster, ClusterOperation, keep,
  unkeep, set_cell, set_cluster, go_undefined, contains, MapOperation,
}
use shinzui.Cell.{send, send_all, process_requests, update_entity, update_entities, open_queue}
use shinzui.Cell
use shinzui.Cluster.{
  group_cells, update_cells, for_clusters, cleanup_cell, cleanup_cells, forget_graph, swap_buffers,
  consume, touch_at, touch_keepers, register_stalls, process_stalls, process_stall_cells,
  with_stall, stall_time, destroy_cell, touch_with_neighbours, remove_updater,
}
use shinzui.Cluster.Frame.{SameMap, touch_with_neighbours-SameMap}
use shinzui.Cluster

-- A new content for a cell that leaves its place and its entities.
abbrev pub SamePlace : Cell → Cell → Type 0
SamePlace c c' = (c'.offset ≡ c.offset) × (c'.entities ≡ c.entities)

-- The steps that the statement `P` bears.
pub record Steady (P : World → Type 0) : Type 0 where
  pub on_cell :
      (p : CellPtr) (c : Cell) (w : World) → SamePlace (w.heap p) c → P w → P (set_cell p c w)
  pub on_cluster : (k : Cluster) (w : World) → P w → P (set_cluster k w)
  pub on_sent : (l : List (ClientPtr × PacketPtr)) (w : World) → P w → P (record w { sent = l })
  pub on_undefined : (w : World) → P w → P (go_undefined w)
  pub on_destroy : (l : List MapOperation) (w : World) → P w → P (record w { map_pushed = l })
  pub on_touch : (w w' : World) → SameMap w w' → P w → P w'

cleanup_cell-SamePlace : (elapsed : ℕ) (c : Cell) → SamePlace c (cleanup_cell elapsed c)
unfolding cleanup_cell Cell.cleanup
cleanup_cell-SamePlace elapsed c = ground arith

module _ (P : World → Type 0) (k : Steady P) where
  send_all-Steady :
      (client : Option ClientPtr) (packets : List PacketPtr) (w : World)
      → P w
      → P (send_all client packets w)
  unfolding send_all
  send_all-Steady none packets w h = h
  send_all-Steady (some c) [] w h = h
  send_all-Steady (some c) (x ∷ xs) w h =
      send_all-Steady (some c) xs (send (some c) x w) (k.on_sent _ w h)

  send-Steady : (client : Option ClientPtr) (x : PacketPtr) (w : World) → P w → P (send client x w)
  send-Steady none x w h = k.on_undefined w h
  send-Steady (some c) x w h = k.on_sent _ w h

  process_requests-Steady :
      (rs : List Request) (e : EntityPtr) (w : World) → P w → P (process_requests rs e w)
  unfolding process_requests
  process_requests-Steady [] e w h = h
  process_requests-Steady (r ∷ rs) e w h = elim (Bool-cases (r.who == e)) [
    | inl self ↦ rw self (process_requests-Steady rs e w h)
    | inr other ↦
        rw other (process_requests-Steady rs e _ (send-Steady (w.entity r.who).client _ w h))
  ]

  module _ (entity_update : EntityPtr → ℕ → World → World)
      (keeps : (e : EntityPtr) (t : ℕ) (w : World) → P w → P (entity_update e t w))
      (elapsed : ℕ) where
    update_entities-Steady :
        (p : CellPtr) (packets : List PacketPtr) (es : List (ℕ × EntityPtr)) (w : World)
        → P w
        → P (update_entities entity_update elapsed p packets es w)
    unfolding update_entities update_entity
    update_entities-Steady p packets [] w h = h
    update_entities-Steady p packets ((id, e) ∷ es) w h =
        let w1 = send_all (w.entity e).client packets (entity_update e elapsed w) in
        update_entities-Steady p packets es (update_entity entity_update elapsed p packets e w) (
          process_requests-Steady (w1.heap p).requests e w1
            (send_all-Steady (w.entity e).client packets _ (keeps e elapsed w h)))

    update_cells-Steady :
        (ps : List CellPtr) (w : World) → P w → P (update_cells entity_update elapsed ps w)
    unfolding update_cells Cell.update
    update_cells-Steady [] w h = h
    update_cells-Steady (p ∷ ps) w h =
        let c = w.heap p in
        update_cells-Steady ps _ (
          update_entities-Steady p (open_queue c) c.entities _
            (k.on_cell p (record c { broadcast_first = not c.broadcast_first }) w (refl, refl) h))

  for_clusters-Steady :
      (n cid : ℕ) (f : List CellPtr → World → World)
      → ((ps : List CellPtr) (w : World) → P w → P (f ps w))
      → (w : World) → P w
      → P (for_clusters n cid f w)
  unfolding for_clusters
  for_clusters-Steady zero cid f keeps w h = h
  for_clusters-Steady (suc n) cid f keeps w h =
      for_clusters-Steady n (suc cid) f keeps _ (keeps (w.cluster.cells_by_cluster cid) w h)

  module _ (connected_components : ℕ → List (ℕ × ℕ) → ℕ × (ℕ → ℕ))
      (entity_update : EntityPtr → ℕ → World → World)
      (keeps : (e : EntityPtr) (t : ℕ) (w : World) → P w → P (entity_update e t w))
      (elapsed : ℕ) where
    pub update-Steady :
        (w : World) → P w → P (Cluster.update connected_components entity_update elapsed w)
    unfolding Cluster.update
    update-Steady w h = of_vertices w.cluster.vertices refl
      where
        grouped : P (set_cluster (group_cells connected_components w.cluster) w)
        grouped = k.on_cluster _ w h

        of_vertices :
            (vs : List (CellPtr × ℕ))
            → w.cluster.vertices ≡ vs
            → P (Cluster.update connected_components entity_update elapsed w)
        of_vertices [] e = rw (e, Cluster.update) h
        of_vertices (v ∷ vs) e =
            rw (e, Cluster.update)
              (for_clusters-Steady _ 0 (update_cells entity_update elapsed)
                (update_cells-Steady entity_update keeps elapsed) _ grouped)

  cleanup_cells-Steady :
      (elapsed : ℕ) (ps : List CellPtr) (w : World) → P w → P (cleanup_cells elapsed ps w)
  unfolding cleanup_cells
  cleanup_cells-Steady elapsed [] w h = h
  cleanup_cells-Steady elapsed (p ∷ ps) w h = cleanup_cells-Steady elapsed ps _ (
      k.on_cell p (cleanup_cell elapsed (w.heap p)) w (cleanup_cell-SamePlace elapsed (w.heap p)) h)

  pub cleanup-Steady : (elapsed : ℕ) (w : World) → P w → P (Cluster.cleanup elapsed w)
  unfolding Cluster.cleanup
  cleanup-Steady elapsed w h = of_vertices w.cluster.vertices refl
    where
      cleaned : World
      cleaned = for_clusters w.cluster.num_components 0 (cleanup_cells elapsed) w

      of_vertices :
          (vs : List (CellPtr × ℕ)) → w.cluster.vertices ≡ vs → P (Cluster.cleanup elapsed w)
      of_vertices [] e = rw (e, Cluster.cleanup) (k.on_cluster _ w h)
      of_vertices (v ∷ vs) e =
          rw (e, Cluster.cleanup)
            (k.on_cluster _ _ (
              k.on_cluster (forget_graph cleaned.cluster) cleaned (
                for_clusters-Steady _ 0 (cleanup_cells elapsed) (cleanup_cells-Steady elapsed) w
                  h)))

  consume-Steady : (ops : List ClusterOperation) (w : World) → P w → P (consume ops w)
  unfolding consume
  consume-Steady [] w h = h
  consume-Steady (keep e ∷ ops) w h = consume-Steady ops _ (k.on_cluster _ w h)
  consume-Steady (unkeep e ∷ ops) w h = elim (Bool-cases (contains w.cluster.keepers e)) [
    | inl there ↦ rw there (consume-Steady ops _ (k.on_cluster _ w h))
    | inr missing ↦ rw missing (consume-Steady ops _ (k.on_undefined w h))
  ]

  touch_at-Steady : (at : Option CellPtr) (w : World) → P w → P (touch_at at w)
  touch_at-Steady none w h = k.on_undefined w h
  touch_at-Steady (some p) w h = k.on_touch w _ (touch_with_neighbours-SameMap p false w) h

  touch_keepers-Steady : (es : List EntityPtr) (w : World) → P w → P (touch_keepers es w)
  unfolding touch_keepers
  touch_keepers-Steady [] w h = h
  touch_keepers-Steady (e ∷ es) w h =
      touch_keepers-Steady es _ (touch_at-Steady (w.entity e).cell w h)

  register_stalls-Steady : (ps : List CellPtr) (w : World) → P w → P (register_stalls ps w)
  unfolding register_stalls
  register_stalls-Steady [] w h = h
  register_stalls-Steady (p ∷ ps) w h =
      elim (Bool-cases (contains w.cluster.current_cells p || contains w.cluster.stall_cells p)) [
        | inl known ↦ rw known (register_stalls-Steady ps w h)
        | inr new ↦
            rw new (register_stalls-Steady ps _ (k.on_cell p _ _ (refl, refl) (k.on_cluster _ w h)))
      ]

  process_stalls-Steady :
      (ps : List CellPtr) (count : ℕ) (w : World) → P w → P (process_stalls ps count w).1
  unfolding process_stalls destroy_cell
  process_stalls-Steady [] count w h = h
  process_stalls-Steady (p ∷ ps) count w h = elim (Bool-cases (w.heap p).stall.is_on_cooldown) [
    | inl cools ↦
        rw cools (process_stalls-Steady ps count _ (k.on_cluster _ _ (k.on_destroy _ w h)))
    | inr warm ↦
        rw warm
          (process_stalls-Steady ps _ _ (k.on_touch w _ (touch_with_neighbours-SameMap p true w) h))
  ]

  pub run_scheduled_operations-Steady :
      (ops : List ClusterOperation) (w : World) → P w → P (Cluster.run_scheduled_operations ops w)
  unfolding Cluster.run_scheduled_operations process_stall_cells
  run_scheduled_operations-Steady ops w h = k.on_cluster _ _ (
      process_stalls-Steady _ 0 _ (
        k.on_cluster _ _
          (register_stalls-Steady _ _ (touch_keepers-Steady _ _ (consume-Steady ops w h)))))
