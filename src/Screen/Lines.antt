-- ===== src/Screen/Lines.antt =====
-- src/debug/reactive.cpp: `update_impl`, the lines of the debug screen.
use shinzui.Base.{
  ℕ, suc, ◌/◌, List, [], ◌∷◌, ◌++◌, map, Option, none, some, Bool, true, false, not, ltb,
  if◌then◌else◌, ℤ, pos, ◌-ℤ◌,
}
use shinzui.Float.{Floats, number, min_of, ◌⊕◌, ◌⊖◌, ◌⊗◌, ◌⊘◌}
use shinzui.Offset.{Offset}
use shinzui.World.{Cell}
use shinzui.Screen.{
  Reactive, if_log, level_debug, log_packet_lifecycle, log_client_lifecycle, log_clusters, print,
  tick,
}

-- A line, with what it shows.
pub data Line (F M : Type 0) : Type 0 where
  load : ℤ → ℕ → Line F M
  -- The spaces before the difference, the difference, the bar, and the same of the sleep.
  timing : ℕ → ℕ → F → ℕ → ℕ → Line F M
  title : Line F M
  message : M → Line F M
  alive : ℕ → Line F M
  packet : ℕ → ℕ → Line F M
  clients : ℕ → ℕ → ℕ → Line F M
  client : Offset → ℕ → Line F M
  clusters : ℕ → ℕ → ℕ → ℕ → Line F M
  cell : Offset → ℕ → Bool → Line F M

-- A client as `iterateClients` shows it: the offset of its entity's cell, if it has both, and its id.
pub record ClientView : Type 0 where
  pub place : Option Offset
  pub id : ℕ

-- `4 - std::to_string(n).length()`: `none` where that is below 0, which the constructor of
-- `std::string` refuses.
unfoldable pub padding : ℕ → Option ℕ
padding n =
    if ltb n 10
    then some 3
    else if ltb n 100
    then some 2
    else if ltb n 1000
    then some 1
    else if ltb n 10000
    then some 0
    else none

unfoldable pub packet_lines : {F M : Type 0} → List (ℕ × ℕ) → List (Line F M)
packet_lines [] = []
packet_lines ((opcode, count) ∷ rest) =
    if ltb 0 count then packet opcode count ∷ packet_lines rest else packet_lines rest

unfoldable pub client_lines : {F M : Type 0} → List ClientView → List (Line F M)
client_lines [] = []
client_lines (c ∷ cs) = elim c.place [
  | some o ↦ client o c.id ∷ client_lines cs
  | none ↦ client_lines cs
]

-- The loop over the cells; `count` is the counter before the round.
unfoldable pub cell_lines : {F M : Type 0} → ℕ → List Cell → List (Line F M)
cell_lines count [] = []
cell_lines count (c ∷ cs) =
    let rest = cell_lines (suc count) cs in
    if ltb 10 (suc count)
    then []
    else if not c.stall.is_registered
    then rest
    else cell c.offset (c.stall.remaining / 1000) c.stall.is_on_cooldown ∷ rest

-- `std::min(diff.count(), TimeScale)`.
abbrev pub capped : ℕ → ℕ
capped diff = if ltb 1000 diff then 1000 else diff

module _ {F : Type 0} ⦃f : Floats F⦄ where
  -- The bar, of the heart beat, the difference and the sleep.
  unfoldable pub progress : ℕ → ℕ → ℕ → F
  progress heart_beat diff prev_sleep =
      if ltb heart_beat diff
      then min_of (number 1) (f.of_int (pos diff -ℤ pos prev_sleep) ⊘ number heart_beat)
      else f.of_int (pos heart_beat -ℤ pos prev_sleep) ⊘ number heart_beat

  unfoldable pub smooth : F → F → F
  smooth now before = (number 1 ⊘ number 10) ⊗ now ⊕ (number 1 ⊖ number 1 ⊘ number 10) ⊗ before

module _ {F M : Type 0} ⦃f : Floats F⦄ where
  -- The lines after those of the messages.
  unfoldable pub counters : Reactive F M → List ClientView → List Cell → List (Line F M)
  counters r views cells =
      alive r.num_alive_packets
      ∷ ((if if_log level_debug log_packet_lifecycle r then packet_lines r.packet_count else [])
          ++ (clients r.pending_accept_client r.num_clients r.pending_close_client
              ∷ ((if if_log level_debug log_client_lifecycle r then client_lines views else [])
                  ++ (clusters r.num_clusters r.num_cells r.num_stall r.num_stall_candidates
                      ∷ (if if_log level_debug log_clusters r then cell_lines 0 cells else [])))))

  -- `update_impl`, with the processor's load and the kilobytes of memory in use; `none` is an
  -- exception.
  unfoldable pub update_impl :
      F
      → ℕ
      → List ClientView
      → List Cell
      → ℕ
      → ℕ
      → ℕ
      → Reactive F M
      → Option (List (Line F M) × Reactive F M)
  update_impl cpu ram views cells heart_beat diff prev_sleep r = elim (padding (capped diff)) [
    | none ↦ none
    | some before_diff ↦ elim (padding prev_sleep) [
      | none ↦ none
      | some before_sleep ↦
          let usage = smooth cpu r.cpu_usage in
          let r' = record r { cpu_usage = usage } in
          some (
            (load (f.truncate usage) (ram / 1024)
                ∷ (timing before_diff (capped diff) (progress heart_beat diff prev_sleep)
                      before_sleep prev_sleep
                    ∷ (title ∷ (map message r.messages ++ counters r' views cells)))),
            r',
          )
    ]
  ]

  unfoldable pub update :
      Option ℕ
      → ℕ
      → F
      → ℕ
      → List ClientView
      → List Cell
      → ℕ
      → ℕ
      → ℕ
      → Reactive F M
      → Option (List (Line F M) × Reactive F M)
  update key now cpu ram views cells heart_beat diff prev_sleep r =
      let (due, r') = tick key now r in
      let drawn = update_impl cpu ram views cells heart_beat diff prev_sleep r' in
      if due then drawn else some ([], r')

  unfoldable pub print_now :
      Bool
      → M
      → F
      → ℕ
      → List ClientView
      → List Cell
      → Reactive F M
      → Bool × Option (List (Line F M) × Reactive F M)
  print_now allocated m cpu ram views cells r =
      let (printed, r') = print allocated m r in
      let drawn = update_impl cpu ram views cells 0 0 0 r' in
      if printed then (true, drawn) else (false, some ([], r'))
