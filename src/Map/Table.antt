-- ===== src/Map/Table.antt =====
-- src/map/map.cpp: the table of cells, the siblings of a cell and the cells that come in sight.
use shinzui.Base.{
  suc, ◌+◌, List, [], ◌∷◌, ◌++◌, map, Option, none, some, if◌then◌else◌, ℤ, pos, negsuc, ◌-ℤ◌,
  ◌==ℤ◌, ◌%◌, emplace,
}
use shinzui.Offset.{
  Offset, Offset-discrete, minus_one, directions_at, direction_idxs, max_dir_idx, shift,
}
use shinzui.World.{World, CellPtr, go_undefined, write_at}
use shinzui.Cell.{get, construct}
use shinzui.Cluster.{on_cell_created}

-- `_cells.emplace(…, _cellAllocator->construct(this, offset))`.
unfoldable pub create_cell : Offset → World → World
create_cell o w =
    let p = w.next_address in
    record w {
      heap = write_at w.heap p (construct o (w.heap p).clients_count);
      next_address = suc p;
      cells = emplace Offset-discrete o p w.cells;
    }

unfoldable pub get_or_create : Offset → World → CellPtr × World
get_or_create o w = elim (get w o) [
  | some p ↦ (p, w)
  | none ↦ (w.next_address, on_cell_created w.next_address (create_cell o w))
]

-- `getOrCreate` of several offsets, in order.
unfoldable pub get_or_create_all : List Offset → World → List CellPtr × World
get_or_create_all [] w = ([], w)
get_or_create_all (o ∷ os) w =
    let (p, w1) = get_or_create o w in let (ps, w2) = get_or_create_all os w1 in (p ∷ ps, w2)

-- The offsets of the initialiser lists of `createSiblings` and `getSiblings`.
abbrev pub sibling_offsets : Offset → List Offset
sibling_offsets o =
    shift o (pos 0) minus_one
    ∷ shift o (pos 1) minus_one
    ∷ shift o (pos 1) (pos 0)
    ∷ shift o (pos 0) (pos 1)
    ∷ shift o minus_one (pos 1)
    ∷ shift o minus_one (pos 0)
    ∷ []

unfoldable pub create_siblings : CellPtr → World → List CellPtr × World
create_siblings p w = get_or_create_all (sibling_offsets (w.heap p).offset) w

unfoldable pub get_siblings : CellPtr → World → List (Option CellPtr)
get_siblings p w = map (get w) (sibling_offsets (w.heap p).offset)

-- The places in the table on both sides of `idx`: `i` and `j` of `getCellsExcluding`. `idx` is at
-- least -1, so `(idx + 1) % MAX_DIR_IDX` is 0 where it is negative.
unfoldable pub side_left : ℤ → ℤ
side_left idx = if idx ==ℤ pos 0 then pos 5 else idx -ℤ pos 1

unfoldable pub side_right : ℤ → ℤ
side_right (pos n) = pos ((n + 1) % max_dir_idx)
side_right (negsuc n) = pos 0

-- The three offsets that `getCellsExcluding` fetches; `none` is a read outside of the table.
unfoldable pub ahead_offsets : Offset → Offset → Option (List Offset)
ahead_offsets c e =
    let dq = c.q -ℤ e.q in
    let dr = c.r -ℤ e.r in
    let idx = direction_idxs dq dr in
    elim (directions_at (side_left idx)) [
      | none ↦ none
      | some di ↦ elim (directions_at (side_right idx)) [
        | none ↦ none
        | some dj ↦ some (shift c dq dr ∷ shift c di.q di.r ∷ shift c dj.q dj.r ∷ [])
      ]
    ]

-- The branch of `getCellsExcluding` for a single cell: its siblings, then itself.
unfoldable pub siblings_and_self : CellPtr → World → List CellPtr × World
siblings_and_self p w = let (ps, w1) = create_siblings p w in (ps ++ (p ∷ []), w1)

-- `getCellsExcluding(cell, exclude)`.
unfoldable pub get_cells_excluding : Option CellPtr → Option CellPtr → World → List CellPtr × World
get_cells_excluding none none w = ([], go_undefined w)
get_cells_excluding (some p) none w = siblings_and_self p w
get_cells_excluding none (some e) w = siblings_and_self e w
get_cells_excluding (some p) (some e) w = elim (ahead_offsets (w.heap p).offset (w.heap e).offset) [
  | none ↦ ([], go_undefined w)
  | some os ↦ get_or_create_all os w
]
