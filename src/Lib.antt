-- ===== src/Lib.antt =====
-- Shinzui: a game server whose world is a map of hexagonal cells. A client's bytes arrive as packets,
-- are handled as jobs of an executor, and move entities between cells; a cell broadcasts packets to
-- the clients in it and around it, and a cluster decides each tick which cells are updated together.
--
-- The parts, and the files that model them:
--   Offset    src/map/offset.hpp: coordinates, distance, hash, the table of directions.
--   Packet    src/io/packet.hpp, src/io/packet.cpp, src/defs/intrusive.hpp: the buffer with its
--             cursors. `put` and `put_bytes` are `operator<<`, `read` is `read<T>`, `peek_bytes` is
--             `peek<T>`. A float is its bit pattern.
--   Executor  src/executor/: `execute` is `executeJobs`; `execute_jobs` is its first half, the jobs,
--             and `run_tasks` its second, the timed tasks.
--   World     the state that the next three share: cells, entities and the cluster in one store.
--   Cell      src/map/cell.cpp: entities, searches, the two queues of packets, the update.
--   Cluster   src/map/map-cluster/cluster.cpp: `touch`, `touch_with_neighbours`, `connect`, the
--             stalled cells, `cleanup`, `update`.
--   Map       src/map/map.cpp and `onAdded`, `onRemoved` of src/map/map_aware_entity.cpp:
--             `get_or_create`, `get_cells_excluding`, the broadcasts, the scheduled operations.
--   Server    src/server/server.cpp and client.cpp: `close_client` is `Client::close`, `consume` and
--             `run_scheduled_operations` are the server's round, `update` its tick. Events has what
--             happens between ticks.
--   Float     what the code does with floats: an interface, and the vectors of glm.
--   Physics   src/physics/: bounding boxes, projections and the separating-axis test.
--   Quadtree  src/map/quadtree.hpp: `insert`, `retrieve`, `trace`, `clear`; `insert_above` is `insert`
--             above `MaxDepth`, `settle` its second half. The trees of the cells, and `Cell::physics`,
--             are in Map/Trees.
--   Movement  src/movement/: the motion master, the curves (Curve), the random movement (Random).
--   Database  src/database/: the queue of queries and its threads; `turn` is a step of `run`.
--   Earlier   src/map-slow-radius/, an earlier map that the build leaves out: Rings has the rings of
--             cells and their cache, Earlier the table and the clusters that spread over the rings.
--   Screen    src/debug/reactive.cpp, reactive.hpp and debug.hpp: the counters, messages and lines of
--             the debug screen.
--   Processor src/debug/cpu.cpp: the use of memory and processor, on Linux.
--   Counter   src/debug/queue_with_size.hpp and src/defs/atomic_autoincrement.hpp.
--   Base      numbers, integers, lists and association lists.
--
-- How they interact: the map creates a cell and tells the cluster (`on_cell_created`), which touches
-- it and its neighbours; the map's operations enter an entity in a cell and call the entity
-- back, which asks the map for the cells that come in sight and broadcasts its packet to them; an
-- entity that keeps cells alive is handed to the cluster through its queue of operations.
--
-- Pointers are numbers of addresses, the null pointer is `none`. Where the language leaves a step
-- undefined, the model sets `undefined` in the world or answers `overflow`. A queue between threads is
-- a list: a log of what was pushed, or an argument that lists what is popped; those of the server and
-- of the cluster have room for 1024 and 4096 operations, and lose what is pushed on a full queue. A
-- number of 16 bits wraps at 2 ^ 16; `int32_t` coordinates are integers, with their range as a
-- hypothesis where it matters. A cell that is destroyed goes into the world's list of what was given
-- back, and no address is given out twice. The loop over timed tasks runs on fuel, one more than the
-- tasks in the queue where they schedule no others; the spread of a cluster in the earlier map on one
-- more than the radius that all cells are within; the binary search runs on fuel above the number of
-- pieces.
--
-- The quadtrees are a pass over the cells of their own, after the entities of a round are updated. A
-- tree has as many levels below it as its type says, so that no fuel is needed.
--
-- Parameters: the answer of `boost::connected_components`, the virtual `update` of an entity, the
-- handlers of jobs and tasks, the arithmetic of floats, `glm::rotate`, `glm::normalize`, `atan2`, the
-- random numbers, the keyboard and the load of the processor. Not modelled: sockets, the mongo
-- driver and the terminal.
pub mod Base
pub mod Float
pub mod Offset
pub mod Packet
pub mod Executor
pub mod World
pub mod Cell
pub mod Cluster
pub mod Map
pub mod Earlier
pub mod Server
pub mod Physics
pub mod Quadtree
pub mod Processor
pub mod Screen
pub mod Movement
pub mod Counter
pub mod Database
