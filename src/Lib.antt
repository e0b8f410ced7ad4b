-- ===== src/Lib.antt =====
-- The simulation core of CloneCraft (OmniGrid): the message bus with its scheduler, the addresses
-- that its messages carry, and the world state of blocks and properties that its commands change.
--
-- A CommunicationEnvelope is the one message type of the program. Code that wants something done
-- submits it to the CommunicationRuntime (the bus), which validates it against the declared signals,
-- the registered slots and the granted capabilities and keeps it in a bounded inbound queue. A pump
-- takes the oldest message, runs the one handler that its slot names and puts the handler's replies
-- into a bounded outbound queue. The inner CommunicationRouter finds the handler and checks that the
-- replies are valid messages.
--
-- The handlers of the block commands decide on a message and change the world through WorldState, the
-- one entry to blocks and properties. It resolves a property by the registered sidecar type and by what
-- the prototype of the block declares, keeps the overrides of blocks in the chunks of the ChunkManager
-- and those of higher scopes in the HierarchySidecarStore, and tells the hooks and the persistence sink
-- of every change.
--
-- Files, and what they model (paths from the root of the repository):
-- - Values, Text: src/world/registry/Registry.h (PropertyValue, SidecarDef, valueFitsSidecarDef,
--   isNamespacedId). Floats are their IEEE bits.
-- - Registry: the registries of src/world/registry/Registry.h with the validation of sidecar types and
--   the claims of prototypes, and prototypeForBlock of ObjectRef.h; its child BlockIds is
--   BlockIdTable.h and .cpp.
-- - Coords: src/world/coordinates/Coords.part00.hpp to Coords.part03.hpp and CoordMath.h; the child
--   Axis is one axis as digits of a mixed radix, Offset the offsets of addresses, Delta their
--   differences within a bound, Index the flat indices. The search of Delta has 64 rounds: its range
--   has fewer than 2^64 places, and each round halves it. The radices are those of the default build.
-- - State/Target: src/world/state/WorldStateTarget.h.
-- - State/Sparse, State/Hierarchy: src/world/state/HierarchySidecarStore.h and .cpp, the properties of
--   targets above the block scope.
-- - Chunks: src/world/chunk. Sidecar, Chunk and Group are the files of those names, Manager is
--   ChunkManager.h and .cpp. Manager/View is the world of blocks and overrides that a manager stands
--   for, in which its theorems are stated. A pointer to a chunk is the chunk and a write back.
--   Orientation is OrientationSidecar.h with what the manager builds on it.
-- - World: src/world/state/WorldState.h and .cpp; its children Property and Block hold the operations
--   on properties and blocks, Order what a world that is in order satisfies, Sink is PersistenceSink.h
--   and MemoryPersistenceSink.h and .cpp, Commands is
--   src/world/communication/BlockCommandHandlers.h and .cpp.
-- - Comm/Envelope: CommunicationEnvelope.h and .cpp (validateEnvelope, MessageIdSource, makeReply), all
--   of src/world/communication, as are the next six.
-- - Comm/Queue: BoundedEnvelopeQueue.h.
-- - Comm/Schema, Comm/Registries: CommunicationRegistries.h and .cpp.
-- - Comm/Route: the key of a route and the search for it, which SlotRegistry::find and
--   CommunicationRouter::dispatch write out in two ways; both are modelled.
-- - Comm/Router: CommunicationRouter.h and .cpp.
-- - Comm/Runtime: CommunicationRuntime.h and .cpp; its child Register holds the registrations,
--   Inbound the validation of messages and outputs and the trace, Pump submit, dispatch, pumpOne,
--   pumpAll and nextOutput.
-- - Comm/Scheduler: DelayedMessageScheduler.h and .cpp. A priority queue keeps messages until they are
--   due, a worker thread moves due ones into a bounded handoff, and the owner of the bus drains that
--   into the bus. All state is guarded by one mutex, so a run is a sequence of steps (Order.Step).
--
-- State and errors. An operation that changes an object is a function from its state to a result and
-- the new state (Exec); the state comes back beside an error too, so what was written before a throw
-- stays written. A C++ exception is an error value of Comm/Error, one constructor for each throw.
-- Handlers and trace sinks are code from elsewhere: they are values of types H and T, and the record
-- Foreign says what they do to the bus and to the world W. A theorem that needs more than that says so
-- in its hypotheses. The hooks of the world state, its sink and the callback of the chunk manager are
-- foreign too: whether they are set is part of the state, their calls are kept in order in it, and
-- they are taken neither to throw nor to call back.
--
-- Numbers. Message ids and counters are 64-bit: the id source throws at the largest value, the
-- automatic action counter and the count of trace failures wrap. Sizes of containers do not wrap. Two loops have fuel.
-- In pump_all it is one unit for each round, and running out is none: a round takes one message, so one
-- unit more than there are messages pending is enough as long as handlers add none. The other is the
-- search of Delta, above.
--
-- Not modelled: the texts of the error messages; the order in which a map is iterated, with the
-- enumerations that depend on it; the table of prototype handles; the streaming of chunks; and the
-- parts of the program outside the simulation core (rendering, input, the Lua host, world generation,
-- loading of JSON registries).
pub mod Base
pub mod Text
pub mod Assoc
pub mod Coords
pub mod Values
pub mod Registry
pub mod Chunks
pub mod State
pub mod Exec
pub mod Comm
pub mod World
mod Tests
