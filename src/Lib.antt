-- ===== src/Lib.antt =====
-- Trouper: an actor runtime with event-sourced actors, bounded inboxes, supervision and
-- journals. A message reaches an actor's inbox; the actor's loop takes a batch out of it in one
-- atomic step, asks the handlers to decide, appends the decided events to the journal, commits the
-- batch, folds the events into the live state, flushes the recorded effects, and may take a
-- snapshot. A crash gives the batch back, and the supervision engine decides on a restart, which
-- rebuilds the state from the journal. The registry says which actors handle a schema.
--
-- Files, and the code they are about:
--   Prelude        shared list, test, 64-bit and panic helpers
--   Supervision    src/supervision.rs, and `supervise_child` of src/kernel.rs (Engine). Window
--                  has the lemmas on pruning
--   Inbox          src/inbox.rs: push, ack, claim, restore, commit, close. Wf is the
--                  well-formedness, Policy the overload policies, Claims and Commits the batch
--   Journal        src/journal.rs: one actor's journal, with append, catch-up append and load at one
--                  path. Seqs and Append have the dense sequences. Store is the in-memory store over
--                  all paths (Frame, Scan and CatchUp have its theorems)
--   JournalDaow    src/journal_daow.rs, the write-behind store: Rows has the stored form of an entry,
--                  Database the statements asked of SQLite, Buffers the appends, Flush the flush in its
--                  two steps, Cold passivation, loads, purges and catch-ups. Ledger is the abstract view
--                  of a path. Entries, Write, Capture and Refine are about flushes, Grow, Replace and
--                  Appends about appends, Sleep and Loads about passivations and loads; Runs has a
--                  store's moves as a step relation, Durable and Retained what is left of a flush and
--                  of a passivation, ColdAppend is about an append without a load. TableDatabase is a
--                  database of lists
--   Envelope       src/envelope.rs: addresses, traces, envelopes
--   Registry       the routes of src/registry.rs: Handlers has registration and removal, Rotation the
--                  round-robin cursor, Plain the pick around projector sets. Slots has the slots and their
--                  endpoints, Sets the partition and projector sets (Owned says which paths are members),
--                  Paths the member's path `public/key`
--   Schema         src/schema.rs, and the schema table and the type claims of src/registry.rs. Ids has
--                  the parsing of ids, Table the registrations
--   Reply          src/reply.rs: Leases counts replies, Waiting follows an open lease
--   Actor          the event-sourced contract of src/actor.rs as an interface, `rebuild`, and what
--                  a recovery restores (Recovery)
--   Kernel         src/kernel.rs: Snapshot is the snapshot cadence, Outbox the emit gate of
--                  `flush_outbox`, Delivery the direct push, its watermark and the hold of
--                  the front door (Hold, with its theorems in Holding), Decide the decide pass,
--                  the emit filter and the append, Step the atomic step `step_es` with its claim guard
--                  (Crash, Live, Commit and Stamped have its theorems), Lifetime the restart
--                  `restart_es` and a whole actor's moves as a step relation (Sound has its invariant), and
--                  the idle check `maybe_passivate` with its drain (Passivation, DoorState, Drained)
--   Fabric         `route` and `broadcast` of src/kernel.rs over the registry's tables, the endpoints and
--                  the dead letters: Rules are the router rules, Keys the shard keys, Resolve the sets,
--                  Route the stages of `route` (Partitions, Refusals and Letters have its theorems),
--                  Broadcast the fan-out (Recipients and Once have its theorems)
--   System         `teardown_tables` of src/system.rs over the tables of kernel and registry: Teardown
--                  is what it leaves, Sweep how often an end is announced. Stop is `stop_bounded` over a tree
--                  of supervised actors, on fuel for its height, and Stopped what it leaves and takes
--
-- How the code is modelled: a struct is a record, an enum a data type, a method that changes its
-- receiver a function from the old value to the new one. A panic is `panics` of `Run`. A queue slot
-- is an offset with an envelope or with a tombstone. 64-bit counters keep their wrap-around
-- (`add_u64`); theorems that need it ask that a counter does not run out. Names are strings, times
-- are milliseconds. Handlers, the fold and the state codec of an application are the interface
-- `EventSourced` and the entries' `dispatch`; the codec's round trip is its law.
--
-- Bounds: the loop of `maybe_snapshot` is run on fuel, one more than the batch's last sequence:
-- each of its turns moves the boundary up by the cadence, which is at least one. The drain of a
-- passivation is run on fuel, one more than there are messages: each of its turns takes one.
--
-- The hold of the front door counts its parks down from the source's cap of 10,000; its wakes are
-- assumed to come. A full channel is waited for, so that a send to it is a send with room.
--
-- The factories of partition and projector sets, and the reading of a shard key, are the record
-- `Application` in Fabric; Keys has the reading that the source has, over an interface for JSON.
--
-- SQLite and serde are parameters of the journal store: Database has the documented behaviour of the
-- statements, Codec that what is printed is read back. Whether the database fails, and the order in
-- which the buffers are visited, are arguments of the operations; a failed transaction leaves the
-- database as it was. Sequences and arrival numbers are below 2 ^ 63, so that signed columns hold them in order; payloads
-- and states have no floating-point numbers, whose texts serde does not promise to read back. The
-- lock around flushes, loads, passivations and purges makes each of them one step, but for a flush,
-- between whose capture and write appends may come, as they may between the steps of a passivation
-- that has something to flush. An append inside a purge, or inside a passivation with nothing to flush,
-- is left out: it is lost. The teardowns of one actor do not overlap.
--
-- The kernel's one list of dead letters is two here: what an inbox evicts is reported by its door, in the
-- door's list, and the rest stands with the tables.
--
-- Not modelled: the memoised payload views, the minting of ids, clocks, the migrations and the writer
-- task of the journal store, the asynchronous waits and wake signals, observations, the service tier, builders, macros and the
-- rest of the system facade. What a step sends or broadcasts is kept as a list in order, and is not yet handed
-- to the fabric.
pub mod Prelude
pub mod Supervision
pub mod Inbox
pub mod Journal
pub mod Envelope
pub mod Registry
pub mod Schema
pub mod Actor
pub mod Kernel
pub mod Fabric
pub mod Reply
pub mod System
pub mod JournalDaow
