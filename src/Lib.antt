-- ===== src/Lib.antt =====
-- Verification library of arbitro-raft: the core of the Raft engine of the crate, modelled as
-- functions on explicit state, with the theorems that make it correct.
--
-- Parts, and how they correspond to the code (paths from the root of the repository):
--   Types, Error, Config: the plain data of src/types, src/state, src/entry, src/error, src/config.
--     An identifier, a term or an index is the number that its newtype wraps; an instant is a number
--     of milliseconds, and a function that reads the clock takes the instant as the argument `now`.
--   Storage: the trait of src/traits/storage.rs as a record of operations over a state type; what a
--     theorem needs of an implementation (durable saves, a log that reads back) is a hypothesis.
--   Arena: src/api/node/generational.rs, the ring of term slots with its generations, saturating
--     and wrapping arithmetic kept. Arena.Lookup has the invariant, Arena.Laws and Arena.Append the
--     operations, Arena.Coherence the arena as a cache of a log.
--   PeerMap: src/api/node/progress.rs, the linear-scan map with `swap_remove`.
--   Quorum: the majorities of src/api/node/election.rs and src/api/node/replication/shared.rs.
--   Wire: the messages of src/protocol and their frames as bytes. Wire.Entries has the entries of
--     an append frame, Wire.Fields and Wire.Bodies the wire structs field by field, Wire.Encode and
--     Wire.Decode the codec of src/protocol/codec.
--   Membership: the codec of the control entries of src/api/node/membership.rs.
--   Validation: src/validation/invariants.rs, the check of a configuration.
--   Abuse: src/api/arbitro_raft/abuse.rs, the guard against senders of undecodable frames.
--   Dispatch: src/dispatch/tx, the transaction behind a custom dispatch, and its policies;
--     Dispatch.Spec and Dispatch.Response model spec.rs and response.rs of src/dispatch, Dispatch.View
--     its view.rs and builder.rs, and Dispatch.Registry src/api/custom_registry.rs.
--   Slots: src/api/arbitro_raft/slot.rs, the slots through which waiting clients learn how their
--     proposals ended, each operation as one step.
--   Node: the node of src/api/node/mod.rs as a record. A method is a function from the node to a
--     result and the node after it, also where it fails, so what was written before an error stays
--     written. Messages are appended to `outbox`. Node.Membership, Node.Append, Node.Commit and
--     Node.Election model membership.rs, replication/handler.rs, replication/shared.rs and
--     election.rs of src/api/node, function by function, and Node.Snapshot the follower's side of
--     snapshot.rs. Node.Campaign models the campaigns of election.rs, Node.Transfer the target's side
--     of transfer.rs, Node.Seeded the seeded append of handler.rs, Node.Compaction log_compaction.rs,
--     Node.Custom the handlers of dispatch.rs, Node.Heartbeat the bare heartbeats of
--     replication/heartbeat.rs, and Node.Inbound the dispatch of a message and the quorum lease of
--     mod.rs; the other children hold the proofs.
--   Witness: the theorems at concrete inputs, over a storage in memory.
--
-- The parts interact as in the code: the append handler reads and writes the storage and the arena,
-- and applies the last control entry of a batch; the commit rule reads the progress of the peers
-- through the quorum index; every handler that sees a higher term steps down through the storage.
--
-- Bounds: `u64` sums saturate and `u32` generations wrap as in the source; no loop needs fuel, since
-- each runs over a list or a count.
--
-- Not modelled: the asynchronous run loop, the transports and the registry of groups, which are
-- input and output; the proposal loop, the repairing heartbeats, the leader's side of snapshots,
-- reads, and the catch-up of a transfer; the vectored encoder; the streams of a dispatch context;
-- recycled buffers, logging and addresses. What the drains of a campaign return, which peers the
-- transport reaches, and what the handlers of users do are arguments; Node.Custom takes the
-- invocation of a custom frame as one, whose code is in Dispatch.Registry.
pub mod Base
pub mod Types
pub mod Arena
pub mod PeerMap
pub mod Quorum
pub mod Error
pub mod Storage
pub mod Wire
pub mod Config
pub mod Membership
pub mod Node
pub mod Abuse
pub mod Dispatch
pub mod Slots
pub mod Validation
pub mod Witness
