-- ===== src/Lib.antt =====
-- Vyrm: the kernel of a bi-temporal claim store, the storage substrate under it, and the contract of
-- its cluster with the fault simulator.
--
-- The program records claims: assertions about a subject and a predicate that hold over an interval
-- of valid time and were recorded at a transaction time. A claim is never changed. It is written
-- under a key whose byte order is newest first on both timelines, so that one range scan answers
-- which claim held at an instant. Under the kernel stands a storage engine whose unit is an atomic
-- batch: a batch is a frame of the write-ahead log, and it is applied to a multi-version table. A shard
-- is replicated: the simulator appends proposals to a leader's log, sends them to the other voters over
-- a faulty network, and acknowledges what a quorum has stored.
--
-- The parts, and the files that model them:
--   * Prelude: Boolean tests, lists, byte strings and their order, fixed-width digits, results.
--   * Core/Error, Core/Ident: crates/vyrm-core/src/error.rs and ident.rs. `Ident.new` is the
--     constructor of `Subject`, `Predicate` and `Reader`, which are one type here.
--   * Core/Key: crates/vyrm-core/src/key.rs, every key, bound and decoder under its own name.
--   * Core/Claim, Core/Encoding: crates/vyrm-core/src/claim.rs, `Claim` with its windows, canonical
--     bytes, digest and `supersede`.
--   * Core/Digest: crates/vyrm-core/src/digest.rs, SHA-256 with its streaming state.
--   * Core/Temporal: crates/vyrm-core/src/temporal.rs, `resolve_as_of` and `changed_since`.
--   * Core/Reference: crates/vyrm-core/src/reference.rs, the in-memory store. The `BTreeMap` is a
--     list of rows in key order, and `as_of` is the method of `ClaimReader` over that store.
--   * Core/Recall: crates/vyrm-core/src/recall.rs, the recall of a set of subjects within a budget.
--   * Core/Reasoning: crates/vyrm-core/src/reasoning.rs, the payloads, their checks, `transition` and
--     `event_digest`; Core/Reasoning/Run has the run and its `append`, Core/Reasoning/Replay its
--     `replay`.
--   * Kv/Error, Kv/Batch: crates/vyrm-kv/src/error.rs and batch.rs, the batch and its frame.
--   * Kv/Memtable: crates/vyrm-kv/src/memtable.rs, the table, its reads, and (Kv/Memtable/Recover)
--     how it is rebuilt. Scans compares a scan with reads of single keys, Ordered has the order that
--     every recovered table keeps.
--   * Kv/Wal: crates/vyrm-kv/src/wal.rs, the log: headers and the writer in Kv/Wal, recovery, repair
--     and reopening in Kv/Wal/Recover.
--   * Cluster/Error, Cluster/Placement, Cluster/Contract: crates/vyrm-cluster/src/contract.rs, every
--     check under the name of its method, as `validate_stamp`; Cluster/Contract/Vectors has the
--     comparison of snapshot vectors.
--   * Cluster/Sim: crates/vyrm-cluster/src/sim.rs, the state, `new` and the sending of messages;
--     Operations has `propose` and the handlers of the messages, Safety has `verify_safety`, `deliver`
--     and `apply` over every fault, Ready has `deliver_ready` and the queries. Invariant, Steps,
--     Handlers, Verified, Delivery and Proposals carry the invariant through every call, Reachable is
--     the relation of the clusters that calls can reach.
--   * Core/Runtime: parts of crates/vyrm-core/src/runtime.rs, the values of properties in
--     Core/Runtime/Value and the graph of a scope in Core/Runtime/Graph, with the difference of two
--     graphs in its Diff and what the difference makes of the older one in its Patch.
--   * Vector/Filter: crates/vyrm-vector/src/filter.rs, the filters with their comparison of values,
--     `validate` and `matches`.
--   * Node/Policy: crates/vyrm-node/src/policy.rs, `evaluate_tool` and the test for a control command;
--     Node/Policy/Workflow reads its verdict off the events of the run.
--   * Core/Tests, Core/Reasoning/Tests, Core/Runtime/Tests, Core/Digest/Tests, Kv/Tests, Cluster/Tests,
--     Vector/Tests, Node/Policy/Tests: the theorems at concrete inputs.
--
-- Conventions. Strings and byte vectors are lists of numbers. A `u64` is a number, with its limit as a
-- hypothesis where the code relies on it, and what wraps is written `% 2 ^ w`. A method that takes
-- `&mut self` returns the new state. An error keeps its variant and the first words of its reason. The
-- confidence of a claim stands as its 32 bits. A `BTreeMap` or `BTreeSet` is a list in the order of its
-- keys (Prelude/Maps); a line of the simulator's trace is a value of `TraceEntry`. Where a call fails
-- after it has changed the cluster, the model returns the changed cluster with the failure. A file is its bytes; whether a write reaches it, and
-- with how many bytes, is an argument of the append.
--
-- Loops. `resolve_as_of` and the groups of `recall` take one candidate at least per round, so the
-- number of candidates is enough fuel. Recovery takes a record header at least per round, so the
-- length of the file is enough. `deliver_ready` is given `fuel_for`, one more than what the messages in
-- transit may still cost: an append costs two more than there are replicas, an acknowledgement one
-- more, a commit one. `traverse` is given one round for each relation and two more, since a node joins
-- the queue by a relation whose target no one has visited. Other loops are by recursion on their input.
--
-- Parameters: `crc32c::crc32c_append`, of which only the range of its result is assumed; the size of
-- a `VersionedValue` in memory, `serde_json::to_vec` of a placement, and whether a text is blank after `trim`, of which nothing is.
--
-- Not modelled: the flush, compaction, manifest and bundles of the storage crate, the commits, stamps
-- and transactions of the runtime, the trace and schema of the kernel crate, the adapters over storage
-- engines, the cluster's runtime and its consensus library, the floating-point search of the vector
-- crate, the graph, query and embedding crates, the configuration and hooks of the node crate, and
-- the programs. What is serialized with serde or
-- printed is left out everywhere.
pub mod Prelude
pub mod Core
pub mod Kv
pub mod Cluster
pub mod Vector
pub mod Node
