-- ===== src/Lib.antt =====
-- A verification library for rodengine's ECS database, the crate `ecsdb`.
--
-- A `Database` (ecsdb/src/db.rs) holds one component table for each registered component type, an
-- entity registry and an archetype registry. Callers queue operations; `commit` sends them as one
-- batch to the write thread, which logs them, applies them to the write buffers of the tables, and
-- rolls all of them back if one fails. Then `commit` publishes the write buffers to the readers and
-- gives a delta to replication. Recovery loads a snapshot and replays the log.
--
-- Files:
--   Common         lists, Booleans and hash maps over the native numbers
--   Error          ecsdb/src/error.rs: `EcsDbError`, and results that may be a panic
--   Storage.Buffer ecsdb/src/storage/buffer.rs: `ArcStorageBuffer`, with its operations by name;
--                  `insert` is split at its branches into `allocate`, `allocate_end` and `copy_in`,
--                  the loop of `compact` is `compact_loop`
--   Storage.Table  ecsdb/src/storage/table.rs: `ComponentTable`, a buffer with an index from
--                  entity IDs to offsets
--   Storage.Delta  ecsdb/src/storage/delta.rs: the changes of a transaction
--   Storage.Sparse ecsdb/src/storage/sparse.rs: `SparseSet`
--   Entity         ecsdb/src/entity/registry.rs and archetype.rs
--   Transaction    ecsdb/src/transaction/wal.rs and write_queue.rs: the log in memory, and the
--                  rounds of the write thread (`handle` for `spawn_with_batch`, `handle_each` for
--                  `spawn`), over the closures that apply operations
--   Database       ecsdb/src/db.rs: one operation (`apply_write_op`, `process_single`), batches
--                  (Database.Batch), commits and entities (Database.Commit), snapshots,
--                  reads and pending operations (Database.Queries)
--   Schema         ecsdb/src/schema/types.rs and validator.rs (Schema.Types, Schema.Validator), and
--                  ecsdb/src/storage/layout.rs (Schema.Layout)
--   Replication    ecsdb/src/replication: the frames of delta_encoder.rs (Frame), the sessions of
--                  client.rs (Clients), the queue of broadcast.rs (Broadcast) with its log
--                  (DeltaLog, delta_log.rs), sync.rs (Sync) and conflict.rs (Conflict)
--   Client         ecsdb_client/src/client_db.rs: the client's database
--   Persistence    ecsdb/src/persistence/manager.rs: what replay collects from a log
--                  (Persistence.Replay), and how it applies that (Persistence.Recovery);
--                  file_wal.rs: the log on disk (Persistence.FileWal); snapshot.rs:
--                  operations applied to a snapshot (Persistence.SnapshotOps)
--   Tests          the theorems at concrete inputs
--
-- State is passed explicitly: `&mut self` is an argument and a result. A failure is an `err`, a
-- panic (a slice out of range, a division by zero) is `panic`. Counters and IDs of a fixed width wrap
-- (`% 2 ^ 64`), and so do the sizes and offsets of record layouts, where an input can make them
-- large; positions in the buffers do not, which memory bounds. The code is that of a build without
-- overflow checks and debug assertions. Whether the reply of the write thread comes before the
-- timeout is an argument of `commit`, and `FileWal::read_all_entries`, which fails for the path of
-- a file, is one of the replay. A `HashMap` is an association list and its order stands for the
-- unspecified one. `bincode` is the parameter `Codec`, the component type of
-- each table ID the parameter `Components`; `crc32fast`, the serialization of a log entry and the
-- clock are the record `WalEnv`; the checksum of frames is an argument, and compression and the
-- serialization of deltas are the record `Codecs`. Times are numbers of milliseconds, a client's
-- channel is the list of its messages.
--
-- Three functions run on fuel. In `named_size` it is the depth of the calls that the stack holds, and
-- a type nested deeper is a panic; a bound on the nesting of the custom types is enough. In
-- `chunk_from` it is the number of rounds; the length of the data is enough, and so it is for the
-- rounds of `read_loop`. The loops of `compact` and of `create_snapshot` recur on the number of slots
-- they visit, the bytes of a number on their count, all other loops on the list they read.
--
-- Not modelled: snapshot files, failures of the file system, compression, sockets and timer loops,
-- JSON, the TOML text of a schema, the floating point fragmentation ratio, the timeouts of callers
-- of single operations, and the transaction engine, which nothing else uses.
pub mod Client
pub mod Common
pub mod Database
pub mod Entity
pub mod Error
pub mod Persistence
pub mod Replication
pub mod Schema
pub mod Storage
pub mod Tests
pub mod Transaction
