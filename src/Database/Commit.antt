-- ===== src/Database/Commit.antt =====
-- ecsdb/src/db.rs: the operations of a `Database`. A commit is a round of the write thread, with the
-- deltas read before it and the tables committed after it.
pub mod Atomic
pub mod Entities
use rodengine.Common.{
  ℕ, ◌+◌, ◌%◌, ◌^◌, Bool, true, false, List, [], ◌∷◌, Option, none, some, if◌then◌else◌,
}
use rodengine.Common.HashMap
use rodengine.Common.HashMap.{HashMap, contains_key, map_values}
use rodengine.Error.{
  Result, ok, err, panic, EcsDbError, ok_or, ◌>>=◌, component_not_found, type_name,
  referential_integrity_violation, still_has_components,
}
use rodengine.Storage.Buffer.{Bytes}
use rodengine.Storage.Table
use rodengine.Storage.Table.{ComponentTable, Codec, encode, decode}
use rodengine.Entity.Registry
use rodengine.Entity.Registry.{EntityRegistry}
use rodengine.Entity.Archetype
use rodengine.Entity.Archetype.{ArchetypeRegistry}
use rodengine.Entity.ArchetypeMask
use rodengine.Transaction.Wal.{WalEnv, WalLogger}
use rodengine.Transaction.WriteQueue.{
  WriteOpWithoutResponse, insert, update, delete, commit_batch, Round, Reply, next, ended, handle,
}
use rodengine.Storage.Delta
use rodengine.Storage.Delta.{Delta, record_insert, record_update, record_delete}
use rodengine.Database.{Components, State, TableHandle, process_single, handle_get}
use rodengine.Database.Batch.{process_batch}

-- `writer` is the log of the write thread while that thread runs.
pub record Database : Type 0 where
  pub state : State
  pub writer : Option WalLogger
  pub pending_ops : List WriteOpWithoutResponse
  pub version : ℕ

-- `create_entity`: the empty archetype.
unfoldable pub create_entity : State → ℕ × State
create_entity s =
    let (entity_id, registry) = Registry.create_entity s.entity_registry 0 in
    (
      entity_id,
      record s {
        entity_registry = registry;
        archetype_registry =
            Archetype.add_entity s.archetype_registry entity_id ArchetypeMask.empty;
      },
    )

unfoldable pub any_contains : HashMap TableHandle → ℕ → Bool
any_contains [] entity_id = false
any_contains ((table_id, handle) ∷ tables) entity_id =
    if Table.contains_entity handle.table entity_id then true else any_contains tables entity_id

-- The archetype registry loses the entity also when the entity registry does not know it.
unfoldable pub delete_entity : State → ℕ → Result (Unit {0}) × State
unfolding any_contains
delete_entity s entity_id =
    if any_contains s.tables entity_id
    then (err (referential_integrity_violation (still_has_components entity_id)), s)
    else (let removed : State = record s {
      archetype_registry = (Archetype.remove_entity s.archetype_registry entity_id).1;
    } in
        elim (Registry.delete_entity s.entity_registry entity_id) [
          | ok registry ↦ (ok tt, record removed { entity_registry = registry })
          | err e ↦ (err e, removed)
          | panic ↦ (panic, removed)
        ])

module _ (components : Components) where
  -- `Database::get`
  unfoldable pub get : State → (table_id : ℕ) → ℕ → Result (components.Component table_id)
  unfolding handle_get
  get s table_id entity_id = do
    handle ← ok_or (HashMap.get s.tables table_id) (component_not_found entity_id type_name)
    bytes ← handle_get components table_id handle.table entity_id
    decode (components.codec table_id) bytes

  -- `if let Some(table) = self.tables.get(table_id) { let old_data = table.get(*entity_id).ok(); ... }`
  unfoldable pub old_data : State → ℕ → ℕ → Option (Option Bytes)
  unfolding handle_get
  old_data s table_id entity_id = elim (HashMap.get s.tables table_id) [
    | none ↦ none
    | some handle ↦ elim (handle_get components table_id handle.table entity_id) [
      | ok bytes ↦ some (some bytes)
      | err e ↦ some none
      | panic ↦ some none
    ]
  ]

  unfoldable pub delta_op : State → WriteOpWithoutResponse → Delta → Delta
  unfolding old_data
  delta_op s (insert table_id entity_id bytes) d = record_insert d table_id entity_id bytes
  delta_op s (update table_id entity_id bytes) d = elim (old_data s table_id entity_id) [
    | none ↦ d
    | some none ↦ record_insert d table_id entity_id bytes
    | some (some old) ↦ record_update d table_id entity_id 0 old bytes
  ]
  delta_op s (delete table_id entity_id) d = elim (old_data s table_id entity_id) [
    | none ↦ d
    | some none ↦ d
    | some (some old) ↦ record_delete d table_id entity_id old
  ]

  unfoldable pub deltas : State → List WriteOpWithoutResponse → Delta → Delta
  unfolding delta_op
  deltas s [] d = d
  deltas s (op ∷ ops) d = deltas s ops (delta_op s op d)

  -- `for mut table in self.tables.iter_mut() { table.commit_with_generation(new_version) }`
  unfoldable pub commit_tables : ℕ → State → State
  commit_tables generation s = record s {
    tables =
        map_values
          (λ (h : TableHandle). record h {
            table = Table.commit_with_generation h.table generation;
          })
          s.tables;
  }

  -- What `WriteQueue::commit_batch` returns for a round: without a thread the operation is not
  -- sent. `timely` says whether the reply, or the end of the thread, comes before the timeout.
  unfoldable pub receive : Bool → Option WalLogger → Round State → Result (Unit {0})
  receive timely none round = err EcsDbError.channel_closed
  receive false (some wal) round = err EcsDbError.timeout
  receive true (some wal) (next (Reply.failed e) t) = err e
  receive true (some wal) (next reply t) = ok tt
  receive true (some wal) (ended s) = err EcsDbError.channel_closed

  -- The write thread finishes its round also when nobody waits for the reply any more: this is the
  -- database after that.
  unfoldable pub left_by : Database → Round State → Database
  left_by db (next reply t) = record db { state = t.state; writer = some t.wal; pending_ops = [] }
  left_by db (ended s) = record db { state = s; writer = none; pending_ops = [] }

  -- After `commit_batch(new_version, batch)?`: the tables are committed and the delta is broadcast,
  -- or the error is returned.
  unfoldable pub finish_commit :
      ℕ → Delta → Result (Unit {0}) → Database → Result (ℕ × Option Delta) × Database
  unfolding commit_tables
  finish_commit new_version delta (ok u) db = (
    ok (new_version, (if Delta.is_empty delta then none else some delta)),
    record db { state = commit_tables new_version db.state; version = new_version },
  )
  finish_commit new_version delta (err e) db = (err e, db)
  finish_commit new_version delta panic db = (panic, db)

  -- The round of the write thread over a batch, none if the thread has ended.
  unfoldable pub write_round :
      WalEnv → ℕ → List WriteOpWithoutResponse → State → Option WalLogger → Round State
  write_round env new_version ops s none = ended s
  write_round env new_version ops s (some wal) =
      handle env (process_single components) (process_batch components)
        (commit_batch new_version ops) (record { wal = wal; state = s })

  -- `commit`, with the time it reads: the version, and the delta to broadcast.
  unfoldable pub commit : WalEnv → Bool → ℕ → Database → Result (ℕ × Option Delta) × Database
  unfolding finish_commit receive left_by deltas write_round
  commit env timely timestamp db = elim db.pending_ops [
    | [] ↦ (ok (db.version, none), db)
    | op ∷ ops ↦
        let new_version = (db.version + 1) % 2 ^ 64 in
        let round = write_round env new_version (op ∷ ops) db.state db.writer in
        finish_commit new_version (deltas db.state (op ∷ ops) (Delta.new new_version timestamp))
          (receive timely db.writer round) (left_by db round)
  ]
