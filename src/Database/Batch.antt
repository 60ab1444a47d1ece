-- ===== src/Database/Batch.antt =====
-- ecsdb/src/db.rs: `process_batch`, the closure that applies a batch or rolls it back. The keys of a
-- snapshot are each restored once, so the order of the iteration over them does not count.
pub mod Kept
pub mod Steps
pub mod Affected
pub mod Rollback
use rodengine.Common.{
  ℕ, zero, suc, ◌+◌, ◌*◌, ◌%◌, ◌^◌, Bool, true, false, List, [], ◌∷◌, ◌++◌, Option, none, some,
  length, ltb, if◌then◌else◌, slice, not, is_some, contains,
}
use rodengine.Common.HashMap
use rodengine.Common.HashMap.{HashMap, contains_key, map_values}
use rodengine.Error.{
  Result, ok, err, panic, EcsDbError, ok_or, ◌>>=◌, ◌>>◌, is_ok, entity_not_found,
  component_not_found, of_table, type_name, schema_error, foreign_key_too_short,
  referential_integrity_violation, still_has_components, references_missing_entity,
}
use rodengine.Storage.Buffer.{Bytes, WriteState}
use rodengine.Storage.Table
use rodengine.Storage.Table.{ComponentTable, Codec, encode, decode}
use rodengine.Entity.Registry
use rodengine.Entity.Registry.{EntityRegistry}
use rodengine.Entity.Archetype
use rodengine.Entity.Archetype.{ArchetypeRegistry}
use rodengine.Entity.ArchetypeMask
use rodengine.Transaction.Wal.{WalEnv}
use rodengine.Transaction.WriteQueue
use rodengine.Transaction.WriteQueue.{
  WriteOpWithoutResponse, insert, update, delete, commit_batch, Thread, Round, Reply, next, ended,
  handle,
}
use rodengine.Database.{
  Components, State, TableHandle, Field, apply_write_op, process_single, handle_get, handle_insert,
  handle_update, find_table,
}

unfoldable pub table_id_of : WriteOpWithoutResponse → ℕ
table_id_of (insert table_id entity_id bytes) = table_id
table_id_of (update table_id entity_id bytes) = table_id
table_id_of (delete table_id entity_id) = table_id

unfoldable pub affected_table_ids : List WriteOpWithoutResponse → List ℕ → List ℕ
unfolding table_id_of
affected_table_ids [] ids = ids
affected_table_ids (op ∷ ops) ids =
    affected_table_ids ops
      (if contains ids (table_id_of op) then ids else ids ++ table_id_of op ∷ [])

unfoldable pub snapshot_table : Option TableHandle → ℕ → HashMap WriteState → HashMap WriteState
snapshot_table none table_id snapshots = snapshots
snapshot_table (some handle) table_id snapshots =
    HashMap.insert snapshots table_id (Table.snapshot_write_state handle.table)

unfoldable pub snapshot_tables :
    HashMap TableHandle → List ℕ → HashMap WriteState → HashMap WriteState
unfolding snapshot_table
snapshot_tables tables [] snapshots = snapshots
snapshot_tables tables (table_id ∷ ids) snapshots =
    snapshot_tables tables ids (snapshot_table (HashMap.get tables table_id) table_id snapshots)

unfoldable pub restore_table :
    Option TableHandle → ℕ → WriteState → HashMap TableHandle → HashMap TableHandle
restore_table none table_id snapshot tables = tables
restore_table (some handle) table_id snapshot tables =
    HashMap.insert tables table_id
      (record handle { table = Table.restore_write_state handle.table snapshot })

unfoldable pub restore_tables : HashMap WriteState → HashMap TableHandle → HashMap TableHandle
unfolding restore_table
restore_tables [] tables = tables
restore_tables ((table_id, snapshot) ∷ snapshots) tables =
    restore_tables snapshots (restore_table (HashMap.get tables table_id) table_id snapshot tables)

module _ (components : Components) where
  -- `for op in ops.iter() { if let Err(err) = apply_op(op) { ... } }`: the state at the end, or the
  -- first error and the state at that operation.
  unfoldable pub apply_all : List WriteOpWithoutResponse → State → Result (Unit {0}) × State
  apply_all [] s = (ok tt, s)
  apply_all (op ∷ ops) s = elim (apply_write_op components op s) [
    | ok s' ↦ apply_all ops s'
    | err e ↦ (err e, s)
    | panic ↦ (panic, s)
  ]

  -- What `process_batch` does at the end: nothing, or the rollback to what the snapshots hold.
  unfoldable pub roll_back :
      HashMap WriteState → ArchetypeRegistry → Result (Unit {0}) × State → Result (Unit {0}) × State
  unfolding restore_tables
  roll_back snapshots archetypes (ok u, s) = (ok u, s)
  roll_back snapshots archetypes (panic, s) = (panic, s)
  roll_back snapshots archetypes (err e, s) = (
    err e,
    record s { tables = restore_tables snapshots s.tables; archetype_registry = archetypes },
  )

  unfoldable pub process_batch : List WriteOpWithoutResponse → State → Result (Unit {0}) × State
  unfolding apply_all roll_back affected_table_ids snapshot_tables
  process_batch ops s =
      roll_back (snapshot_tables s.tables (affected_table_ids ops []) []) s.archetype_registry
        (apply_all ops s)
