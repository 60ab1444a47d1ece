-- ===== src/Database.antt =====
-- ecsdb/src/db.rs: `Database`. The component types are a parameter: each table ID has its Rust type
-- and that type's `bincode` codec. A panic of an operation ends the write thread; what it leaves in
-- the write buffers is not modelled.
pub mod Batch
pub mod Commit
pub mod Snapshot
pub mod Queries
use rodengine.Common.{
  String, ℕ, zero, suc, ◌+◌, ◌*◌, ◌%◌, ◌^◌, Bool, true, false, List, [], ◌∷◌, ◌++◌, Option, none,
  some, length, ltb, if◌then◌else◌, slice, not, is_some, contains,
}
use rodengine.Common.HashMap
use rodengine.Common.HashMap.{HashMap, contains_key, map_values}
use rodengine.Error.{
  Result, ok, err, panic, EcsDbError, ok_or, ◌>>=◌, ◌>>◌, is_ok, entity_not_found,
  component_not_found, of_table, type_name, schema_error, foreign_key_too_short,
  referential_integrity_violation, still_has_components, references_missing_entity,
}
use rodengine.Storage.Buffer.{Bytes, WriteState}
use rodengine.Storage.Table
use rodengine.Storage.Table.{ComponentTable, Codec, encode, decode}
use rodengine.Entity.Registry
use rodengine.Entity.Registry.{EntityRegistry}
use rodengine.Entity.Archetype
use rodengine.Entity.Archetype.{ArchetypeRegistry}
use rodengine.Entity.ArchetypeMask
use rodengine.Transaction.Wal.{WalEnv}
use rodengine.Transaction.WriteQueue
use rodengine.Transaction.WriteQueue.{
  WriteOpWithoutResponse, insert, update, delete, commit_batch, Thread, Round, Reply, next, ended,
  handle,
}

-- The Rust type of each table ID, with its codec.
pub record Components : Type 1 where
  pub Component : ℕ → Type 0
  pub codec : (table_id : ℕ) → Codec (Component table_id)

-- A field definition beside its layout: has it a foreign key, and its offset in the record.
pub record Field : Type 0 where
  pub has_foreign_key : Bool
  pub offset : ℕ

-- `TableHandleImpl`
pub record TableHandle : Type 0 where
  pub table : ComponentTable
  pub table_name : String
  pub fields : List Field

-- What the write thread and `Database` share.
pub record State : Type 0 where
  pub entity_registry : EntityRegistry
  pub archetype_registry : ArchetypeRegistry
  pub tables : HashMap TableHandle

unfoldable pub from_le_bytes : Bytes → ℕ
from_le_bytes [] = 0
from_le_bytes (b ∷ bytes) = b + 256 * from_le_bytes bytes

-- One field of `validate_foreign_keys`.
unfoldable pub validate_field : EntityRegistry → Field → Bytes → Result (Unit {0})
unfolding from_le_bytes
validate_field registry field bytes =
    if not field.has_foreign_key
    then ok tt
    else if ltb (length bytes) (field.offset + 8)
    then err (schema_error foreign_key_too_short)
    else (let id = from_le_bytes (slice field.offset 8 bytes) in
        if Registry.contains_entity registry id
        then ok tt
        else err (referential_integrity_violation (references_missing_entity id)))

unfoldable pub validate_foreign_keys : EntityRegistry → List Field → Bytes → Result (Unit {0})
validate_foreign_keys registry [] bytes = ok tt
validate_foreign_keys registry (field ∷ fields) bytes =
    validate_field registry field bytes >> validate_foreign_keys registry fields bytes

-- `if !entity_registry.contains_entity(id) { return Err(EntityNotFound(id)) }`
unfoldable pub require_entity : EntityRegistry → ℕ → Result (Unit {0})
require_entity registry entity_id =
    if Registry.contains_entity registry entity_id then ok tt else err (entity_not_found entity_id)

unfoldable pub find_table : State → ℕ → ℕ → Result TableHandle
find_table s table_id entity_id =
    ok_or (HashMap.get s.tables table_id) (component_not_found entity_id (of_table table_id))

-- `tables.get_mut(&table_id)`, changed to a new table.
unfoldable pub put_table : State → ℕ → TableHandle → ComponentTable → State
put_table s table_id handle table = record s {
  tables = HashMap.insert s.tables table_id (record handle { table = table });
}

module _ (components : Components) where
  -- `TableHandleImpl::insert`, `update` and `get`: the bytes are decoded, and encoded again.
  unfoldable pub handle_insert : ℕ → ComponentTable → ℕ → Bytes → Result ComponentTable
  handle_insert table_id t entity_id bytes = do
    component ← decode (components.codec table_id) bytes
    (offset, inserted) ← Table.insert (components.codec table_id) t entity_id component
    ok inserted

  unfoldable pub handle_update : ℕ → ComponentTable → ℕ → Bytes → Result ComponentTable
  handle_update table_id t entity_id bytes = do
    component ← decode (components.codec table_id) bytes
    Table.update (components.codec table_id) t entity_id component

  unfoldable pub handle_get : ℕ → ComponentTable → ℕ → Result Bytes
  handle_get table_id t entity_id = do
    component ← Table.get (components.codec table_id) t entity_id
    encode (components.codec table_id) component

  -- One operation: `process_single`, the `apply_op` of `process_batch`, and `apply_write_op`.
  unfoldable pub apply_write_op : WriteOpWithoutResponse → State → Result State
  unfolding require_entity find_table put_table handle_insert handle_update
  apply_write_op (insert table_id entity_id bytes) s = do
    present ← require_entity s.entity_registry entity_id
    handle ← find_table s table_id entity_id
    valid ← validate_foreign_keys s.entity_registry handle.fields bytes
    table ← handle_insert table_id handle.table entity_id bytes
    ok (record (put_table s table_id handle table) {
      archetype_registry = (Archetype.add_component s.archetype_registry entity_id table_id).1;
    })
  apply_write_op (update table_id entity_id bytes) s = do
    present ← require_entity s.entity_registry entity_id
    handle ← find_table s table_id entity_id
    valid ← validate_foreign_keys s.entity_registry handle.fields bytes
    table ← handle_update table_id handle.table entity_id bytes
    ok (put_table s table_id handle table)
  apply_write_op (delete table_id entity_id) s = do
    handle ← find_table s table_id entity_id
    table ← Table.delete handle.table entity_id
    ok (record (put_table s table_id handle table) {
      archetype_registry = (Archetype.remove_component s.archetype_registry entity_id table_id).1;
    })

  -- The closure `process_single`: an operation that fails changes nothing.
  unfoldable pub process_single : WriteOpWithoutResponse → State → Result (Unit {0}) × State
  unfolding apply_write_op
  process_single op s = elim (apply_write_op op s) [
    | ok s' ↦ (ok tt, s')
    | err e ↦ (err e, s)
    | panic ↦ (panic, s)
  ]
