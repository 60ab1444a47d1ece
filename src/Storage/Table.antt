-- ===== src/Storage/Table.antt =====
-- ecsdb/src/storage/table.rs and field_codec.rs: `ComponentTable<T>`, a buffer of records with an
-- index from entity IDs to byte offsets. `bincode` is a parameter, the record `Codec`.
pub mod Wf
pub mod Contents
pub mod Moves
use rodengine.Common.{
  ℕ, ◌%◌, ◌≤◌, ◌≡◌, Bool, List, [], ◌∷◌, Option, none, some, length, ◌==◌, if◌then◌else◌, not,
}
use rodengine.Common.HashMap
use rodengine.Common.HashMap.{HashMap, contains_key, map_values}
use rodengine.Error.{
  Result, ok, err, schema_error, serialized_size_mismatch, buffer_not_multiple, component_not_found,
  type_name, serialization_error, ok_or, ◌>>=◌,
}
use rodengine.Storage.Buffer
use rodengine.Storage.Buffer.{ArcStorageBuffer, Bytes, WriteState}

-- `bincode::serialize` and `bincode::deserialize` at one component type.
pub record Codec (T : Type 0) : Type 0 where
  pub serialize : T → Option Bytes
  pub deserialize : Bytes → Option T

unfoldable pub encode : {T : Type 0} → Codec T → T → Result Bytes
encode codec value = ok_or (codec.serialize value) serialization_error

unfoldable pub decode : {T : Type 0} → Codec T → Bytes → Result T
decode codec bytes = ok_or (codec.deserialize bytes) serialization_error

pub record ComponentTable : Type 0 where
  pub buffer : ArcStorageBuffer
  pub entity_index : HashMap ℕ

unfoldable pub new : ℕ → ℕ → ComponentTable
unfolding Buffer.new
new record_size initial_capacity = record {
  buffer = Buffer.new record_size initial_capacity;
  entity_index = [];
}

-- The offset of a component, or the error of `get`, `update` and `delete`.
unfoldable pub offset_of : ComponentTable → ℕ → Result ℕ
offset_of t entity_id =
    ok_or (HashMap.get t.entity_index entity_id) (component_not_found entity_id type_name)

unfoldable pub check_size : ComponentTable → Bytes → Result Bytes
check_size t bytes =
    if length bytes == t.buffer.record_size
    then ok bytes
    else err (schema_error (serialized_size_mismatch (length bytes) t.buffer.record_size))

module _ {T : Type 0} (codec : Codec T) where
  unfoldable pub insert : ComponentTable → ℕ → T → Result (ℕ × ComponentTable)
  unfolding check_size
  insert t entity_id component = do
    encoded ← encode codec component
    bytes ← check_size t encoded
    (offset, buffer) ← Buffer.insert t.buffer bytes
    ok (
      offset,
      record { buffer = buffer; entity_index = HashMap.insert t.entity_index entity_id offset },
    )

  unfoldable pub update : ComponentTable → ℕ → T → Result ComponentTable
  unfolding check_size offset_of
  update t entity_id component = do
    offset ← offset_of t entity_id
    encoded ← encode codec component
    bytes ← check_size t encoded
    buffer ← Buffer.update t.buffer offset bytes
    ok (record t { buffer = buffer })

  unfoldable pub get : ComponentTable → ℕ → Result T
  unfolding offset_of
  get t entity_id = do
    offset ← offset_of t entity_id
    bytes ← Buffer.read t.buffer offset t.buffer.record_size
    decode codec bytes

unfoldable pub delete : ComponentTable → ℕ → Result ComponentTable
unfolding offset_of
delete t entity_id = do
  offset ← offset_of t entity_id
  ok (record {
    buffer = Buffer.free_slot t.buffer offset;
    entity_index = HashMap.remove t.entity_index entity_id;
  })

unfoldable pub commit : ComponentTable → ComponentTable
commit t = record t { buffer = Buffer.commit t.buffer }

unfoldable pub commit_with_generation : ComponentTable → ℕ → ComponentTable
commit_with_generation t generation = record t {
  buffer = Buffer.commit_with_generation t.buffer generation;
}

unfoldable pub contains_entity : ComponentTable → ℕ → Bool
contains_entity t entity_id = contains_key t.entity_index entity_id

-- `if let Some(new_offset) = mapping.get(offset) { *offset = *new_offset }`
unfoldable pub relocate : HashMap ℕ → ℕ → ℕ
relocate moves offset = elim (HashMap.get moves offset) [
  | none ↦ offset
  | some new_offset ↦ new_offset
]

unfoldable pub compact : ComponentTable → Result ComponentTable
unfolding relocate
compact t = do
  (moves, buffer) ← Buffer.compact t.buffer
  ok (record { buffer = buffer; entity_index = map_values (relocate moves) t.entity_index })

unfoldable pub snapshot_write_state : ComponentTable → WriteState
unfolding Buffer.snapshot_state
snapshot_write_state t = Buffer.snapshot_state t.buffer

unfoldable pub restore_write_state : ComponentTable → WriteState → ComponentTable
unfolding Buffer.restore_state
restore_write_state t s = record t { buffer = Buffer.restore_state t.buffer s }

-- `for (entity_id, offset) in entity_mapping { self.entity_index.insert(entity_id, offset) }`
unfoldable pub index_of : List (ℕ × ℕ) → HashMap ℕ → HashMap ℕ
index_of [] index = index
index_of ((entity_id, offset) ∷ rest) index = index_of rest (HashMap.insert index entity_id offset)

unfoldable pub load_snapshot :
    ComponentTable → Bytes → List (ℕ × ℕ) → List ℕ → Result ComponentTable
unfolding index_of
load_snapshot t buffer_data entity_mapping free_slots =
    if not (length buffer_data % t.buffer.record_size == 0)
    then err (schema_error (buffer_not_multiple (length buffer_data) t.buffer.record_size))
    else (do
      buffer ← Buffer.load_snapshot t.buffer buffer_data free_slots
      ok (record { buffer = buffer; entity_index = index_of entity_mapping [] }))
