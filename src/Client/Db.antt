-- ===== src/Client/Db.antt =====
-- ecsdb_client/src/client_db.rs: the client's database, which the server's deltas keep up to date.
pub mod Mirror
use rodengine.Common.{ℕ, ◌≡◌, Bool, Option, none, some, List, [], ◌∷◌, ◌⊎◌, inl, inr}
use rodengine.Common.HashMap
use rodengine.Common.HashMap.{HashMap, contains_key, map_values}
use rodengine.Storage.Buffer.{Bytes}
use rodengine.Storage.Delta
use rodengine.Storage.Delta.{Delta, DeltaOp}

-- The set `entities` is a map to nothing. The schema, which stays empty, is left out.
pub record ClientDb : Type 0 where
  pub tables : HashMap (HashMap Bytes)
  pub entities : HashMap (Unit {0})
  pub version : ℕ

abbrev pub new : ClientDb
new = record { tables = []; entities = []; version = 0 }

-- `entry(table_id).or_insert_with(HashMap::new)`
abbrev pub table_or_new : Option (HashMap Bytes) → HashMap Bytes
table_or_new none = []
table_or_new (some table) = table

-- `if let Some(table) = tables.get_mut(&table_id) { ... }`
unfoldable pub update_table :
    HashMap (HashMap Bytes) → ℕ → (HashMap Bytes → HashMap Bytes) → HashMap (HashMap Bytes)
update_table tables table_id f = elim (HashMap.get tables table_id) [
  | none ↦ tables
  | some table ↦ HashMap.insert tables table_id (f table)
]

unfoldable pub apply_op : DeltaOp → ClientDb → ClientDb
apply_op (DeltaOp.insert table_id entity_id bytes) c = record c {
  tables =
      HashMap.insert c.tables table_id
        (HashMap.insert (table_or_new (HashMap.get c.tables table_id)) entity_id bytes);
  entities = HashMap.insert c.entities entity_id tt;
}
apply_op (DeltaOp.update table_id entity_id field_offset old_data new_data) c = record c {
  tables = update_table c.tables table_id (λ table. HashMap.insert table entity_id new_data);
}
apply_op (DeltaOp.delete table_id entity_id old_data) c = record c {
  tables = update_table c.tables table_id (λ table. HashMap.remove table entity_id);
}
apply_op (DeltaOp.create_entity entity_id) c = record c {
  entities = HashMap.insert c.entities entity_id tt;
}
apply_op (DeltaOp.delete_entity entity_id) c = record c {
  tables = map_values (λ table. HashMap.remove table entity_id) c.tables;
  entities = HashMap.remove c.entities entity_id;
}

unfoldable pub apply_ops : List DeltaOp → ClientDb → ClientDb
apply_ops [] c = c
apply_ops (op ∷ ops) c = apply_ops ops (apply_op op c)

unfoldable pub apply_delta : ClientDb → Delta → ClientDb
unfolding apply_ops
apply_delta c delta = record (apply_ops delta.ops c) { version = delta.version }

pub data ClientError : Type 0 where
  component_not_found : ℕ → ClientError
  serialization_error : ClientError

-- The bytes of a component in a table, if there is that table.
abbrev pub row : Option (HashMap Bytes) → ℕ → Option Bytes
row none entity_id = none
row (some table) entity_id = HashMap.get table entity_id

unfoldable pub stored : ClientDb → ℕ → ℕ → Option Bytes
stored c table_id entity_id = row (HashMap.get c.tables table_id) entity_id

-- `get`, with the decoder of the component's type.
unfoldable pub get : {A : Type 0} → (Bytes → Option A) → ClientDb → ℕ → ℕ → ClientError ⊎ A
unfolding stored
get decode c table_id entity_id = elim (stored c table_id entity_id) [
  | none ↦ inl (component_not_found entity_id)
  | some bytes ↦ elim (decode bytes) [ none ↦ inl serialization_error | some a ↦ inr a ]
]

unfoldable pub contains_entity : ClientDb → ℕ → Bool
contains_entity c entity_id = contains_key c.entities entity_id
