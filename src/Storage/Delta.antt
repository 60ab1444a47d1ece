-- ===== src/Storage/Delta.antt =====
-- ecsdb/src/storage/delta.rs: the changes of one transaction. (The before-images of `DeltaTracker`
-- are used by no caller.)
use rodengine.Common.{ℕ, Bool, true, false, List, [], ◌∷◌, ◌++◌}
use rodengine.Storage.Buffer.{Bytes}

pub data DeltaOp : Type 0 where
  insert : ℕ → ℕ → Bytes → DeltaOp
  update : ℕ → ℕ → ℕ → Bytes → Bytes → DeltaOp
  delete : ℕ → ℕ → Bytes → DeltaOp
  create_entity : ℕ → DeltaOp
  delete_entity : ℕ → DeltaOp

pub record Delta : Type 0 where
  pub ops : List DeltaOp
  pub version : ℕ
  pub timestamp : ℕ

unfoldable pub new : ℕ → ℕ → Delta
new version timestamp = record { ops = []; version = version; timestamp = timestamp }

unfoldable pub push : Delta → DeltaOp → Delta
push d op = record d { ops = d.ops ++ op ∷ [] }

unfoldable pub is_empty : Delta → Bool
is_empty d = elim d.ops [ [] ↦ true | op ∷ ops ↦ false ]

-- `DeltaTracker::record_insert`, `record_update` and `record_delete`.
unfoldable pub record_insert : Delta → ℕ → ℕ → Bytes → Delta
unfolding push
record_insert d table_id entity_id bytes = push d (insert table_id entity_id bytes)

unfoldable pub record_update : Delta → ℕ → ℕ → ℕ → Bytes → Bytes → Delta
unfolding push
record_update d table_id entity_id field_offset old_data new_data =
    push d (update table_id entity_id field_offset old_data new_data)

unfoldable pub record_delete : Delta → ℕ → ℕ → Bytes → Delta
unfolding push
record_delete d table_id entity_id old_data = push d (delete table_id entity_id old_data)

unfoldable pub record_create_entity : Delta → ℕ → Delta
unfolding push
record_create_entity d entity_id = push d (create_entity entity_id)

unfoldable pub record_delete_entity : Delta → ℕ → Delta
unfolding push
record_delete_entity d entity_id = push d (delete_entity entity_id)
