-- ===== src/Database/Queries.antt =====
-- ecsdb/src/db.rs: the operations of a `Database` that wait for a commit, and those that only read.
-- Whether a table is fragmented, a floating-point ratio, is an argument. A lookup of a table by its
-- name is left out.
pub mod Pages
use rodengine.Common.{
  ℕ, ◌+◌, ◌-◌, ◌%◌, ◌^◌, ltb, min, Bool, true, false, List, [], ◌∷◌, ◌++◌, Option, none, some,
  length, slice, if◌then◌else◌,
}
use rodengine.Common.HashMap
use rodengine.Common.HashMap.{HashMap}
use rodengine.Error.{Result, ok, err, panic, ok_or, ◌>>=◌, schema_error, SchemaReason}
use rodengine.Storage.Buffer.{Bytes}
use rodengine.Storage.Table
use rodengine.Storage.Table.{ComponentTable, encode}
use rodengine.Transaction.WriteQueue.{WriteOpWithoutResponse}
use rodengine.Database.{Components, State, TableHandle, handle_get}
use rodengine.Database.Commit.{Database}

unfoldable pub enqueue : WriteOpWithoutResponse → Database → Database
enqueue op db = record db { pending_ops = db.pending_ops ++ op ∷ [] }

unfoldable pub delete : ℕ → ℕ → Database → Database
unfolding enqueue
delete table_id entity_id = enqueue (WriteOpWithoutResponse.delete table_id entity_id)

unfoldable pub set_version : ℕ → Database → Database
set_version new_version db = record db { version = new_version }

unfoldable pub table_count : State → ℕ
table_count s = length s.tables

unfoldable pub get_entity_count_for_table : State → ℕ → ℕ
get_entity_count_for_table s table_id = elim (HashMap.get s.tables table_id) [
  | none ↦ 0
  | some handle ↦ length handle.table.entity_index
]

-- The table after the loop's round, and whether it was compacted.
unfoldable pub compact_table : (ComponentTable → Bool) → TableHandle → Result (ℕ × TableHandle)
compact_table is_fragmented handle =
    if is_fragmented handle.table
    then (Table.compact handle.table >>= λ table. ok (1, record handle { table = table }))
    else ok (0, handle)

unfoldable pub compact_if_fragmented :
    (ComponentTable → Bool) → HashMap TableHandle → Result (ℕ × HashMap TableHandle)
unfolding compact_table
compact_if_fragmented is_fragmented [] = ok (0, [])
compact_if_fragmented is_fragmented ((table_id, handle) ∷ tables) =
    compact_table is_fragmented handle >>= λ (n, compacted).
    compact_if_fragmented is_fragmented tables >>= λ (count, rest).
    ok (n + count, (table_id, compacted) ∷ rest)

module _ (components : Components) where
  unfoldable pub insert :
      (table_id : ℕ) → ℕ → components.Component table_id → Database → Result Database
  unfolding enqueue
  insert table_id entity_id component db = encode (components.codec table_id) component >>= λ bytes.
      ok (enqueue (WriteOpWithoutResponse.insert table_id entity_id bytes) db)

  unfoldable pub update :
      (table_id : ℕ) → ℕ → components.Component table_id → Database → Result Database
  unfolding enqueue
  update table_id entity_id component db = encode (components.codec table_id) component >>= λ bytes.
      ok (enqueue (WriteOpWithoutResponse.update table_id entity_id bytes) db)

  -- The loop over a part of the mapping.
  unfoldable pub get_each : ℕ → ComponentTable → HashMap ℕ → Result (List (ℕ × Bytes))
  unfolding handle_get
  get_each table_id table [] = ok []
  get_each table_id table ((entity_id, offset) ∷ mapping) =
      handle_get components table_id table entity_id >>= λ bytes.
      get_each table_id table mapping >>= λ rest. ok ((entity_id, bytes) ∷ rest)

  -- The sum wraps at 2 ^ 64. The slice panics where it starts behind its end, and before it the
  -- capacity `end - start`, which wraps, is too large.
  unfoldable pub get_entities_for_table : State → ℕ → ℕ → ℕ → Result (List (ℕ × Bytes))
  unfolding get_each
  get_entities_for_table s table_id limit offset =
      ok_or (HashMap.get s.tables table_id) (schema_error (SchemaReason.table_not_found table_id))
      >>= λ (handle : TableHandle).
          let mapping = handle.table.entity_index in
          let start = min offset (length mapping) in
          let finish = min ((offset + limit) % 2 ^ 64) (length mapping) in
          if ltb finish start
          then panic
          else get_each table_id handle.table (slice start (finish - start) mapping)
