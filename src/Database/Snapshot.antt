-- ===== src/Database/Snapshot.antt =====
-- ecsdb/src/db.rs and persistence/snapshot.rs: `create_snapshot` and `from_snapshot`. The file
-- format (`bincode`, `zstd`, `crc32fast`) is not modelled.
pub mod RoundTrip
use rodengine.Common.{
  ℕ, String, ◌/◌, zero, suc, ◌+◌, ◌*◌, List, [], ◌∷◌, some, length, ◌==◌, if◌then◌else◌, contains,
}
use rodengine.Common.HashMap
use rodengine.Common.HashMap.{HashMap, contains_key, map_values}
use rodengine.Error.{Result, ok, panic, EcsDbError, ok_or, ◌>>=◌}
use rodengine.Storage.Buffer.{Bytes}
use rodengine.Storage.Table
use rodengine.Storage.Table.{ComponentTable, Codec, encode, decode}
use rodengine.Entity.Registry.{EntityRegistry}
use rodengine.Entity.Archetype.{ArchetypeRegistry}
use rodengine.Transaction.Wal
use rodengine.Transaction.Wal.{WalEnv}
use rodengine.Transaction.WriteQueue.{handle}
use rodengine.Database.{TableHandle}
use rodengine.Database.Commit.{Database}

pub record TableSnapshot : Type 0 where
  pub table_id : ℕ
  pub table_name : String
  pub record_size : ℕ
  pub buffer_data : Bytes
  pub entity_mapping : List (ℕ × ℕ)
  pub free_slots : List ℕ
  pub active_count : ℕ

pub record DatabaseSnapshot : Type 0 where
  pub entity_registry : EntityRegistry
  pub archetype_registry : ArchetypeRegistry
  pub tables : List TableSnapshot
  pub version : ℕ

-- `entity_mapping.iter().map(|&(_, offset)| offset)`
unfoldable pub offsets : List (ℕ × ℕ) → List ℕ
offsets [] = []
offsets ((entity_id, offset) ∷ mapping) = offset ∷ offsets mapping

-- The slots from `index` on that are not occupied, in order.
unfoldable pub free_from : List ℕ → ℕ → ℕ → ℕ → List ℕ
free_from occupied record_size zero index = []
free_from occupied record_size (suc count) index =
    let rest = free_from occupied record_size count (index + 1) in
    if contains occupied (index * record_size) then rest else index * record_size ∷ rest

-- One table of `create_snapshot`; `buffer_data.len() / record_size` is a panic for size 0.
unfoldable pub snapshot_of : ℕ → TableHandle → Result TableSnapshot
unfolding offsets free_from
snapshot_of table_id handle =
    let t = handle.table in
    if t.buffer.record_size == 0
    then panic
    else ok (record {
      table_id = table_id;
      table_name = handle.table_name;
      record_size = t.buffer.record_size;
      buffer_data = t.buffer.read_buffer;
      entity_mapping = t.entity_index;
      free_slots =
          free_from (offsets t.entity_index) t.buffer.record_size
            (length t.buffer.read_buffer / t.buffer.record_size) 0;
      active_count = length t.entity_index;
    })

unfoldable pub snapshots_of : HashMap TableHandle → Result (List TableSnapshot)
unfolding snapshot_of
snapshots_of [] = ok []
snapshots_of ((table_id, handle) ∷ tables) = do
  snapshot ← snapshot_of table_id handle
  rest ← snapshots_of tables
  ok (snapshot ∷ rest)

unfoldable pub create_snapshot : Database → Result DatabaseSnapshot
unfolding snapshots_of
create_snapshot db = do
  tables ← snapshots_of db.state.tables
  ok (record {
    entity_registry = db.state.entity_registry;
    archetype_registry = db.state.archetype_registry;
    tables = tables;
    version = db.version;
  })

-- The loop of `from_snapshot` over the tables.
unfoldable pub load_tables : List TableSnapshot → HashMap TableHandle → Result (HashMap TableHandle)
load_tables [] tables = ok tables
load_tables (t ∷ snapshots) tables = do
  handle ← ok_or (HashMap.get tables t.table_id) (EcsDbError.snapshot_table_not_found t.table_name)
  table ← Table.load_snapshot handle.table t.buffer_data t.entity_mapping t.free_slots
  load_tables snapshots (HashMap.insert tables t.table_id (record handle { table = table }))

-- `from_snapshot`: `from_schema` gives a database without a table.
unfoldable pub from_snapshot : DatabaseSnapshot → Result Database
unfolding load_tables
from_snapshot snapshot = do
  tables ← load_tables snapshot.tables []
  ok (record {
    state = record {
      entity_registry = snapshot.entity_registry;
      archetype_registry = snapshot.archetype_registry;
      tables = tables;
    };
    writer = some Wal.new;
    pending_ops = [];
    version = snapshot.version;
  })
