-- ===== src/Database/Snapshot/RoundTrip.antt =====
-- A snapshot that is loaded again.
use rodengine.Common.{ℕ, String, ◌≡◌, refl, ap, List, [], ◌∷◌, some, ◌==◌, Bool-cases, inl, inr}
use rodengine.Common.HashMap
use rodengine.Common.HashMap.{HashMap}
use rodengine.Error.{Result, ok, err, EcsDbError, IfOk, IfOk-bind, IfOk-then}
use rodengine.Transaction.Wal
use rodengine.Database.{TableHandle}
use rodengine.Database.Commit.{Database}
use rodengine.Database.Snapshot.{
  TableSnapshot, create_snapshot, from_snapshot, snapshots_of, snapshot_of, load_tables,
}

-- What loading a snapshot of these tables leads to.
unfoldable pub Loads : HashMap TableHandle → Database → Result Database → Type 0
Loads [] db loaded =
    loaded
    ≡ ok (record db {
      writer = some Wal.new;
      pending_ops = [];
      state = record (db.state) { tables = [] };
    })
Loads ((table_id, handle) ∷ tables) db loaded =
    loaded ≡ err (EcsDbError.snapshot_table_not_found handle.table_name)

snapshot_of-IfOk :
    (id : ℕ) (handle : TableHandle)
    → IfOk (λ r. r.table_name ≡ handle.table_name) (snapshot_of id handle)
unfolding snapshot_of
snapshot_of-IfOk id handle = elim (Bool-cases (handle.table.buffer.record_size == 0)) [
  | inl e ↦ rw e tt
  | inr e ↦ rw e refl
]

FirstIs : String → List TableSnapshot → Type 0
FirstIs name [] = ⊥
FirstIs name (t ∷ snapshots) = t.table_name ≡ name

snapshots_of-FirstIs :
    (id : ℕ) (handle : TableHandle) (tables : HashMap TableHandle)
    → IfOk (FirstIs handle.table_name) (snapshots_of ((id, handle) ∷ tables))
unfolding snapshots_of FirstIs
snapshots_of-FirstIs id handle tables =
    IfOk-bind (λ r. r.table_name ≡ handle.table_name) (FirstIs handle.table_name)
      (snapshot_of id handle) _ (snapshot_of-IfOk id handle)
      (λ t p. IfOk-then (FirstIs handle.table_name) (snapshots_of tables) _ (λ rest e. p))

first_missing :
    (db : Database) (name : String) (snapshots : List TableSnapshot)
    → FirstIs name snapshots
    → from_snapshot (record {
      entity_registry = db.state.entity_registry;
      archetype_registry = db.state.archetype_registry;
      tables = snapshots;
      version = db.version;
    })
      ≡ err (EcsDbError.snapshot_table_not_found name)
unfolding from_snapshot load_tables HashMap.get FirstIs
first_missing db name [] h = absurd h
first_missing db name (t ∷ snapshots) h =
    ap (λ (n : String). err (EcsDbError.snapshot_table_not_found n)) h

from_snapshot_empty :
    (db : Database)
    → IfOk
        (λ (snapshots : List TableSnapshot).
          from_snapshot (record {
            entity_registry = db.state.entity_registry;
            archetype_registry = db.state.archetype_registry;
            tables = snapshots;
            version = db.version;
          })
          ≡ ok (record db {
            writer = some Wal.new;
            pending_ops = [];
            state = record (db.state) { tables = [] };
          }))
        (snapshots_of [])
unfolding snapshots_of from_snapshot load_tables
from_snapshot_empty db = refl

create_snapshot-Loads_at :
    (db : Database) (tables : HashMap TableHandle)
    → db.state.tables ≡ tables
    → IfOk (λ snapshot. Loads tables db (from_snapshot snapshot)) (create_snapshot db)
unfolding create_snapshot Loads
create_snapshot-Loads_at db [] h = rw h (from_snapshot_empty db)
create_snapshot-Loads_at db ((id, handle) ∷ tables) h = rw h (
    IfOk-bind (FirstIs handle.table_name) _ (snapshots_of ((id, handle) ∷ tables)) _
      (snapshots_of-FirstIs id handle tables)
      (λ snapshots first. first_missing db handle.table_name snapshots first))

-- A snapshot of a database without tables, if it is taken without a panic, loads as that database,
-- with nothing pending and a new log. A snapshot of a database with tables does not load: the first
-- of its tables is not found.
pub create_snapshot-Loads :
    (db : Database)
    → IfOk (λ snapshot. Loads db.state.tables db (from_snapshot snapshot)) (create_snapshot db)
create_snapshot-Loads db = create_snapshot-Loads_at db db.state.tables refl
