-- ===== src/Persistence/SnapshotOps.antt =====
-- ecsdb/src/persistence/snapshot.rs: operations of a log that are applied to a snapshot.
pub mod Records
use rodengine.Common.{
  ℕ, zero, suc, ◌+◌, ◌-◌, ◌%◌, ◌^◌, ◌==◌, ltb, Bool, true, false, Option, none, some, List, [], ◌∷◌,
  ◌++◌, length, get_elem?, splice, resize, if◌then◌else◌,
}
use rodengine.Error.{Result, ok, err, panic, EcsDbError}
use rodengine.Storage.Buffer.{Bytes}
use rodengine.Transaction.Wal.{WalOp}
use rodengine.Database.Snapshot.{TableSnapshot, DatabaseSnapshot}

-- `free_slots.pop()`: the last slot, and the others.
abbrev pub behind : ℕ → Option (ℕ × List ℕ) → Option (ℕ × List ℕ)
behind slot none = none
behind slot (some r) = some (r.0, slot ∷ r.1)

unfoldable pub pop_slot : List ℕ → Option (ℕ × List ℕ)
pop_slot [] = none
pop_slot (slot ∷ []) = some (slot, [])
pop_slot (slot ∷ next ∷ slots) = behind slot (pop_slot (next ∷ slots))

-- A free slot, or one at the end of the buffer.
unfoldable pub take_slot : Option (ℕ × List ℕ) → TableSnapshot → ℕ × TableSnapshot
take_slot (some (slot, slots)) t = (slot, record t { free_slots = slots })
take_slot none t = (
  length t.buffer_data,
  record t { buffer_data = resize t.buffer_data (length t.buffer_data + t.record_size) 0 },
)

-- The check of the size and the copy, which panics where the range is out of the buffer.
unfoldable pub copy_record : ℕ → Bytes → TableSnapshot → Result TableSnapshot
copy_record offset bytes t =
    if length bytes == t.record_size
    then (if ltb (length t.buffer_data) (offset + t.record_size)
        then panic
        else ok (record t { buffer_data = splice offset bytes t.buffer_data }))
    else err (EcsDbError.snapshot_size_mismatch t.record_size (length bytes))

-- The table keeps the slot that it took where the size is refused.
unfoldable pub add_mapping :
    ℕ → ℕ → TableSnapshot → Result TableSnapshot → Result (Unit {0}) × TableSnapshot
add_mapping entity_id offset before (ok t) = (
  ok tt,
  record t {
    entity_mapping = t.entity_mapping ++ (entity_id, offset) ∷ [];
    active_count = (t.active_count + 1) % 2 ^ 64;
  },
)
add_mapping entity_id offset before (err e) = (err e, before)
add_mapping entity_id offset before panic = (panic, before)

unfoldable pub insert_record : ℕ → Bytes → TableSnapshot → Result (Unit {0}) × TableSnapshot
unfolding pop_slot take_slot copy_record add_mapping
insert_record entity_id bytes t =
    let (offset, taken) = take_slot (pop_slot t.free_slots) t in
    add_mapping entity_id offset taken (copy_record offset bytes taken)

unfoldable pub find_offset : List (ℕ × ℕ) → ℕ → Option ℕ
find_offset [] entity_id = none
find_offset ((id, offset) ∷ mapping) entity_id =
    if id == entity_id then some offset else find_offset mapping entity_id

unfoldable pub updated : TableSnapshot → Result TableSnapshot → Result (Unit {0}) × TableSnapshot
updated before (ok t) = (ok tt, t)
updated before (err e) = (err e, before)
updated before panic = (panic, before)

unfoldable pub update_record : ℕ → Bytes → TableSnapshot → Result (Unit {0}) × TableSnapshot
unfolding find_offset copy_record updated
update_record entity_id bytes t = elim (find_offset t.entity_mapping entity_id) [
  | none ↦ (err (EcsDbError.snapshot_entity_not_found entity_id t.table_id), t)
  | some offset ↦ updated t (copy_record offset bytes t)
]

-- `entity_mapping.remove(pos)` at the entity's position.
unfoldable pub drop_mapping : List (ℕ × ℕ) → ℕ → List (ℕ × ℕ)
drop_mapping [] entity_id = []
drop_mapping ((id, offset) ∷ mapping) entity_id =
    let rest = drop_mapping mapping entity_id in
    if id == entity_id then mapping else (id, offset) ∷ rest

-- `active_count -= 1` wraps.
unfoldable pub delete_record : ℕ → TableSnapshot → Result (Unit {0}) × TableSnapshot
unfolding find_offset drop_mapping
delete_record entity_id t = elim (find_offset t.entity_mapping entity_id) [
  | none ↦ (err (EcsDbError.snapshot_entity_not_found entity_id t.table_id), t)
  | some offset ↦
      let freed : TableSnapshot = record t {
        entity_mapping = drop_mapping t.entity_mapping entity_id;
        free_slots = t.free_slots ++ offset ∷ [];
      } in
      (ok tt, record freed { active_count = (freed.active_count + (2 ^ 64 - 1)) % 2 ^ 64 })
]

-- `table_mut`: the operation on the first table with the ID.
unfoldable pub on_table :
    ℕ
    → (TableSnapshot → Result (Unit {0}) × TableSnapshot)
    → List TableSnapshot
    → Result (Unit {0}) × List TableSnapshot
on_table table_id f [] = (err (EcsDbError.snapshot_error table_id), [])
on_table table_id f (t ∷ tables) =
    let rest = on_table table_id f tables in
    if t.table_id == table_id then (let r = f t in (r.0, r.1 ∷ tables)) else (rest.0, t ∷ rest.1)

unfoldable pub with_tables :
    DatabaseSnapshot → Result (Unit {0}) × List TableSnapshot → Result (Unit {0}) × DatabaseSnapshot
with_tables s (result, tables) = (result, record s { tables = tables })

unfoldable pub apply_wal_op : WalOp → DatabaseSnapshot → Result (Unit {0}) × DatabaseSnapshot
unfolding insert_record update_record delete_record on_table with_tables
apply_wal_op (WalOp.insert table_id entity_id bytes) s =
    with_tables s (on_table table_id (insert_record entity_id bytes) s.tables)
apply_wal_op (WalOp.update table_id entity_id bytes) s =
    with_tables s (on_table table_id (update_record entity_id bytes) s.tables)
apply_wal_op (WalOp.delete table_id entity_id) s =
    with_tables s (on_table table_id (delete_record entity_id) s.tables)
apply_wal_op (WalOp.commit id) s = (ok tt, s)
apply_wal_op (WalOp.rollback id) s = (ok tt, s)
