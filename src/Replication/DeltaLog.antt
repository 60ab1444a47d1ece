-- ===== src/Replication/DeltaLog.antt =====
-- ecsdb/src/replication/delta_log.rs: the last deltas, for a dashboard.
pub mod Bounded
use rodengine.Common.{
  ℕ, ◌+◌, ◌%◌, ◌^◌, leb, String, Option, none, some, List, [], ◌∷◌, ◌++◌, length, if◌then◌else◌,
}
use rodengine.Error.{Result, ok, panic, ◌>>=◌}
use rodengine.Storage.Delta.{Delta, DeltaOp}

pub record DeltaLogEntry : Type 0 where
  pub seq : ℕ
  pub version : ℕ
  pub timestamp : ℕ
  pub operation_count : ℕ
  pub first_op_type : String
  pub first_table_id : Option ℕ
  pub first_entity_id : Option ℕ

unfoldable pub describe : List DeltaOp → String × (Option ℕ × Option ℕ)
describe [] = ("empty", (none, none))
describe (DeltaOp.create_entity entity_id ∷ ops) = ("create_entity", (none, some entity_id))
describe (DeltaOp.delete_entity entity_id ∷ ops) = ("delete_entity", (none, some entity_id))
describe (DeltaOp.insert table_id entity_id bytes ∷ ops) =
    ("insert", (some table_id, some entity_id))
describe (DeltaOp.update table_id entity_id field_offset old_data new_data ∷ ops) =
    ("update", (some table_id, some entity_id))
describe (DeltaOp.delete table_id entity_id old_data ∷ ops) =
    ("delete", (some table_id, some entity_id))

unfoldable pub from_delta : ℕ → Delta → DeltaLogEntry
unfolding describe
from_delta seq delta =
    let (op_type, (table_id, entity_id)) = describe delta.ops in
    record {
      seq = seq;
      version = delta.version;
      timestamp = delta.timestamp;
      operation_count = length delta.ops;
      first_op_type = op_type;
      first_table_id = table_id;
      first_entity_id = entity_id;
    }

pub record DeltaLog : Type 0 where
  pub entries : List DeltaLogEntry
  pub max_entries : ℕ
  pub next_seq : ℕ

unfoldable pub new : ℕ → DeltaLog
new max_entries = record { entries = []; max_entries = max_entries; next_seq = 0 }

-- `if v.len() >= max { v.remove(0); } v.push(x)`, where `remove(0)` of an empty vector panics.
unfoldable pub push_bounded : {A : Type 0} → ℕ → List A → A → Result (List A)
push_bounded most [] x = if leb most 0 then panic else ok (x ∷ [])
push_bounded most (first ∷ xs) x =
    if leb most (length (first ∷ xs)) then ok (xs ++ x ∷ []) else ok ((first ∷ xs) ++ x ∷ [])

unfoldable pub record_delta : DeltaLog → Delta → Result DeltaLog
unfolding push_bounded from_delta
record_delta log delta =
    push_bounded log.max_entries log.entries (from_delta log.next_seq delta) >>= λ entries.
    ok (record log { entries = entries; next_seq = (log.next_seq + 1) % 2 ^ 64 })

unfoldable pub clear : DeltaLog → DeltaLog
clear log = record log { entries = [] }
