-- ===== src/Replication/Conflict.antt =====
-- ecsdb/src/replication/conflict.rs: a client's delta against the records that the server has.
pub mod Current
use rodengine.Common.{
  ℕ, ◌+◌, ◌%◌, ◌^◌, max, String, Bool, true, false, Option, none, some, List, [], ◌∷◌, ◌++◌,
  if◌then◌else◌,
}
use rodengine.Error.{Result, ok, err, panic, ◌>>=◌, replication_error}
use rodengine.Storage.Buffer.{Bytes}
use rodengine.Storage.Delta.{Delta, DeltaOp}
use rodengine.Replication.Frame.{equal_bytes}
use rodengine.Replication.DeltaLog.{push_bounded}

pub data ConflictStrategy : Type 0 where
  server_authoritative last_write_wins custom_merge : ConflictStrategy

pub record Conflict : Type 0 where
  pub table_id : ℕ
  pub entity_id : ℕ
  pub field_offset : Option ℕ
  pub server_value : Bytes
  pub client_value : Bytes
  pub server_version : ℕ
  pub client_version : ℕ
  pub timestamp : ℕ

pub record ConflictResolver : Type 0 where
  pub strategy : ConflictStrategy
  pub conflicts : List Conflict
  pub max_entries : ℕ
  pub custom_merge : Option (Conflict → Result Bytes)

unfoldable pub new : ConflictStrategy → ConflictResolver
new strategy = record {
  strategy = strategy;
  conflicts = [];
  max_entries = 1000;
  custom_merge = none;
}

unfoldable pub set_custom_merge : (Conflict → Result Bytes) → ConflictResolver → ConflictResolver
set_custom_merge merge r = record r { custom_merge = some merge }

unfoldable pub merge_with : Option (Conflict → Result Bytes) → Conflict → Result Bytes
merge_with none conflict = err (replication_error "Custom merge function not set")
merge_with (some merge) conflict = merge conflict

unfoldable pub choose :
    ConflictStrategy → Option (Conflict → Result Bytes) → Conflict → Result Bytes
unfolding merge_with
choose ConflictStrategy.server_authoritative merge conflict = ok conflict.server_value
choose ConflictStrategy.last_write_wins merge conflict = ok conflict.client_value
choose ConflictStrategy.custom_merge merge conflict = merge_with merge conflict

-- The last argument is the log with the conflict.
unfoldable pub logged :
    Conflict → ConflictResolver → Result (List Conflict) → Result Bytes × ConflictResolver
unfolding choose
logged conflict r (ok conflicts) =
    (choose r.strategy r.custom_merge conflict, record r { conflicts = conflicts })
logged conflict r (err e) = (err e, r)
logged conflict r panic = (panic, r)

unfoldable pub resolve_conflict : Conflict → ConflictResolver → Result Bytes × ConflictResolver
unfolding logged
resolve_conflict conflict r = logged conflict r (push_bounded r.max_entries r.conflicts conflict)

-- `server_current`, a map from a table's and an entity's ID.
abbrev pub Server : Type 0
Server = ℕ → ℕ → Option Bytes

-- What the arms of `resolve` read.
pub record Incoming : Type 0 where
  pub server_version : ℕ
  pub client_version : ℕ
  pub timestamp : ℕ

-- The operation that takes the place of a conflicting one, if any, with the resolved value.
unfoldable pub settled :
    (Bytes → Option DeltaOp)
    → Result Bytes × ConflictResolver
    → Result (Option DeltaOp) × ConflictResolver
settled op (ok value, r) = (ok (op value), r)
settled op (err e, r) = (err e, r)
settled op (panic, r) = (panic, r)

unfoldable pub keeps_server : ConflictStrategy → Bool
keeps_server ConflictStrategy.server_authoritative = true
keeps_server ConflictStrategy.last_write_wins = false
keeps_server ConflictStrategy.custom_merge = false

unfoldable pub conflict_of : Incoming → ℕ → ℕ → Option ℕ → Bytes → Bytes → Conflict
conflict_of incoming table_id entity_id field_offset server_value client_value = record {
  table_id = table_id;
  entity_id = entity_id;
  field_offset = field_offset;
  server_value = server_value;
  client_value = client_value;
  server_version = incoming.server_version;
  client_version = incoming.client_version;
  timestamp = incoming.timestamp;
}

-- The arms for the server's record `current` in the place of the operation.
unfoldable pub resolve_insert :
    Incoming
    → ℕ
    → ℕ
    → Bytes
    → Option Bytes
    → ConflictResolver
    → Result (Option DeltaOp) × ConflictResolver
unfolding settled resolve_conflict conflict_of
resolve_insert incoming table_id entity_id bytes none r =
    (ok (some (DeltaOp.insert table_id entity_id bytes)), r)
resolve_insert incoming table_id entity_id bytes (some current) r =
    settled (λ value. some (DeltaOp.insert table_id entity_id value))
      (resolve_conflict (conflict_of incoming table_id entity_id none current bytes) r)

unfoldable pub resolve_update :
    Incoming
    → ℕ
    → ℕ
    → ℕ
    → Bytes
    → Bytes
    → Option Bytes
    → ConflictResolver
    → Result (Option DeltaOp) × ConflictResolver
unfolding settled resolve_conflict conflict_of
resolve_update incoming table_id entity_id field_offset old_data new_data none r =
    (ok (some (DeltaOp.update table_id entity_id field_offset old_data new_data)), r)
resolve_update incoming table_id entity_id field_offset old_data new_data (some current) r =
    if equal_bytes current old_data
    then (ok (some (DeltaOp.update table_id entity_id field_offset old_data new_data)), r)
    else settled (λ value. some (DeltaOp.update table_id entity_id field_offset current value))
        (resolve_conflict
          (conflict_of incoming table_id entity_id (some field_offset) current new_data) r)

unfoldable pub resolve_delete :
    Incoming
    → ℕ
    → ℕ
    → Bytes
    → Option Bytes
    → ConflictResolver
    → Result (Option DeltaOp) × ConflictResolver
unfolding settled resolve_conflict conflict_of keeps_server
resolve_delete incoming table_id entity_id old_data none r =
    (ok (some (DeltaOp.delete table_id entity_id old_data)), r)
resolve_delete incoming table_id entity_id old_data (some current) r =
    if equal_bytes current old_data
    then (ok (some (DeltaOp.delete table_id entity_id old_data)), r)
    else settled
        (λ value.
          if keeps_server r.strategy
          then none
          else some (DeltaOp.delete table_id entity_id current))
        (resolve_conflict (conflict_of incoming table_id entity_id none current old_data) r)

unfoldable pub resolve_op :
    Incoming → Server → DeltaOp → ConflictResolver → Result (Option DeltaOp) × ConflictResolver
unfolding resolve_insert resolve_update resolve_delete
resolve_op incoming server (DeltaOp.insert t e bytes) r =
    resolve_insert incoming t e bytes (server t e) r
resolve_op incoming server (DeltaOp.update t e field_offset old_data new_data) r =
    resolve_update incoming t e field_offset old_data new_data (server t e) r
resolve_op incoming server (DeltaOp.delete t e old_data) r =
    resolve_delete incoming t e old_data (server t e) r
resolve_op incoming server op r = (ok (some op), r)

-- The operator `?`, where the resolver changes as well.
abbrev pub and_then :
    {A B : Type 0}
    → Result A × ConflictResolver
    → (A → ConflictResolver → Result B × ConflictResolver)
    → Result B × ConflictResolver
and_then (ok a, r) f = f a r
and_then (err e, r) f = (err e, r)
and_then (panic, r) f = (panic, r)

abbrev pub push : List DeltaOp → Option DeltaOp → List DeltaOp
push ops none = ops
push ops (some op) = ops ++ op ∷ []

unfoldable pub resolve_ops :
    Incoming
    → Server
    → List DeltaOp
    → List DeltaOp
    → ConflictResolver
    → Result (List DeltaOp) × ConflictResolver
resolve_ops incoming server [] resolved r = (ok resolved, r)
resolve_ops incoming server (op ∷ ops) resolved r =
    and_then (resolve_op incoming server op r)
      (λ o after. resolve_ops incoming server ops (push resolved o) after)

unfoldable pub resolve : ℕ → ℕ → Delta → Server → ConflictResolver → Result Delta × ConflictResolver
unfolding resolve_ops
resolve server_version server_timestamp client_delta server r =
    let incoming : Incoming = record {
      server_version = server_version;
      client_version = client_delta.version;
      timestamp = client_delta.timestamp;
    } in
    let (result, after) = resolve_ops incoming server client_delta.ops [] r in
    (
      result >>= λ ops. ok (record {
        ops = ops;
        version = (server_version + 1) % 2 ^ 64;
        timestamp = max server_timestamp client_delta.timestamp;
      }),
      after,
    )
