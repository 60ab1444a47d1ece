-- ===== src/Persistence/Recovery.antt =====
-- ecsdb/src/persistence/manager.rs: the replay of the collected transactions onto a database. Its
-- tables are not committed: the readers' buffers stay as they were.
pub mod Sorting
pub mod Order
use rodengine.Common.{ℕ, List, [], ◌∷◌}
use rodengine.Error.{Result, ok, panic, ◌>>=◌}
use rodengine.Transaction.Wal.{WalEntry, WalOp}
use rodengine.Transaction.WriteQueue.{WriteOpWithoutResponse, insert, update, delete}
use rodengine.Persistence.Replay.{Collected, collect, start, sort_by_id}
use rodengine.Database.{Components, State, apply_write_op}
use rodengine.Database.Commit.{Database}

-- `_ => unreachable!(...)` is a panic.
unfoldable pub write_op_of : WalOp → Result WriteOpWithoutResponse
write_op_of (WalOp.insert table_id entity_id bytes) = ok (insert table_id entity_id bytes)
write_op_of (WalOp.update table_id entity_id bytes) = ok (update table_id entity_id bytes)
write_op_of (WalOp.delete table_id entity_id) = ok (delete table_id entity_id)
write_op_of (WalOp.commit transaction_id) = panic
write_op_of (WalOp.rollback transaction_id) = panic

-- The entries of the files, in the order of the files. `FileWal::read_all_entries(path)`, which the
-- loop calls with the path of one file, is the argument `read_all_entries`.
unfoldable pub collect_files :
    {WalPath : Type 0}
    → (WalPath → Result (List WalEntry))
    → ℕ
    → List WalPath
    → Collected
    → Result Collected
collect_files read_all_entries since_version [] c = ok c
collect_files read_all_entries since_version (path ∷ wal_files) c = do
  entries ← read_all_entries path
  collect_files read_all_entries since_version wal_files (collect since_version entries c)

module _ (components : Components) where
  unfoldable pub apply_wal_op_to_db : WalOp → State → Result State
  unfolding write_op_of
  apply_wal_op_to_db op s = do write_op ← write_op_of op; apply_write_op components write_op s

  unfoldable pub apply_ops : List WalOp → State → Result State
  apply_ops [] s = ok s
  apply_ops (op ∷ ops) s = do s' ← apply_wal_op_to_db op s; apply_ops ops s'

  unfoldable pub apply_transactions : List (ℕ × List WalOp) → State → Result State
  unfolding apply_ops
  apply_transactions [] s = ok s
  apply_transactions ((transaction_id, ops) ∷ transactions) s = do
    s' ← apply_ops ops s
    apply_transactions transactions s'

  unfoldable pub replay_wal_files_onto_db :
      {WalPath : Type 0}
      → (WalPath → Result (List WalEntry))
      → List WalPath
      → ℕ
      → Database
      → Result Database
  unfolding apply_transactions collect_files
  replay_wal_files_onto_db read_all_entries wal_files since_version db = do
    c ← collect_files read_all_entries since_version wal_files (start since_version)
    s ← apply_transactions (sort_by_id c.committed) db.state
    ok (record db { state = s; version = c.max_transaction_id })
