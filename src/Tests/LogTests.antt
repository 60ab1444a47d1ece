-- ===== src/Tests/LogTests.antt =====
-- A log with one committed transaction, and a round of the write thread over it.
use rodengine.Common.{◌≡◌, refl, ℕ, List, [], ◌∷◌, none, map, length, arith}
use rodengine.Common.HashMap
use rodengine.Transaction.Wal
use rodengine.Transaction.Wal.{WalEnv, WalLogger, WalOp, WalEntry, log_operation, log_commit}
use rodengine.Transaction.WriteQueue.{
  WriteOpWithoutResponse, Thread, wal_op, handle, single, commit_batch,
}
use rodengine.Persistence.Replay.{collect, collect_entry, start}
use rodengine.Database.Commit.{Database}
use rodengine.Error.{Result, ok}
use rodengine.Persistence.Replay.Queue.{Replays, handle-batch-Replays, handle-single-Replays}
use rodengine.Database.{State, process_single}
use rodengine.Database.Batch.{process_batch}
use rodengine.Tests.BatchTests.{components, state, batch}

abbrev pub env : WalEnv
env = record { serialize_op = λ op. 0 ∷ []; crc32 = length; clock = λ n. n }

abbrev wal : WalLogger
wal = record (log_commit env (log_operation env Wal.new 6 0 (WalOp.delete 4 9)) 6) {
  next_transaction_id = 7;
}

abbrev thread : Thread State
thread = record { wal = wal; state = state }

thread_settled : (collect 5 thread.wal.entries (start 5)).pending ≡ []
unfolding collect log_commit log_operation Wal.new collect_entry HashMap.get HashMap.insert start
    HashMap.remove
thread_settled = refl

handle-batch-Replays_example :
    Replays 5 7 (start 5) (map wal_op batch) (collect 5 thread.wal.entries (start 5)) (
      handle env
        (process_single components)
        (process_batch components)
        (commit_batch 7 batch)
        thread)
handle-batch-Replays_example =
    handle-batch-Replays env 5 7 (omega arith) (process_single components)
      (process_batch components) thread (start 5) thread_settled
      (WriteOpWithoutResponse.insert 4 2 (8 ∷ 9 ∷ []))
      (WriteOpWithoutResponse.insert 4 77 (8 ∷ 9 ∷ []) ∷ [])

handle-single-Replays_example :
    Replays 5 7
      (start 5)
      (wal_op (WriteOpWithoutResponse.delete 4 9) ∷ [])
      (collect 5 thread.wal.entries (start 5))
      (handle env
        (process_single components)
        (process_batch components)
        (single (WriteOpWithoutResponse.delete 4 9))
        thread)
handle-single-Replays_example =
    handle-single-Replays env 5 (process_single components) (process_batch components) thread
      (start 5) (omega arith) thread_settled (WriteOpWithoutResponse.delete 4 9)

abbrev db : Database
db = record { state = state; writer = none; pending_ops = []; version = 5 }

-- The one file of the log.
abbrev read_all_entries : ℕ → Result (List WalEntry)
read_all_entries path = ok thread.wal.entries
