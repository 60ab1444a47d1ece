-- ===== src/Transaction/WriteQueue.antt =====
-- ecsdb/src/transaction/write_queue.rs: the write thread. The closures that apply operations are
-- parameters over a state `S`. A caller's reply is `ChannelClosed` once the thread has ended, by
-- `Shutdown` or by a panic of a closure. The timeout of `recv_timeout` is not modelled: callers wait.
use rodengine.Common.{ℕ, ◌+◌, ◌%◌, ◌^◌, List, [], ◌∷◌}
use rodengine.Error.{EcsDbError, Result, ok, err, panic, channel_closed}
use rodengine.Storage.Buffer.{Bytes}
use rodengine.Transaction.Wal.{
  WalEnv, WalLogger, WalOp, begin_transaction, log_operation, log_commit, log_rollback,
}

pub data WriteOpWithoutResponse : Type 0 where
  insert : ℕ → ℕ → Bytes → WriteOpWithoutResponse
  update : ℕ → ℕ → Bytes → WriteOpWithoutResponse
  delete : ℕ → ℕ → WriteOpWithoutResponse

-- `WriteOp`, without the response channels. The three single operations are one constructor.
pub data WriteOp : Type 0 where
  single : WriteOpWithoutResponse → WriteOp
  commit_batch : ℕ → List WriteOpWithoutResponse → WriteOp
  shutdown : WriteOp

unfoldable pub wal_op : WriteOpWithoutResponse → WalOp
wal_op (insert table_id entity_id bytes) = WalOp.insert table_id entity_id bytes
wal_op (update table_id entity_id bytes) = WalOp.update table_id entity_id bytes
wal_op (delete table_id entity_id) = WalOp.delete table_id entity_id

-- What the thread owns: its log, and the state that the closures change.
pub record Thread (S : Type 0) : Type 0 where
  pub wal : WalLogger
  pub state : S

-- What a caller receives: the result of a single operation, or the version of a batch.
pub data Reply : Type 0 where
  done : Reply
  version : ℕ → Reply
  failed : EcsDbError → Reply

-- One round of the loop: the thread goes on after a reply, or has ended.
pub data Round (S : Type 0) : Type 0 where
  next : Reply → Thread S → Round S
  ended : S → Round S

-- Logging the operations of a batch, numbered from `sequence`.
unfoldable pub log_all : WalEnv → WalLogger → ℕ → ℕ → List WriteOpWithoutResponse → WalLogger
unfolding wal_op
log_all env w transaction_id sequence [] = w
log_all env w transaction_id sequence (op ∷ ops) =
    log_all env (log_operation env w transaction_id (sequence % 2 ^ 32) (wal_op op)) transaction_id
      (sequence + 1) ops

-- The callers' replies to the operations after the thread has ended.
unfoldable pub all_closed : List WriteOp → List Reply
all_closed [] = []
all_closed (op ∷ ops) = failed channel_closed ∷ all_closed ops

module _ {S : Type 0} (env : WalEnv) where
  -- `if result.is_ok() { log_commit } else { log_rollback }` and the response.
  unfoldable pub finish_single : WalLogger → ℕ → Result (Unit {0}) × S → Round S
  finish_single w transaction_id (ok u, state) =
      next done (record { wal = log_commit env w transaction_id; state = state })
  finish_single w transaction_id (err e, state) =
      next (failed e) (record { wal = log_rollback env w transaction_id; state = state })
  finish_single w transaction_id (panic, state) = ended state

  unfoldable pub finish_batch : WalLogger → ℕ → Result (Unit {0}) × S → Round S
  finish_batch w transaction_id (ok u, state) =
      next (version transaction_id)
        (record { wal = log_commit env w transaction_id; state = state })
  finish_batch w transaction_id (err e, state) =
      next (failed e) (record { wal = log_rollback env w transaction_id; state = state })
  finish_batch w transaction_id (panic, state) = ended state

  -- The loop of `spawn` over a batch: each operation is logged, then processed.
  unfoldable pub each :
      (WriteOpWithoutResponse → S → Result (Unit {0}) × S)
      → ℕ
      → ℕ
      → List WriteOpWithoutResponse
      → Thread S
      → Round S
  unfolding wal_op
  each process transaction_id sequence [] t =
      next (version transaction_id) (record t { wal = log_commit env t.wal transaction_id })
  each process transaction_id sequence (op ∷ ops) t =
      let w = log_operation env t.wal transaction_id (sequence % 2 ^ 32) (wal_op op) in
      let (result, state) = process op t.state in
      elim result [
        | ok u ↦ each process transaction_id (sequence + 1) ops (record { wal = w; state = state })
        | err e ↦
            next (failed e) (record { wal = log_rollback env w transaction_id; state = state })
        | panic ↦ ended state
      ]

  module _ (process_single : WriteOpWithoutResponse → S → Result (Unit {0}) × S) where
    unfoldable pub handle_single : WriteOpWithoutResponse → Thread S → Round S
    unfolding wal_op finish_single
    handle_single op t =
        let (transaction_id, w) = begin_transaction t.wal in
        finish_single (log_operation env w transaction_id 0 (wal_op op)) transaction_id
          (process_single op t.state)

    -- The thread of `spawn`: a batch is processed one operation at a time.
    unfoldable pub handle_each : WriteOp → Thread S → Round S
    unfolding handle_single each
    handle_each (single op) t = handle_single op t
    handle_each (commit_batch transaction_id ops) t = each process_single transaction_id 0 ops t
    handle_each shutdown t = ended t.state

    module _ (process_batch : List WriteOpWithoutResponse → S → Result (Unit {0}) × S) where
      -- The thread of `spawn_with_batch`. (`WalLogger` never fails to log.)
      unfoldable pub handle : WriteOp → Thread S → Round S
      unfolding handle_single finish_batch log_all
      handle (single op) t = handle_single op t
      handle (commit_batch transaction_id ops) t =
          finish_batch (log_all env t.wal transaction_id 0 ops) transaction_id
            (process_batch ops t.state)
      handle shutdown t = ended t.state

  -- `while let Ok(op) = rx.recv()`: the operations in the order of their arrival.
  unfoldable pub run :
      (WriteOp → Thread S → Round S) → List WriteOp → Thread S → List Reply × Thread S
  unfolding all_closed
  run step [] t = ([], t)
  run step (op ∷ ops) t = elim (step op t) [
    | next reply t' ↦ let (replies, last) = run step ops t' in (reply ∷ replies, last)
    | ended state ↦ (all_closed (op ∷ ops), record t { state = state })
  ]
