-- ===== src/Persistence/Replay/Queue.antt =====
-- What the write thread logs is replayed exactly: the acknowledged transactions, with all their
-- operations, and no others.
use rodengine.Common.{
  ℕ, ◌+◌, ◌%◌, ◌^◌, ◌<◌, ◌≡◌, refl, false, List, [], ◌∷◌, ◌++◌, map, leb, ltb, arith, if◌then◌else◌,
  ==_refl, append_assoc, append-nil, length,
}
use rodengine.Common.HashMap
use rodengine.Common.HashMap.{HashMap}
use rodengine.Error.{Result, ok, err, panic}
use rodengine.Transaction.Wal.{
  WalEnv, WalEntry, WalLogger, WalOp, new_entry, begin_transaction, log_operation, log_commit,
  log_rollback,
}
use rodengine.Transaction.WriteQueue.{
  WriteOpWithoutResponse, wal_op, Thread, Reply, Round, log_all, handle, handle_single,
  finish_single, finish_batch, single, commit_batch, next, ended, done, failed,
}
use rodengine.Persistence.Replay.{
  Collected, collect, collect_entry, collect_op, commit_pending, wait,
}

collect-append :
    (since : ℕ) (xs ys : List WalEntry) (c : Collected)
    → collect since (xs ++ ys) c ≡ collect since ys (collect since xs c)
unfolding collect
collect-append since [] ys c = refl
collect-append since (x ∷ xs) ys c = collect-append since xs ys (collect_entry since x c)

-- Nothing waits, and these transactions are committed.
record Settled (since : ℕ) (c : Collected) (committed : List (ℕ × List WalOp)) : Type 0 where
  pub none_pending : c.pending ≡ []
  pub all_committed : c.committed ≡ committed

module _ (since tid : ℕ) where
  -- What a reader has collected after a round that logged `ops` and gave this reply.
  unfoldable pub replayed : Reply → List WalOp → Collected → Collected
  replayed (failed e) ops d = d
  replayed reply ops d = record {
    pending = [];
    committed = d.committed ++ (tid, ops) ∷ [];
    max_transaction_id = (if ltb d.max_transaction_id tid then tid else d.max_transaction_id);
  }

  -- After a round that goes on, a reader collects the operations exactly if they were acknowledged.
  unfoldable pub Replays : {S : Type 0} → Collected → List WalOp → Collected → Round S → Type 0
  Replays c ops d (next reply t) = collect since t.wal.entries c ≡ replayed reply ops d
  Replays c ops d (ended s) = Unit {0}

module _ (env : WalEnv) (since tid : ℕ) (later : since < tid) where
  not_old : leb tid since ≡ false
  not_old = ground arith

  -- The operations of one transaction wait together.
  collect_entry-op :
      (c : Collected) (time seq : ℕ) (op : WriteOpWithoutResponse)
      → collect_entry since (new_entry env time tid seq (wal_op op)) c ≡ wait tid (wal_op op) c
  unfolding new_entry collect_entry collect_op wal_op
  collect_entry-op c time seq (WriteOpWithoutResponse.insert t e b) = rw not_old
  collect_entry-op c time seq (WriteOpWithoutResponse.update t e b) = rw not_old
  collect_entry-op c time seq (WriteOpWithoutResponse.delete t e) = rw not_old

  collect_entry-commit :
      (c : Collected) (time seq : ℕ)
      → collect_entry since (new_entry env time tid seq (WalOp.commit tid)) c ≡ commit_pending tid c
  unfolding new_entry collect_entry collect_op
  collect_entry-commit c time seq = rw not_old

  collect_entry-rollback :
      (c : Collected) (time seq : ℕ)
      → collect_entry since (new_entry env time tid seq (WalOp.rollback tid)) c
        ≡ record c { pending = HashMap.remove c.pending tid }
  unfolding new_entry collect_entry collect_op
  collect_entry-rollback c time seq = rw not_old

  collect-log_operation :
      (w : WalLogger) (seq : ℕ) (op : WalOp) (c : Collected)
      → collect since (log_operation env w tid seq op).entries c
        ≡ collect_entry since
            (new_entry env (env.clock (length w.entries)) tid seq op)
            (collect since w.entries c)
  unfolding log_operation collect
  collect-log_operation w seq op c = collect-append since w.entries _ c

  -- A batch whose operations wait together.
  collect-log_all :
      (ops : List WriteOpWithoutResponse) (w : WalLogger) (seq : ℕ) (c d : Collected)
      (before : List WalOp)
      → collect since w.entries c ≡ record d { pending = (tid, before) ∷ [] }
      → collect since (log_all env w tid seq ops).entries c
        ≡ record d { pending = (tid, before ++ map wal_op ops) ∷ [] }
  unfolding log_all wait HashMap.get HashMap.insert
  collect-log_all [] w seq c d before h = rw (h, append-nil)
  collect-log_all (op ∷ ops) w seq c d before h =
      let now : collect since (log_operation env w tid (seq % 2 ^ 32) (wal_op op)).entries c
          ≡ record d { pending = (tid, before ++ wal_op op ∷ []) ∷ [] } =
        rw (
          collect-log_operation w (seq % 2 ^ 32) (wal_op op) c,
          h,
          collect_entry-op,
          ==_refl tid,
        ) in
      rw (
        collect-log_all ops (log_operation env w tid (seq % 2 ^ 32) (wal_op op)) (seq + 1) c d
            (before ++ wal_op op ∷ []) now,
        append_assoc,
      )

  commit_pending-alone :
      (ops : List WalOp) (d : Collected)
      → commit_pending tid (record d { pending = (tid, ops) ∷ [] }) ≡ replayed since tid done ops d
  unfolding replayed commit_pending HashMap.get HashMap.remove
  commit_pending-alone ops d = rw (==_refl tid, commit_pending, ==_refl tid)

  module _ (w : WalLogger) (c d : Collected) (none_pending : d.pending ≡ []) where
    collect-log_commit :
        (ops : List WalOp)
        → collect since w.entries c ≡ record d { pending = (tid, ops) ∷ [] }
        → collect since (log_commit env w tid).entries c ≡ replayed since tid done ops d
    unfolding log_commit
    collect-log_commit ops h = rw (
      collect-log_operation w _ (WalOp.commit tid) c,
      h,
      collect_entry-commit,
      commit_pending-alone,
    )

    collect-log_rollback :
        (ops : List WalOp)
        → collect since w.entries c ≡ record d { pending = (tid, ops) ∷ [] }
        → collect since (log_rollback env w tid).entries c ≡ d
    unfolding log_rollback HashMap.remove
    collect-log_rollback ops h = rw (
      collect-log_operation w _ (WalOp.rollback tid) c,
      h,
      collect_entry-rollback,
      ==_refl tid,
      none_pending,
    )

  module _ {S : Type 0} (w : WalLogger) (c d : Collected) (ops : List WalOp)
      (none_pending : d.pending ≡ [])
      (all_wait : collect since w.entries c ≡ record d { pending = (tid, ops) ∷ [] }) where
    finish_batch-Replays :
        (result : Result (Unit {0}) × S) → Replays since tid c ops d (finish_batch env w tid result)
    unfolding finish_batch Replays replayed
    finish_batch-Replays (ok u, s) = collect-log_commit w c d none_pending ops all_wait
    finish_batch-Replays (err x, s) = collect-log_rollback w c d none_pending ops all_wait
    finish_batch-Replays (panic, s) = tt

    finish_single-Replays :
        (result : Result (Unit {0}) × S)
        → Replays since tid c ops d (finish_single env w tid result)
    unfolding finish_single Replays replayed
    finish_single-Replays (ok u, s) = collect-log_commit w c d none_pending ops all_wait
    finish_single-Replays (err x, s) = collect-log_rollback w c d none_pending ops all_wait
    finish_single-Replays (panic, s) = tt

  module _ {S : Type 0} (process_single : WriteOpWithoutResponse → S → Result (Unit {0}) × S)
      (process_batch : List WriteOpWithoutResponse → S → Result (Unit {0}) × S) (t : Thread S)
      (c : Collected) (none_pending : (collect since t.wal.entries c).pending ≡ []) where
    first_waits :
        (w : WalLogger) (op : WriteOpWithoutResponse)
        → w.entries ≡ t.wal.entries
        → collect since (log_operation env w tid 0 (wal_op op)).entries c
          ≡ record (collect since t.wal.entries c) { pending = (tid, wal_op op ∷ []) ∷ [] }
    unfolding wait HashMap.get HashMap.insert
    first_waits w op h =
        rw (collect-log_operation w 0 (wal_op op) c, h, collect_entry-op, none_pending)

    -- A reader that had collected the log so far, with nothing waiting, collects from a round over a
    -- non-empty batch with a later ID all operations of the batch as one committed transaction if the
    -- thread replied with the version, and nothing if it replied with an error; then again nothing
    -- waits. (Of a round that a panic ends nothing is said.)
    pub handle-batch-Replays :
        (op : WriteOpWithoutResponse) (ops : List WriteOpWithoutResponse)
        → Replays since tid c
            (map wal_op (op ∷ ops))
            (collect since t.wal.entries c)
            (handle env process_single process_batch (commit_batch tid (op ∷ ops)) t)
    unfolding handle log_all
    handle-batch-Replays op ops =
        finish_batch-Replays _ c (collect since t.wal.entries c) _ none_pending
          (collect-log_all ops _ 1 c (collect since t.wal.entries c) (wal_op op ∷ [])
            (first_waits t.wal op refl))
          _

-- A reader that had collected the log so far, with nothing waiting, collects from a round over a
-- single operation, whose ID is later than the reader's, that operation as a committed transaction
-- if the thread replied with success, and nothing if it replied with an error; then again nothing
-- waits. (Of a round that a panic ends nothing is said.)
pub handle-single-Replays :
    {S : Type 0} (env : WalEnv) (since : ℕ)
    (process_single : WriteOpWithoutResponse → S → Result (Unit {0}) × S)
    (process_batch : List WriteOpWithoutResponse → S → Result (Unit {0}) × S) (t : Thread S)
    (c : Collected)
    → since < t.wal.next_transaction_id
    → (collect since t.wal.entries c).pending ≡ []
    → (op : WriteOpWithoutResponse)
    → Replays since t.wal.next_transaction_id c
        (wal_op op ∷ [])
        (collect since t.wal.entries c)
        (handle env process_single process_batch (single op) t)
unfolding handle handle_single begin_transaction
handle-single-Replays env since process_single process_batch t c later none_pending op =
    let tid = t.wal.next_transaction_id in
    finish_single-Replays env since tid later _ c (collect since t.wal.entries c) _ none_pending
      (first_waits env since tid later process_single process_batch t c none_pending
        (begin_transaction t.wal).1 op refl)
      _
