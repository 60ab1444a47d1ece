-- ===== src/Persistence/Replay.antt =====
-- ecsdb/src/persistence/manager.rs: which transactions of a log are replayed. Operations wait under
-- their transaction ID until its commit marker; a rollback marker drops them.
pub mod Queue
use rodengine.Common.{
  ℕ, zero, suc, ◌≤◌, Bool, List, [], ◌∷◌, ◌++◌, Option, none, some, leb, ltb, max, if◌then◌else◌,
}
use rodengine.Common.HashMap
use rodengine.Common.HashMap.{HashMap}
use rodengine.Transaction.Wal.{WalEntry, WalOp}

pub record Collected : Type 0 where
  pub pending : HashMap (List WalOp)
  pub committed : List (ℕ × List WalOp)
  pub max_transaction_id : ℕ

unfoldable pub start : ℕ → Collected
start since_version = record { pending = []; committed = []; max_transaction_id = since_version }

abbrev pub or_default : Option (List WalOp) → List WalOp
or_default none = []
or_default (some ops) = ops

-- `if let Some(ops) = pending_ops.remove(&transaction_id) { ... }`
unfoldable pub commit_pending : ℕ → Collected → Collected
commit_pending transaction_id c = elim (HashMap.get c.pending transaction_id) [
  | none ↦ c
  | some ops ↦ record {
    pending = HashMap.remove c.pending transaction_id;
    committed = c.committed ++ (transaction_id, ops) ∷ [];
    max_transaction_id =
        (if ltb c.max_transaction_id transaction_id then transaction_id else c.max_transaction_id);
  }
]

unfoldable pub wait : ℕ → WalOp → Collected → Collected
wait transaction_id op c = record c {
  pending =
      HashMap.insert c.pending transaction_id
        (or_default (HashMap.get c.pending transaction_id) ++ op ∷ []);
}

unfoldable pub collect_op : ℕ → WalOp → Collected → Collected
unfolding commit_pending wait
collect_op transaction_id (WalOp.commit id) c = commit_pending id c
collect_op transaction_id (WalOp.rollback id) c = record c { pending = HashMap.remove c.pending id }
collect_op transaction_id (WalOp.insert t e bytes) c =
    wait transaction_id (WalOp.insert t e bytes) c
collect_op transaction_id (WalOp.update t e bytes) c =
    wait transaction_id (WalOp.update t e bytes) c
collect_op transaction_id (WalOp.delete t e) c = wait transaction_id (WalOp.delete t e) c

-- `if entry.transaction_id <= since_version { continue; }`
unfoldable pub collect_entry : ℕ → WalEntry → Collected → Collected
unfolding collect_op
collect_entry since_version entry c =
    if leb entry.transaction_id since_version
    then c
    else collect_op entry.transaction_id entry.operation c

unfoldable pub collect : ℕ → List WalEntry → Collected → Collected
collect since_version [] c = c
collect since_version (entry ∷ entries) c =
    collect since_version entries (collect_entry since_version entry c)

-- `committed_transactions.sort_by_key(|(tid, _)| *tid)`: a stable sort, by insertion.
unfoldable pub insert_sorted : ℕ × List WalOp → List (ℕ × List WalOp) → List (ℕ × List WalOp)
insert_sorted t [] = t ∷ []
insert_sorted t (u ∷ us) = if ltb u.0 t.0 then u ∷ insert_sorted t us else t ∷ u ∷ us

unfoldable pub sort_by_id : List (ℕ × List WalOp) → List (ℕ × List WalOp)
unfolding insert_sorted
sort_by_id [] = []
sort_by_id (t ∷ ts) = insert_sorted t (sort_by_id ts)
