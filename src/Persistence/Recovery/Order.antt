-- ===== src/Persistence/Recovery/Order.antt =====
-- What the replay applies: operations on records only, in the order of the transaction IDs.
use rodengine.Common.{ℕ, ◌≡◌, true, List, All}
use rodengine.Common.HashMap
use rodengine.Common.HashMap.{HashMap}
use rodengine.Error.{Result, ok, err, panic, is_ok, ◌>>=◌}
use rodengine.Transaction.Wal.{WalOp}
use rodengine.Persistence.Replay.{Collected}
use rodengine.Persistence.Recovery.Sorting.{Ascending, of_id}
use rodengine.Persistence.Recovery.{write_op_of, apply_transactions}
use rodengine.Database.{Components}
use rodengine.Database.Commit.{Database}

-- An operation on a record, which the replay can apply.
abbrev pub Applicable : WalOp → Type 0
Applicable op = is_ok (write_op_of op) ≡ true

abbrev pub AllApplicable : List (ℕ × List WalOp) → Type 0
AllApplicable = All (λ (r : ℕ × List WalOp). All Applicable r.1)

record Collects (c : Collected) : Type 0 where
  pub waiting : AllApplicable c.pending
  pub committed : AllApplicable c.committed

-- `replayed` is the replay of the transactions that were collected, if they were.
abbrev pub Replayed : Components → Database → Result Collected → Result Database → Type 0
Replayed components db (ok c) replayed =
    (transactions : List (ℕ × List WalOp)) × Ascending transactions
    × AllApplicable transactions
    × ((id : ℕ) → of_id id transactions ≡ of_id id c.committed)
    × (replayed ≡ (
        apply_transactions components transactions db.state >>= λ s.
        ok (record db { state = s; version = c.max_transaction_id })))
Replayed components db (err e) replayed = replayed ≡ err e
Replayed components db panic replayed = replayed ≡ panic
