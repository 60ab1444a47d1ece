-- ===== src/Transaction/Wal.antt =====
-- ecsdb/src/transaction/wal.rs: the entries of the write-ahead log and the in-memory `WalLogger`.
-- `bincode`, `crc32fast` and the system clock are parameters, the record `WalEnv`.
use rodengine.Common.{
  ℕ, zero, suc, ◌+◌, ◌/◌, ◌%◌, ◌^◌, Bool, List, [], ◌∷◌, ◌++◌, length, ◌==◌, if◌then◌else◌,
}
use rodengine.Storage.Buffer.{Bytes}

pub data WalOp : Type 0 where
  insert : ℕ → ℕ → Bytes → WalOp
  update : ℕ → ℕ → Bytes → WalOp
  delete : ℕ → ℕ → WalOp
  commit : ℕ → WalOp
  rollback : ℕ → WalOp

pub record WalEntry : Type 0 where
  pub timestamp : ℕ
  pub transaction_id : ℕ
  pub sequence : ℕ
  pub operation : WalOp
  pub checksum : ℕ

-- `clock n` is the time when the entry at position `n` of the log is made.
pub record WalEnv : Type 0 where
  pub serialize_op : WalOp → Bytes
  pub crc32 : Bytes → ℕ
  pub clock : ℕ → ℕ

-- `to_le_bytes` of a number of `count` bytes.
unfoldable pub to_le_bytes : ℕ → ℕ → Bytes
to_le_bytes zero n = []
to_le_bytes (suc count) n = (n % 256) ∷ to_le_bytes count (n / 256)

pub record WalLogger : Type 0 where
  pub entries : List WalEntry
  pub next_transaction_id : ℕ

unfoldable pub new : WalLogger
new = record { entries = []; next_transaction_id = 1 }

unfoldable pub begin_transaction : WalLogger → ℕ × WalLogger
begin_transaction w =
    (w.next_transaction_id, record w { next_transaction_id = (w.next_transaction_id + 1) % 2 ^ 64 })

-- `entries_for_transaction`
unfoldable pub entries_for : List WalEntry → ℕ → List WalEntry
entries_for [] transaction_id = []
entries_for (e ∷ entries) transaction_id =
    let rest = entries_for entries transaction_id in
    if e.transaction_id == transaction_id then e ∷ rest else rest

unfoldable pub next_sequence_for_transaction : WalLogger → ℕ → ℕ
unfolding entries_for
next_sequence_for_transaction w transaction_id =
    length (entries_for w.entries transaction_id) % 2 ^ 32

module _ (env : WalEnv) where
  unfoldable pub compute_checksum : WalEntry → ℕ
  unfolding to_le_bytes
  compute_checksum e = env.crc32 (
      to_le_bytes 8 e.timestamp
      ++ to_le_bytes 8 e.transaction_id
      ++ to_le_bytes 4 e.sequence
      ++ env.serialize_op e.operation)

  -- `WalEntry::new`, at a given time.
  unfoldable pub new_entry : ℕ → ℕ → ℕ → WalOp → WalEntry
  unfolding compute_checksum
  new_entry timestamp transaction_id sequence operation =
      let entry : WalEntry = record {
        timestamp = timestamp;
        transaction_id = transaction_id;
        sequence = sequence;
        operation = operation;
        checksum = 0;
      } in
      record entry { checksum = compute_checksum entry }

  unfoldable pub validate_checksum : WalEntry → Bool
  unfolding compute_checksum
  validate_checksum e = compute_checksum (record e { checksum = 0 }) == e.checksum

  unfoldable pub log_operation : WalLogger → ℕ → ℕ → WalOp → WalLogger
  unfolding new_entry
  log_operation w transaction_id sequence operation = record w {
    entries =
        w.entries
        ++ new_entry (env.clock (length w.entries)) transaction_id sequence operation ∷ [];
  }

  unfoldable pub log_commit : WalLogger → ℕ → WalLogger
  unfolding next_sequence_for_transaction
  log_commit w transaction_id =
      log_operation w transaction_id (next_sequence_for_transaction w transaction_id)
        (commit transaction_id)

  unfoldable pub log_rollback : WalLogger → ℕ → WalLogger
  unfolding next_sequence_for_transaction
  log_rollback w transaction_id =
      log_operation w transaction_id (next_sequence_for_transaction w transaction_id)
        (rollback transaction_id)
