-- ===== src/Database/Commit/Atomic.antt =====
-- A commit is all or nothing: the batch is applied and published under the next version, or it is
-- rolled back.
use rodengine.Common.{
  ℕ, ◌+◌, ◌%◌, ◌^◌, ◌≡◌, refl, ap, sym, Bool, true, false, List, ◌⊎◌, [], ◌∷◌, Option, none, some,
  Option-cases, inl, inr, is_some, true≢false,
}
use rodengine.Common.HashMap
use rodengine.Common.HashMap.{HashMap, mapped, map_values, get-map_values}
use rodengine.Error.{Result, ok, err, panic, EcsDbError}
use rodengine.Storage.Table
use rodengine.Storage.Buffer
use rodengine.Storage.Delta
use rodengine.Transaction.Wal.{WalEnv, WalLogger}
use rodengine.Transaction.WriteQueue.{WriteOpWithoutResponse, handle, finish_batch, log_all, Round}
use rodengine.Database.{Components, State, TableHandle}
use rodengine.Database.Batch.{process_batch}
use rodengine.Database.Batch.Rollback.{Undone, process_batch-Undone}
use rodengine.Database.Commit.{
  Database, commit, finish_commit, write_round, commit_tables, receive, left_by,
}

-- The readers of every table see its write buffer, as of this generation.
unfoldable pub Published : ℕ → State → Type 0
Published generation s =
    (id : ℕ)
    → (mapped (λ (h : TableHandle). h.table.buffer.read_buffer) (HashMap.get s.tables id)
        ≡ mapped (λ (h : TableHandle). h.table.buffer.write_buffer) (HashMap.get s.tables id))
      × (mapped (λ (h : TableHandle). h.table.buffer.generation) (HashMap.get s.tables id)
          ≡ mapped (λ (h : TableHandle). generation) (HashMap.get s.tables id))

-- What a commit leads to, for a reply in time or too late. `writer` is there after it unless the write
-- thread has ended.
unfoldable pub Outcome :
    Components → Bool → Database → Result (ℕ × Option Delta.Delta) × Database → Type 0
Outcome components timely db (ok (version, delta), after) =
    (timely ≡ true)
    × (version ≡ (db.version + 1) % 2 ^ 64)
    × (after.version ≡ version)
    × (after.pending_ops ≡ [])
    × ((process_batch components db.pending_ops db.state).0 ≡ ok tt)
    × (after.state
        ≡ commit_tables components version (process_batch components db.pending_ops db.state).1)
    × Published version after.state
Outcome components timely db (err e, after) =
    (after.version ≡ db.version)
    × (after.pending_ops ≡ [])
    × (is_some after.writer ≡ true
        → (after.state ≡ (process_batch components db.pending_ops db.state).1)
          × (((timely ≡ true)
                × ((process_batch components db.pending_ops db.state).0 ≡ err e)
                × Undone db.state (err e, after.state))
              ⊎ ((timely ≡ false) × (e ≡ EcsDbError.timeout))))
Outcome components timely db (panic, after) = ⊥

module _ (components : Components) where
  commit_tables-Published :
      (generation : ℕ) (s : State) → Published generation (commit_tables components generation s)
  unfolding Published commit_tables Table.commit_with_generation Buffer.commit_with_generation
      Buffer.commit
  commit_tables-Published generation s id = elim (Option-cases (HashMap.get s.tables id)) [
    | inl e ↦ rw (get-map_values _ s.tables id, e) (refl, refl)
    | inr (h, e) ↦ rw (get-map_values _ s.tables id, e) (refl, refl)
  ]

  module _ (env : WalEnv) (s : State) (writer : Option WalLogger) (version : ℕ)
      (pending : List WriteOpWithoutResponse) (delta : Delta.Delta) where
    abbrev before : Database
    before = record { state = s; writer = writer; pending_ops = pending; version = version }

    abbrev next_version : ℕ
    next_version = (version + 1) % 2 ^ 64

    -- The end of a commit, from what the write thread did.
    abbrev concluded :
        Bool → Option WalLogger → Round State → Result (ℕ × Option Delta.Delta) × Database
    concluded timely o round =
        finish_commit components next_version delta (receive components timely o round)
          (left_by components before round)

    finish_batch-Outcome :
        (timely : Bool) (wal w : WalLogger) (r : Result (Unit {0}) × State)
        → process_batch components pending s ≡ r
        → Undone s r
        → Outcome components timely before
            (concluded timely (some wal) (finish_batch env w next_version r))
    unfolding Outcome finish_commit finish_batch receive left_by
    finish_batch-Outcome true wal w (ok u, s') e undone = (
      refl,
      refl,
      refl,
      refl,
      ap (λ r. r.0) e,
      ap (λ (r : Result (Unit {0}) × State). commit_tables components next_version r.1) (sym e),
      commit_tables-Published next_version s',
    )
    finish_batch-Outcome true wal w (err x, s') e undone =
        (refl, refl, λ alive. (ap (λ r. r.1) (sym e), inl (refl, ap (λ r. r.0) e, undone)))
    finish_batch-Outcome true wal w (panic, s') e undone =
        (refl, refl, λ alive. absurd (true≢false (sym alive)))
    finish_batch-Outcome false wal w (ok u, s') e undone =
        (refl, refl, λ alive. (ap (λ r. r.1) (sym e), inr (refl, refl)))
    finish_batch-Outcome false wal w (err x, s') e undone =
        (refl, refl, λ alive. (ap (λ r. r.1) (sym e), inr (refl, refl)))
    finish_batch-Outcome false wal w (panic, s') e undone =
        (refl, refl, λ alive. absurd (true≢false (sym alive)))

    write_round-Outcome :
        (timely : Bool) (o : Option WalLogger)
        → Outcome components timely before
            (concluded timely o (write_round components env next_version pending s o))
    unfolding Outcome finish_commit receive left_by write_round handle
    write_round-Outcome timely (some wal) =
        finish_batch-Outcome timely wal (log_all env wal next_version 0 pending)
          (process_batch components pending s) refl (process_batch-Undone components pending s)
    write_round-Outcome timely none = (refl, refl, λ alive. absurd (true≢false (sym alive)))

-- A commit of pending operations does one of four things, and nothing is pending after it. If the
-- reply of the write thread comes in time and the batch has succeeded, the commit succeeds under the
-- next version, with the batch applied and each table's write buffer shown to its readers with that
-- generation. In all other cases it fails and keeps the version. If the reply comes in time and the
-- batch has failed, the commit fails with the error of the batch, and both registries and all
-- buffers are as they were. If the reply comes too late, it fails with Timeout, and once the thread
-- is done the state is exactly what the batch leaves. If the write thread has ended, nothing is said
-- of the state. The call itself does not panic.
pub commit-Outcome :
    (components : Components) (env : WalEnv) (timely : Bool) (timestamp : ℕ) (s : State)
    (writer : Option WalLogger) (version : ℕ) (op : WriteOpWithoutResponse)
    (ops : List WriteOpWithoutResponse)
    → let db : Database = record {
      state = s;
      writer = writer;
      pending_ops = op ∷ ops;
      version = version;
    } in
      Outcome components timely db (commit components env timely timestamp db)
unfolding commit
commit-Outcome components env timely timestamp s writer version op ops =
    write_round-Outcome components env s writer version (op ∷ ops) _ timely writer
