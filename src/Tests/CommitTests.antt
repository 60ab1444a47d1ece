-- ===== src/Tests/CommitTests.antt =====
-- A commit of a batch that fails at its second operation, and the deletion of an entity without
-- components.
use rodengine.Common.{[], ◌∷◌, some, false}
use rodengine.Transaction.Wal
use rodengine.Transaction.Wal.{WalEnv}
use rodengine.Transaction.WriteQueue.{WriteOpWithoutResponse}
use rodengine.Error.{IfOk}
use rodengine.Database.Snapshot.{create_snapshot, from_snapshot}
use rodengine.Database.Snapshot.RoundTrip.{Loads, create_snapshot-Loads}
use rodengine.Database.Commit.{Database, commit, delete_entity}
use rodengine.Database.Commit.Atomic.{Outcome, commit-Outcome}
use rodengine.Database.Commit.Entities.{Deletion, delete_entity-Deletion}
use rodengine.Tests.BatchTests.{components, state, batch}
use rodengine.Tests.EntityTests.{registry-IsWf, archetypes-IsWf, has_two}
use rodengine.Tests.LogTests.{env}

abbrev db : Database
db = record { state = state; writer = some Wal.new; pending_ops = batch; version = 6 }

commit-Outcome_example : Outcome components false db (commit components env false 100 db)
commit-Outcome_example =
    commit-Outcome components env false 100 state (some Wal.new) 6
      (WriteOpWithoutResponse.insert 4 2 (8 ∷ 9 ∷ []))
      (WriteOpWithoutResponse.insert 4 77 (8 ∷ 9 ∷ []) ∷ [])

delete_entity-Deletion_example : Deletion state 2 (delete_entity state 2)
delete_entity-Deletion_example =
    delete_entity-Deletion state 2 registry-IsWf archetypes-IsWf has_two

create_snapshot-Loads_example :
    IfOk (λ snapshot. Loads db.state.tables db (from_snapshot snapshot)) (create_snapshot db)
create_snapshot-Loads_example = create_snapshot-Loads db
