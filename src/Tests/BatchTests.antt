-- ===== src/Tests/BatchTests.antt =====
-- A database with one table, whose second field is no foreign key, and a batch that fails at its
-- second operation.
use rodengine.Common.{ℕ, ◌≡◌, refl, false, List, [], ◌∷◌}
use rodengine.Common.HashMap
use rodengine.Error.{err, entity_not_found}
use rodengine.Transaction.WriteQueue.{WriteOpWithoutResponse, insert}
use rodengine.Storage.Buffer
use rodengine.Storage.Table
use rodengine.Entity.Registry
use rodengine.Database.{apply_write_op, validate_foreign_keys, validate_field, Components, State}
use rodengine.Database.Batch.{process_batch}
use rodengine.Database.Batch.Rollback.{Undone, process_batch-Undone}
use rodengine.Tests.StorageTests.{codec, table}
use rodengine.Tests.EntityTests.{registry, archetypes}

abbrev pub components : Components
components = record { Component = λ table_id. ℕ × ℕ; codec = λ table_id. codec }

abbrev pub state : State
state = record {
  entity_registry = registry;
  archetype_registry = archetypes;
  tables =
      (
        4,
        record {
          table = table;
          table_name = "position";
          fields = record { has_foreign_key = false; offset = 0 } ∷ [];
        },
      )
      ∷ [];
}

abbrev pub batch : List WriteOpWithoutResponse
batch = insert 4 2 (8 ∷ 9 ∷ []) ∷ insert 4 77 (8 ∷ 9 ∷ []) ∷ []

batch_fails : (process_batch components batch state).0 ≡ err (entity_not_found 77)
unfolding process_batch apply_write_op Registry.contains_entity HashMap.get validate_foreign_keys
    validate_field Table.decode Table.insert Table.encode Buffer.insert
batch_fails = refl

process_batch-Undone_example : Undone state (process_batch components batch state)
process_batch-Undone_example = process_batch-Undone components batch state
