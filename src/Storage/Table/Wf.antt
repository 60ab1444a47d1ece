-- ===== src/Storage/Table/Wf.antt =====
-- Well-formed component tables, and what a table holds: the bytes of each entity's record.
use rodengine.Common.{ℕ, ◌≤◌, ◌≡◌, Option, some, length, slice}
use rodengine.Common.HashMap
use rodengine.Common.HashMap.{mapped}
use rodengine.Storage.Buffer.{Bytes}
use rodengine.Storage.Buffer.Slots
use rodengine.Storage.Buffer.Slots.{IsLive}
use rodengine.Storage.Table.{ComponentTable}

-- Each entity has a live slot of its own, and there are at least as many active records.
pub record IsWf (t : ComponentTable) : Type 0 where
  pub buffer : Slots.IsWf t.buffer
  pub live : (e o : ℕ) → HashMap.get t.entity_index e ≡ some o → IsLive t.buffer o
  pub apart :
      (e f o : ℕ)
      → HashMap.get t.entity_index e ≡ some o
      → HashMap.get t.entity_index f ≡ some o
      → e ≡ f
  pub enough : length t.entity_index ≤ t.buffer.active_count

-- The bytes of an entity in the write buffer: the abstract view of a table, a map of records.
abbrev pub stored : ComponentTable → ℕ → Option Bytes
stored t e =
    mapped (λ o. slice o t.buffer.record_size t.buffer.write_buffer) (HashMap.get t.entity_index e)
