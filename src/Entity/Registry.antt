-- ===== src/Entity/Registry.antt =====
-- ecsdb/src/entity/registry.rs: `EntityRegistry`. An `EntityId` is its number, an `EntityVersion`
-- too; the counters wrap as `u64` and `u32` do. `freelist` is a stack: its head is the end of
-- the `Vec`.
pub mod Ids
pub mod Reuse
use rodengine.Common.{
  ℕ, zero, suc, ◌+◌, ◌%◌, ◌^◌, Bool, List, [], ◌∷◌, ◌++◌, Option, none, some, length, get_elem?,
  set,
}
use rodengine.Common.HashMap
use rodengine.Common.HashMap.{HashMap, contains_key}
use rodengine.Error.{Result, ok, panic, entity_not_found, ok_or, ◌>>=◌}

pub record EntityRecord : Type 0 where
  pub id : ℕ
  pub version : ℕ
  pub archetype_hash : ℕ

pub record EntityRegistry : Type 0 where
  pub records : List EntityRecord
  pub index : HashMap ℕ
  pub freelist : List (ℕ × ℕ)
  pub next_id : ℕ

unfoldable pub new : EntityRegistry
new = record { records = []; index = []; freelist = []; next_id = 1 }

-- The ID and the version of the next entity, and the registry without them.
unfoldable pub take_id : List (ℕ × ℕ) → EntityRegistry → ℕ × ℕ × EntityRegistry
take_id [] r = (r.next_id, 0, record r { next_id = (r.next_id + 1) % 2 ^ 64 })
take_id ((id, version) ∷ rest) r = (id, version, record r { freelist = rest })

unfoldable pub create_entity : EntityRegistry → ℕ → ℕ × EntityRegistry
unfolding take_id
create_entity r archetype_hash =
    let (entity_id, version, taken) = take_id r.freelist r in
    (
      entity_id,
      record taken {
        records =
            taken.records
            ++ record { id = entity_id; version = version; archetype_hash = archetype_hash } ∷ [];
        index = HashMap.insert taken.index entity_id (length taken.records);
      },
    )

-- `if let Some(record) = self.records.get_mut(offset)`
unfoldable pub retire : ℕ → ℕ → Option EntityRecord → EntityRegistry → EntityRegistry
retire entity_id offset none r = r
retire entity_id offset (some old) r =
    let version = (old.version + 1) % 2 ^ 32 in
    record r {
      records = set r.records offset (record old { version = version });
      freelist = (entity_id, version) ∷ r.freelist;
    }

unfoldable pub delete_entity : EntityRegistry → ℕ → Result EntityRegistry
unfolding retire
delete_entity r entity_id = do
  offset ← ok_or (HashMap.get r.index entity_id) (entity_not_found entity_id)
  let removed : EntityRegistry = record r { index = HashMap.remove r.index entity_id }
  ok (retire entity_id offset (get_elem? r.records offset) removed)

-- `self.records[*offset].clone()`
unfoldable pub or_panic : Option EntityRecord → Result EntityRecord
or_panic none = panic
or_panic (some r) = ok r

unfoldable pub get_entity : EntityRegistry → ℕ → Result EntityRecord
unfolding or_panic
get_entity r entity_id = do
  offset ← ok_or (HashMap.get r.index entity_id) (entity_not_found entity_id)
  or_panic (get_elem? r.records offset)

unfoldable pub contains_entity : EntityRegistry → ℕ → Bool
contains_entity r entity_id = contains_key r.index entity_id

unfoldable pub entity_count : EntityRegistry → ℕ
entity_count r = length r.records
