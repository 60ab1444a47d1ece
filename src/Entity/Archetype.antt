-- ===== src/Entity/Archetype.antt =====
-- ecsdb/src/entity/archetype.rs: `ArchetypeRegistry`.
pub mod SwapRemove
pub mod Members
use rodengine.Common.{
  ℕ, zero, suc, ◌+◌, ◌*◌, ◌/◌, ◌%◌, Bool, true, false, List, [], ◌∷◌, ◌++◌, Option, none, some,
  length, ◌==◌, if◌then◌else◌, not,
}
use rodengine.Common.HashMap
use rodengine.Entity.ArchetypeMask
use rodengine.Common.HashMap.{HashMap}

pub record ArchetypeRegistry : Type 0 where
  pub archetype_entities : HashMap (List ℕ)
  pub entity_archetype : HashMap ℕ

unfoldable pub new : ArchetypeRegistry
new = record { archetype_entities = []; entity_archetype = [] }

-- `entities.iter().position(|&id| id == entity_id)`
unfoldable pub position : List ℕ → ℕ → Option ℕ
position [] e = none
position (x ∷ xs) e =
    let later : Option ℕ = elim (position xs e) [ none ↦ none | some i ↦ some (suc i) ] in
    if x == e then some 0 else later

-- The last element of `x ∷ xs`, and what stands before it.
unfoldable pub last_of : ℕ → List ℕ → ℕ
last_of x [] = x
last_of x (y ∷ xs) = last_of y xs

unfoldable pub before_last : ℕ → List ℕ → List ℕ
before_last x [] = []
before_last x (y ∷ xs) = x ∷ before_last y xs

-- `Vec::swap_remove`, at a position in range.
unfoldable pub swap_remove : List ℕ → ℕ → List ℕ
unfolding last_of before_last
swap_remove [] pos = []
swap_remove (x ∷ []) zero = []
swap_remove (x ∷ y ∷ xs) zero = last_of y xs ∷ before_last y xs
swap_remove (x ∷ xs) (suc pos) = x ∷ swap_remove xs pos

-- `if let Some(pos) = ... { entities.swap_remove(pos); }`
unfoldable pub drop_entity : List ℕ → ℕ → List ℕ
unfolding position swap_remove
drop_entity entities e = elim (position entities e) [
  | none ↦ entities
  | some pos ↦ swap_remove entities pos
]

-- `if let Some(entities) = self.archetype_entities.get_mut(&archetype) { ... }`
unfoldable pub drop_from : HashMap (List ℕ) → ℕ → ℕ → HashMap (List ℕ)
unfolding drop_entity
drop_from lists archetype e = elim (HashMap.get lists archetype) [
  | none ↦ lists
  | some entities ↦ HashMap.insert lists archetype (drop_entity entities e)
]

abbrev pub or_empty : Option (List ℕ) → List ℕ
or_empty none = []
or_empty (some entities) = entities

-- `self.archetype_entities.entry(archetype).or_default().push(entity_id)`
unfoldable pub push_to : HashMap (List ℕ) → ℕ → ℕ → HashMap (List ℕ)
push_to lists archetype e =
    HashMap.insert lists archetype (or_empty (HashMap.get lists archetype) ++ e ∷ [])

unfoldable pub add_entity : ArchetypeRegistry → ℕ → ℕ → ArchetypeRegistry
unfolding push_to
add_entity r entity_id archetype = record {
  archetype_entities = push_to r.archetype_entities archetype entity_id;
  entity_archetype = HashMap.insert r.entity_archetype entity_id archetype;
}

unfoldable pub remove_entity : ArchetypeRegistry → ℕ → Option ℕ × ArchetypeRegistry
unfolding drop_from
remove_entity r entity_id = elim (HashMap.get r.entity_archetype entity_id) [
  | none ↦ (none, r)
  | some archetype ↦ (
    some archetype,
    record {
      archetype_entities = drop_from r.archetype_entities archetype entity_id;
      entity_archetype = HashMap.remove r.entity_archetype entity_id;
    },
  )
]

unfoldable pub move_entity : ArchetypeRegistry → ℕ → ℕ → ℕ → ArchetypeRegistry
unfolding drop_from push_to
move_entity r entity_id from to = record r {
  archetype_entities = push_to (drop_from r.archetype_entities from entity_id) to entity_id;
}

-- What `add_component` and `remove_component` share: the new mask is stored, and the entity moves
-- if it changed.
unfoldable pub change_mask : ArchetypeRegistry → ℕ → ℕ → ℕ → ArchetypeRegistry
unfolding move_entity
change_mask r entity_id old_mask new_mask =
    let stored : ArchetypeRegistry = record r {
      entity_archetype = HashMap.insert r.entity_archetype entity_id new_mask;
    } in
    if old_mask == new_mask then stored else move_entity stored entity_id old_mask new_mask

unfoldable pub add_component : ArchetypeRegistry → ℕ → ℕ → Option ℕ × ArchetypeRegistry
unfolding change_mask
add_component r entity_id table_id = elim (HashMap.get r.entity_archetype entity_id) [
  | none ↦ (none, r)
  | some old ↦ (some old, change_mask r entity_id old (ArchetypeMask.add_component old table_id))
]

unfoldable pub remove_component : ArchetypeRegistry → ℕ → ℕ → Option ℕ × ArchetypeRegistry
unfolding change_mask
remove_component r entity_id table_id = elim (HashMap.get r.entity_archetype entity_id) [
  | none ↦ (none, r)
  | some old ↦ (some old, change_mask r entity_id old (ArchetypeMask.remove_component old table_id))
]

unfoldable pub get_archetype : ArchetypeRegistry → ℕ → Option ℕ
get_archetype r entity_id = HashMap.get r.entity_archetype entity_id

unfoldable pub entities_in_archetype : ArchetypeRegistry → ℕ → List ℕ
entities_in_archetype r archetype = or_empty (HashMap.get r.archetype_entities archetype)

unfoldable pub archetype_size : ArchetypeRegistry → ℕ → ℕ
archetype_size r archetype = length (or_empty (HashMap.get r.archetype_entities archetype))
