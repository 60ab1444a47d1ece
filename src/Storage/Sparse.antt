-- ===== src/Storage/Sparse.antt =====
-- ecsdb/src/storage/sparse.rs: `SparseSet<T>`, a dense array of components with a map from entity IDs
-- to positions.
pub mod Elements
pub mod Lookup
pub mod Removal
use rodengine.Common.{
  ℕ, zero, suc, ◌+◌, Bool, List, [], ◌∷◌, ◌++◌, Option, none, some, length, get_elem?, set, take,
  ◌==◌, if◌then◌else◌,
}
use rodengine.Common.HashMap
use rodengine.Common.HashMap.{HashMap, contains_key}
use rodengine.Error.{Result, ok, panic, ◌>>=◌}

-- `v[index]`, a panic out of range.
unfoldable pub index_at : {A : Type 0} → List A → ℕ → Result A
index_at xs i = elim (get_elem? xs i) [ none ↦ panic | some x ↦ ok x ]

-- `v.swap(i, j)`
unfoldable pub swap : {A : Type 0} → List A → ℕ → ℕ → Result (List A)
unfolding index_at
swap xs i j = do x ← index_at xs i; y ← index_at xs j; ok (set (set xs i y) j x)

-- `v.pop().unwrap()`, for a list of `last + 1` elements.
unfoldable pub pop : {A : Type 0} → List A → ℕ → Result (A × List A)
unfolding index_at
pop xs last = do x ← index_at xs last; ok (x, take last xs)

-- `v.len() - 1`
unfoldable pub last_index : {A : Type 0} → List A → Result ℕ
last_index [] = panic
last_index (x ∷ xs) = ok (length xs)

pub record SparseSet (T : Type 0) : Type 0 where
  pub components : List T
  pub entity_to_index : HashMap ℕ
  pub index_to_entity : List ℕ

module _ {T : Type 0} where
  unfoldable pub new : SparseSet T
  new = record { components = []; entity_to_index = []; index_to_entity = [] }

  unfoldable pub contains : SparseSet T → ℕ → Bool
  contains s entity_id = contains_key s.entity_to_index entity_id

  unfoldable pub insert : SparseSet T → ℕ → T → Result (SparseSet T)
  unfolding index_at
  insert s entity_id component = elim (HashMap.get s.entity_to_index entity_id) [
    | some index ↦ (do
      old ← index_at s.components index
      ok (record s { components = set s.components index component }))
    | none ↦ ok (record {
      components = s.components ++ component ∷ [];
      index_to_entity = s.index_to_entity ++ entity_id ∷ [];
      entity_to_index = HashMap.insert s.entity_to_index entity_id (length s.components);
    })
  ]

  unfoldable pub get : SparseSet T → ℕ → Result (Option T)
  unfolding index_at
  get s entity_id = elim (HashMap.get s.entity_to_index entity_id) [
    | none ↦ ok none
    | some index ↦ (do component ← index_at s.components index; ok (some component))
  ]

  -- The last component moves to `index`, with its mapping.
  unfoldable pub move_last : SparseSet T → ℕ → ℕ → Result (SparseSet T)
  unfolding swap index_at
  move_last s index last = do
    components ← swap s.components index last
    entities ← swap s.index_to_entity index last
    moved_entity ← index_at entities index
    ok (record {
      components = components;
      index_to_entity = entities;
      entity_to_index = HashMap.insert s.entity_to_index moved_entity index;
    })

  -- `index_to_entity` keeps its last element: only `components` is popped.
  unfoldable pub remove_at : SparseSet T → ℕ → Result (Option T × SparseSet T)
  unfolding move_last pop last_index
  remove_at s index = do
    last ← last_index s.components
    moved ← (if index == last then ok s else move_last s index last)
    (component, rest) ← pop moved.components last
    ok (some component, record moved { components = rest })

  unfoldable pub remove : SparseSet T → ℕ → Result (Option T × SparseSet T)
  unfolding remove_at
  remove s entity_id = elim (HashMap.get s.entity_to_index entity_id) [
    | none ↦ ok (none, s)
    | some index ↦
        remove_at (record s { entity_to_index = HashMap.remove s.entity_to_index entity_id }) index
  ]
