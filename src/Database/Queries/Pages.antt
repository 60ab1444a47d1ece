-- ===== src/Database/Queries/Pages.antt =====
-- ecsdb/src/db.rs: the pages of a table's entities.
use rodengine.Common.{
  ℕ, ◌+◌, ◌-◌, ◌%◌, ◌^◌, ◌<◌, ltb, false, arith, ◌≡◌, refl, ap, min, List, [], ◌∷◌, map, length,
  slice, some,
}
use rodengine.Common.HashMap
use rodengine.Common.HashMap.{HashMap}
use rodengine.Error.{IfOk, IfOk-then, IfOk-bind}
use rodengine.Storage.Buffer.{Bytes}
use rodengine.Storage.Table.{ComponentTable}
use rodengine.Database.{Components, State, TableHandle, handle_get}
use rodengine.Database.Queries.{get_each, get_entities_for_table}

module _ (components : Components) where
  get_each-entities :
      (table_id : ℕ) (table : ComponentTable) (mapping : HashMap ℕ)
      → IfOk
          (λ (r : List (ℕ × Bytes)).
            map (λ (x : ℕ × Bytes). x.0) r ≡ map (λ (x : ℕ × ℕ). x.0) mapping)
          (get_each components table_id table mapping)
  unfolding get_each
  get_each-entities table_id table [] = refl
  get_each-entities table_id table ((entity_id, offset) ∷ mapping) =
      IfOk-then _ (handle_get components table_id table entity_id) _ (λ bytes e.
        IfOk-bind _ _ (get_each components table_id table mapping) _
          (get_each-entities table_id table mapping) (λ rest h. ap (◌∷◌ entity_id) h))

  -- A page that is returned has the entities of the table's index from `offset` on, at most `limit`
  -- of them. (Their sum is below 2 ^ 64: a larger one wraps in the source.)
  pub get_entities_for_table-page :
      (s : State) (table_id limit offset : ℕ) (handle : TableHandle)
      → HashMap.get s.tables table_id ≡ some handle
      → offset + limit < 2 ^ 64
      → IfOk
          (λ (r : List (ℕ × Bytes)).
            let mapping = handle.table.entity_index in
            let start = min offset (length mapping) in
            map (λ (x : ℕ × Bytes). x.0) r
            ≡ map
                (λ (x : ℕ × ℕ). x.0)
                (slice start (min (offset + limit) (length mapping) - start) mapping))
          (get_entities_for_table components s table_id limit offset)
  unfolding get_entities_for_table
  get_entities_for_table-page s table_id limit offset handle e fits =
      let mapping = handle.table.entity_index in
      let exact : (offset + limit) % 2 ^ 64 ≡ offset + limit = omega (arith, fits) in
      let ordered : ltb (min (offset + limit) (length mapping)) (min offset (length mapping))
          ≡ false =
        ground arith in
      rw (e, exact, ordered) (get_each-entities table_id handle.table _)
