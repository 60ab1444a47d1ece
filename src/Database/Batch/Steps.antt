-- ===== src/Database/Batch/Steps.antt =====
-- What a batch does before a rollback: each table keeps its base, and each affected table is saved.
use rodengine.Common.{
  ℕ, ◌≡◌, refl, ◌∙◌, sym, subst, true, false, List, [], ◌∷◌, Option, none, some, ◌==◌, ==_refl,
  ==_iff, contains, ◌||◌, ◌⊎◌, or-false_left, or-false_right, true≢false, Bool-cases, inl, inr,
}
use rodengine.Common.HashMap
use rodengine.Common.HashMap.{HashMap, mapped, get-insert, get-remove}
use rodengine.Error.{ok, IfOk, IfOk-bind, IfOk-then, IfOk-ok, ok_or-ok, Result-cases}
use rodengine.Storage.Buffer
use rodengine.Storage.Buffer.{ArcStorageBuffer, Bytes, WriteState}
use rodengine.Storage.Table
use rodengine.Storage.Table.{ComponentTable, Codec, encode, decode, check_size, offset_of}
use rodengine.Transaction.WriteQueue.{WriteOpWithoutResponse, insert, update, delete}
use rodengine.Entity.Archetype.{ArchetypeRegistry}
use rodengine.Database.{
  Components, State, TableHandle, apply_write_op, handle_insert, handle_update, find_table,
  put_table, require_entity, validate_foreign_keys,
}
use rodengine.Database.Batch.{apply_all, snapshot_tables, snapshot_table, table_id_of}
use rodengine.Database.Batch.Kept.{Kept, table_insert-Kept, table_update-Kept, table_delete-Kept}

abbrev pub buffer_of : TableHandle → ArcStorageBuffer
buffer_of h = h.table.buffer

abbrev pub restored : WriteState → TableHandle → ArcStorageBuffer
restored w h = Buffer.restore_state h.table.buffer w

-- One table, before and after a part of the batch.
module _ (id : ℕ) where
  unfoldable pub Base : HashMap TableHandle → HashMap TableHandle → Type 0
  Base old new =
      (w : WriteState)
      → mapped (restored w) (HashMap.get new id) ≡ mapped (restored w) (HashMap.get old id)

  put-Base :
      (s : State) (table_id : ℕ) (h : TableHandle) (t : ComponentTable)
      → HashMap.get s.tables table_id ≡ some h
      → Kept h.table t
      → Base s.tables (put_table s table_id h t).tables
  unfolding Base put_table
  put-Base s table_id h t e k w = elim (Bool-cases (table_id == id)) [
    | inl same ↦
        rw (get-insert s.tables table_id id _, same, sym ((==_iff table_id id).0 same), e, k w)
    | inr other ↦ rw (get-insert s.tables table_id id _, other)
  ]

-- After an operation: the entities are the same, each table is the same up to what a rollback
-- overwrites, and the tables of other operations are the same.
pub record Step (table_id : ℕ) (old new : State) : Type 0 where
  pub same_entities : new.entity_registry ≡ old.entity_registry
  pub base : (id : ℕ) → Base id old.tables new.tables
  pub others :
      (id : ℕ) → (table_id == id) ≡ false → HashMap.get new.tables id ≡ HashMap.get old.tables id

find_table-get :
    (s : State) (table_id entity_id : ℕ) (h : TableHandle)
    → find_table s table_id entity_id ≡ ok h
    → HashMap.get s.tables table_id ≡ some h
unfolding find_table
find_table-get s table_id entity_id h e = ok_or-ok (HashMap.get s.tables table_id) _ h e

put-Step :
    (s : State) (table_id entity_id : ℕ) (h : TableHandle) (t : ComponentTable)
    (a : ArchetypeRegistry)
    → find_table s table_id entity_id ≡ ok h
    → Kept h.table t
    → Step table_id s (record (put_table s table_id h t) { archetype_registry = a })
unfolding put_table
put-Step s table_id entity_id h t a e k = record {
  same_entities = refl;
  base = λ id. put-Base id s table_id h t (find_table-get s table_id entity_id h e) k;
  others = λ id ne. rw (get-insert s.tables table_id id _, ne);
}

module _ (components : Components) where
  apply_write_op-Step :
      (op : WriteOpWithoutResponse) (s : State)
      → IfOk (Step (table_id_of op) s) (apply_write_op components op s)
  unfolding apply_write_op table_id_of handle_insert handle_update
  apply_write_op-Step (insert table_id entity_id bytes) s =
      IfOk-then _ (require_entity s.entity_registry entity_id) _ (λ present e1.
        IfOk-then _ (find_table s table_id entity_id) _ (λ h found.
          IfOk-then _ (validate_foreign_keys s.entity_registry h.fields bytes) _ (λ valid e2.
            IfOk-bind (Kept h.table) _ (handle_insert components table_id h.table entity_id bytes) _
              (IfOk-then _ (decode (components.codec table_id) bytes) _ (λ component e3.
                IfOk-bind (λ r. Kept h.table r.1) (Kept h.table)
                  (Table.insert (components.codec table_id) h.table entity_id component) _
                  (table_insert-Kept (components.codec table_id) h.table entity_id component)
                  (λ r k. k)))
              (λ t k. put-Step s table_id entity_id h t _ found k))))
  apply_write_op-Step (update table_id entity_id bytes) s =
      IfOk-then _ (require_entity s.entity_registry entity_id) _ (λ present e1.
        IfOk-then _ (find_table s table_id entity_id) _ (λ h found.
          IfOk-then _ (validate_foreign_keys s.entity_registry h.fields bytes) _ (λ valid e2.
            IfOk-bind (Kept h.table) _ (handle_update components table_id h.table entity_id bytes) _
              (IfOk-then _ (decode (components.codec table_id) bytes) _ (λ component e3.
                table_update-Kept (components.codec table_id) h.table entity_id component))
              (λ t k. put-Step s table_id entity_id h t s.archetype_registry found k))))
  apply_write_op-Step (delete table_id entity_id) s =
      IfOk-then _ (find_table s table_id entity_id) _ (λ h found.
        IfOk-bind (Kept h.table) _ (Table.delete h.table entity_id) _
          (table_delete-Kept h.table entity_id)
          (λ t k. put-Step s table_id entity_id h t _ found k))

-- After a part of a batch: as after an operation, for the tables of all its operations.
pub record Steps (ids : List ℕ) (old new : State) : Type 0 where
  pub same_entities : new.entity_registry ≡ old.entity_registry
  pub base : (id : ℕ) → Base id old.tables new.tables
  pub others :
      (id : ℕ) → contains ids id ≡ false → HashMap.get new.tables id ≡ HashMap.get old.tables id

unfoldable pub table_ids : List WriteOpWithoutResponse → List ℕ
table_ids [] = []
table_ids (op ∷ ops) = table_id_of op ∷ table_ids ops

Steps-none : (ids : List ℕ) (s : State) → Steps ids s s
unfolding Base
Steps-none ids s = record { same_entities = refl; base = λ id w. refl; others = λ id e. refl }

Steps-cons :
    (table_id : ℕ) (ids : List ℕ) (a b c : State)
    → Step table_id a b
    → Steps ids b c
    → Steps (table_id ∷ ids) a c
unfolding Base
Steps-cons table_id ids a b c one rest = record {
  same_entities = rest.same_entities ∙ one.same_entities;
  base = λ id w. rest.base id w ∙ one.base id w;
  others = λ id e.
      rest.others id (or-false_right (table_id == id) (contains ids id) e)
      ∙ one.others id (or-false_left (table_id == id) (contains ids id) e);
}

module _ (components : Components) where
  pub apply_all-Steps :
      (ops : List WriteOpWithoutResponse) (s : State)
      → Steps (table_ids ops) s (apply_all components ops s).1
  unfolding apply_all table_ids
  apply_all-Steps [] s = Steps-none [] s
  apply_all-Steps (op ∷ ops) s = elim (Result-cases (apply_write_op components op s)) [
    | inl (s', e) ↦
        rw (e, apply_all)
          (Steps-cons (table_id_of op) (table_ids ops) s s' _
            (IfOk-ok (Step (table_id_of op) s) _ s' (apply_write_op-Step components op s) e)
            (apply_all-Steps ops s'))
    | inr (inl (x, e)) ↦ rw (e, apply_all) (Steps-none _ s)
    | inr (inr e) ↦ rw (e, apply_all) (Steps-none _ s)
  ]

-- The tables whose state is saved, with what is saved of them.
abbrev pub saved : HashMap TableHandle → ℕ → Option WriteState
saved tables id =
    mapped (λ (h : TableHandle). Table.snapshot_write_state h.table) (HashMap.get tables id)

module _ (tables : HashMap TableHandle) (id : ℕ) where
  -- Saving one table.
  snapshot_table-same :
      (snapshots : HashMap WriteState) (o : Option TableHandle)
      → HashMap.get tables id ≡ o
      → (HashMap.get snapshots id ≡ none) ⊎ (HashMap.get snapshots id ≡ saved tables id)
      → HashMap.get (snapshot_table o id snapshots) id ≡ saved tables id
  unfolding snapshot_table
  snapshot_table-same snapshots none e (inl h) = rw e h
  snapshot_table-same snapshots none e (inr h) = h
  snapshot_table-same snapshots (some handle) e h =
      rw (get-insert snapshots id id (Table.snapshot_write_state handle.table), ==_refl id, e)

  snapshot_table-other :
      (snapshots : HashMap WriteState) (o : Option TableHandle) (i : ℕ)
      → (i == id) ≡ false
      → HashMap.get (snapshot_table o i snapshots) id ≡ HashMap.get snapshots id
  unfolding snapshot_table
  snapshot_table-other snapshots none i e = refl
  snapshot_table-other snapshots (some handle) i e =
      rw (get-insert snapshots i id (Table.snapshot_write_state handle.table), e)

  snapshot_table-saved :
      (snapshots : HashMap WriteState) (i : ℕ)
      → (i == id) ≡ true
      → (HashMap.get snapshots id ≡ none) ⊎ (HashMap.get snapshots id ≡ saved tables id)
      → HashMap.get (snapshot_table (HashMap.get tables i) i snapshots) id ≡ saved tables id
  snapshot_table-saved snapshots i e h =
      subst
        (λ j. HashMap.get (snapshot_table (HashMap.get tables j) j snapshots) id ≡ saved tables id)
        (sym ((==_iff i id).0 e)) (snapshot_table-same snapshots (HashMap.get tables id) refl h)

  -- Saving more tables keeps a table that is saved.
  snapshot_tables-kept :
      (ids : List ℕ) (snapshots : HashMap WriteState)
      → HashMap.get snapshots id ≡ saved tables id
      → HashMap.get (snapshot_tables tables ids snapshots) id ≡ saved tables id
  unfolding snapshot_tables
  snapshot_tables-kept [] snapshots h = h
  snapshot_tables-kept (i ∷ ids) snapshots h =
      snapshot_tables-kept ids _ (elim (Bool-cases (i == id)) [
        | inl same ↦ snapshot_table-saved snapshots i same (inr h)
        | inr other ↦ snapshot_table-other snapshots (HashMap.get tables i) i other ∙ h
      ])

  pub get-snapshot_tables :
      (ids : List ℕ) (snapshots : HashMap WriteState)
      → contains ids id ≡ true
      → HashMap.get snapshots id ≡ none
      → HashMap.get (snapshot_tables tables ids snapshots) id ≡ saved tables id
  unfolding snapshot_tables
  get-snapshot_tables [] snapshots h fresh = absurd (true≢false (sym h))
  get-snapshot_tables (i ∷ ids) snapshots h fresh = elim (Bool-cases (i == id)) [
    | inl same ↦ snapshot_tables-kept ids _ (snapshot_table-saved snapshots i same (inl fresh))
    | inr other ↦
        get-snapshot_tables ids _ (subst (λ b. (b || contains ids id) ≡ true) other h)
          (snapshot_table-other snapshots (HashMap.get tables i) i other ∙ fresh)
  ]
