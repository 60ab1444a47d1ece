-- ===== src/Database/Batch/Rollback.antt =====
-- The rollback of a batch: the buffers of all tables are those from before the batch.
use rodengine.Common.{
  ℕ, ◌≡◌, refl, ap, ◌∙◌, sym, subst, true, false, List, [], ◌∷◌, Option, none, some, some≢none,
  ◌==◌, ==_refl, ==_iff, contains, All, Bool-cases, inl, inr,
}
use rodengine.Common.HashMap
use rodengine.Common.HashMap.{HashMap, mapped, get-insert, get-remove}
use rodengine.Error.{Result, ok, err, panic}
use rodengine.Storage.Buffer
use rodengine.Storage.Buffer.{ArcStorageBuffer, Bytes, WriteState}
use rodengine.Storage.Table
use rodengine.Storage.Table.{ComponentTable, Codec, encode, decode, check_size, offset_of}
use rodengine.Transaction.WriteQueue.{WriteOpWithoutResponse}
use rodengine.Database.{Components, State, TableHandle}
use rodengine.Database.Batch.{
  process_batch, roll_back, restore_tables, restore_table, snapshot_tables, snapshot_table,
  affected_table_ids,
}
use rodengine.Database.Batch.Kept.{restore-snapshot, restore-twice}
use rodengine.Database.Batch.Steps.{
  buffer_of, restored, Base, Steps, table_ids, apply_all-Steps, saved, get-snapshot_tables,
}
use rodengine.Database.Batch.Affected.{affected_table_ids-contains}

-- Every saved state is the one of its table.
abbrev Honest : HashMap TableHandle → HashMap WriteState → Type 0
Honest tables = All (λ (r : ℕ × WriteState). saved tables r.0 ≡ some r.1)

insert-All :
    (P : ℕ × WriteState → Type 0) (m : HashMap WriteState) (k : ℕ) (v : WriteState)
    → All P m
    → P (k, v)
    → All P (HashMap.insert m k v)
unfolding HashMap.insert
insert-All P [] k v h p = (p, tt)
insert-All P ((j, w) ∷ m) k v (a, h) p = elim (Bool-cases (j == k)) [
  | inl e ↦ rw e (p, h)
  | inr e ↦ rw e (a, insert-All P m k v h p)
]

snapshot_table-Honest :
    (tables : HashMap TableHandle) (o : Option TableHandle) (i : ℕ) (snapshots : HashMap WriteState)
    → HashMap.get tables i ≡ o
    → Honest tables snapshots
    → Honest tables (snapshot_table o i snapshots)
unfolding snapshot_table
snapshot_table-Honest tables none i snapshots e h = h
snapshot_table-Honest tables (some handle) i snapshots e h =
    insert-All (λ r. saved tables r.0 ≡ some r.1) snapshots i _ h (rw e)

snapshot_tables-Honest :
    (tables : HashMap TableHandle) (ids : List ℕ) (snapshots : HashMap WriteState)
    → Honest tables snapshots
    → Honest tables (snapshot_tables tables ids snapshots)
unfolding snapshot_tables
snapshot_tables-Honest tables [] snapshots h = h
snapshot_tables-Honest tables (i ∷ ids) snapshots h =
    snapshot_tables-Honest tables ids _
      (snapshot_table-Honest tables (HashMap.get tables i) i snapshots refl h)

module _ (old : HashMap TableHandle) (id : ℕ) where
  -- The table has its buffer from before.
  Done : HashMap TableHandle → Type 0
  Done tables = mapped buffer_of (HashMap.get tables id) ≡ mapped buffer_of (HashMap.get old id)

  restore_table-Base :
      (tables : HashMap TableHandle) (o : Option TableHandle) (k : ℕ) (w : WriteState)
      → HashMap.get tables k ≡ o
      → Base id old tables
      → Base id old (restore_table o k w tables)
  unfolding restore_table Base Table.restore_write_state
  restore_table-Base tables none k w e b v = b v
  restore_table-Base tables (some h) k w e b v = elim (Bool-cases (k == id)) [
    | inl same ↦ rw (
      get-insert tables k id (record h { table = Table.restore_write_state h.table w }),
      same,
      restore-twice,
      sym (b v),
      sym ((==_iff k id).0 same),
      e,
    )
    | inr other ↦ rw (
      get-insert tables k id (record h { table = Table.restore_write_state h.table w }),
      other,
      b v,
    )
  ]

  restored_buffer :
      (o oh : Option TableHandle) (w : WriteState)
      → mapped (restored w) o ≡ mapped (restored w) oh
      → mapped (λ (h : TableHandle). Table.snapshot_write_state h.table) oh ≡ some w
      → mapped (restored w) o ≡ mapped buffer_of oh
  unfolding Table.snapshot_write_state
  restored_buffer o none w b s = b
  restored_buffer o (some h) w b s =
      b
      ∙ ap (mapped (Buffer.restore_state h.table.buffer)) (sym s)
      ∙ ap some (restore-snapshot h.table.buffer)

  restore_table-Done :
      (tables : HashMap TableHandle) (o : Option TableHandle) (w : WriteState)
      → HashMap.get tables id ≡ o
      → Base id old tables
      → saved old id ≡ some w
      → Done (restore_table o id w tables)
  unfolding Done Base restore_table Table.restore_write_state
  restore_table-Done tables none w e b s =
      ap (mapped buffer_of) e
      ∙ ap (mapped (restored w)) (sym e)
      ∙ restored_buffer (HashMap.get tables id) (HashMap.get old id) w (b w) s
  restore_table-Done tables (some h) w e b s =
      let put : TableHandle = record h { table = Table.restore_write_state h.table w } in
      let at : HashMap.get (HashMap.insert tables id put) id ≡ some put =
        rw (get-insert tables id id put, ==_refl id) in
      ap (mapped buffer_of) at
      ∙ ap (mapped (restored w)) (sym e)
      ∙ restored_buffer (HashMap.get tables id) (HashMap.get old id) w (b w) s

  restore_table-Done_kept :
      (tables : HashMap TableHandle) (o : Option TableHandle) (k : ℕ) (w : WriteState)
      → (k == id) ≡ false
      → Done tables
      → Done (restore_table o k w tables)
  unfolding Done restore_table
  restore_table-Done_kept tables none k w e d = d
  restore_table-Done_kept tables (some h) k w e d =
      rw (get-insert tables k id (record h { table = Table.restore_write_state h.table w }), e, d)

  restore_table-Done_at :
      (tables : HashMap TableHandle) (k : ℕ) (w : WriteState)
      → (k == id) ≡ true
      → Base id old tables
      → saved old k ≡ some w
      → Done (restore_table (HashMap.get tables k) k w tables)
  restore_table-Done_at tables k w e b =
      subst (λ j. saved old j ≡ some w → Done (restore_table (HashMap.get tables j) j w tables))
        (sym ((==_iff k id).0 e)) (restore_table-Done tables (HashMap.get tables id) w refl b)

  -- A restored table stays restored, and a saved table is restored.
  restore_tables-kept :
      (snapshots : HashMap WriteState) (tables : HashMap TableHandle)
      → Honest old snapshots
      → Base id old tables
      → Done tables
      → Done (restore_tables snapshots tables)
  unfolding restore_tables
  restore_tables-kept [] tables h b d = d
  restore_tables-kept ((k, w) ∷ snapshots) tables (s, h) b d =
      restore_tables-kept snapshots _ h (restore_table-Base tables _ k w refl b)
        (elim (Bool-cases (k == id)) [
          | inl same ↦ restore_table-Done_at tables k w same b s
          | inr other ↦ restore_table-Done_kept tables _ k w other d
        ])

  restore_tables-Done :
      (snapshots : HashMap WriteState) (tables : HashMap TableHandle)
      → Honest old snapshots
      → Base id old tables
      → (HashMap.get snapshots id ≡ none → Done tables)
      → Done (restore_tables snapshots tables)
  unfolding restore_tables HashMap.get
  restore_tables-Done [] tables h b d = d refl
  restore_tables-Done ((k, w) ∷ snapshots) tables (s, h) b d = elim (Bool-cases (k == id)) [
    | inl same ↦
        restore_tables-kept snapshots _ h (restore_table-Base tables _ k w refl b)
          (restore_table-Done_at tables k w same b s)
    | inr other ↦
        restore_tables-Done snapshots _ h (restore_table-Base tables _ k w refl b)
          (λ free. restore_table-Done_kept tables _ k w other (d (rw other free)))
  ]

no_table :
    (o oh : Option TableHandle)
    → ((w : WriteState) → mapped (restored w) o ≡ mapped (restored w) oh)
    → mapped (λ (h : TableHandle). Table.snapshot_write_state h.table) oh ≡ none
    → mapped buffer_of o ≡ mapped buffer_of oh
no_table none none b s = refl
no_table (some h) none b s = absurd (some≢none (b (Table.snapshot_write_state h.table)))
no_table o (some h) b s = absurd (some≢none s)

-- After a failed batch: the registries and the buffers of all tables from before.
unfoldable pub Undone : State → Result (Unit {0}) × State → Type 0
Undone s (err e, s') =
    (s'.entity_registry ≡ s.entity_registry)
    × (s'.archetype_registry ≡ s.archetype_registry)
    × ((id : ℕ)
        → mapped buffer_of (HashMap.get s'.tables id) ≡ mapped buffer_of (HashMap.get s.tables id))
Undone s (ok u, s') = Unit {0}
Undone s (panic, s') = Unit {0}

module _ (components : Components) (ops : List WriteOpWithoutResponse) (s : State) where
  snapshots : HashMap WriteState
  snapshots = snapshot_tables s.tables (affected_table_ids ops []) []

  -- A table without a saved state is none of the batch's, or there is no such table.
  unsaved-Done :
      (id : ℕ) (s' : State)
      → Steps (table_ids ops) s s'
      → HashMap.get snapshots id ≡ none
      → Done s.tables id s'.tables
  unfolding Done Base snapshots HashMap.get
  unsaved-Done id s' steps free = elim (Bool-cases (contains (table_ids ops) id)) [
    | inl affected ↦ no_table _ _ (steps.base id) (
        sym (
          get-snapshot_tables s.tables id (affected_table_ids ops []) []
            (affected_table_ids-contains ops [] id affected) refl)
        ∙ free)
    | inr apart ↦ ap (mapped buffer_of) (steps.others id apart)
  ]

  roll_back-Undone :
      (r : Result (Unit {0}) × State)
      → Steps (table_ids ops) s r.1
      → Undone s (roll_back components snapshots s.archetype_registry r)
  unfolding roll_back Undone Done snapshots snapshot_tables
  roll_back-Undone (ok u, s') steps = tt
  roll_back-Undone (panic, s') steps = tt
  roll_back-Undone (err e, s') steps = (
    steps.same_entities,
    refl,
    λ id.
        restore_tables-Done s.tables id snapshots s'.tables
          (snapshot_tables-Honest s.tables (affected_table_ids ops []) [] tt) (steps.base id)
          (unsaved-Done id s' steps),
  )

  -- A batch that fails leaves both registries, and the buffer of every table, its read buffer, write
  -- buffer, free list and counters, as they were before the batch.
  pub process_batch-Undone : Undone s (process_batch components ops s)
  unfolding process_batch snapshots
  process_batch-Undone = roll_back-Undone _ (apply_all-Steps components ops s)
