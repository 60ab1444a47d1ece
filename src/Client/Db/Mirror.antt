-- ===== src/Client/Db/Mirror.antt =====
-- ecsdb_client/src/client_db.rs and ecsdb/src/db.rs: the client's records after a commit of the server.
use rodengine.Common.{
  ℕ, ◌≡◌, ◌≢◌, refl, sym, ap, ◌∙◌, ◌==◌, ==_iff, ◌⊎◌, inl, inr, false, Option, none, some,
  some≢none, List, [], ◌∷◌, ◌++◌, if◌then◌else◌, All, Bool-cases, Option-cases, arith,
}
use rodengine.Common.HashMap
use rodengine.Common.HashMap.{HashMap, get-insert, get-remove}
use rodengine.Storage.Buffer.{Bytes}
use rodengine.Storage.Delta
use rodengine.Storage.Delta.{Delta, DeltaOp}
use rodengine.Transaction.WriteQueue.{WriteOpWithoutResponse, insert, update, delete}
use rodengine.Database.{Components, State}
use rodengine.Database.Commit.{old_data, delta_op, deltas}
use rodengine.Client.Db.{
  ClientDb, table_or_new, row, update_table, apply_op, apply_ops, apply_delta, stored,
}

-- What an operation writes: nothing after a deletion.
abbrev pub table_of : WriteOpWithoutResponse → ℕ
table_of (insert t e b) = t
table_of (update t e b) = t
table_of (delete t e) = t

abbrev pub entity_of : WriteOpWithoutResponse → ℕ
entity_of (insert t e b) = e
entity_of (update t e b) = e
entity_of (delete t e) = e

abbrev pub written_by : WriteOpWithoutResponse → Option Bytes
written_by (insert t e b) = some b
written_by (update t e b) = some b
written_by (delete t e) = none

abbrev pub written : WriteOpWithoutResponse → ℕ → ℕ → Option Bytes → Option Bytes
written op t e old =
    if table_of op == t then (if entity_of op == e then written_by op else old) else old

-- The records that the operations leave, in their order, of one that was `old`.
abbrev pub all_written : List WriteOpWithoutResponse → ℕ → ℕ → Option Bytes → Option Bytes
all_written [] t e old = old
all_written (op ∷ ops) t e old = all_written ops t e (written op t e old)

row-table_or_new : (o : Option (HashMap Bytes)) (e : ℕ) → HashMap.get (table_or_new o) e ≡ row o e
unfolding HashMap.get
row-table_or_new none e = refl
row-table_or_new (some table) e = refl

-- What a table with one record written shows, where `o` is the table before.
row-written :
    (tables : HashMap (HashMap Bytes)) (new : HashMap Bytes) (t e : ℕ) (w : Option Bytes)
    (t' e' : ℕ)
    → ((k : ℕ) → HashMap.get new k ≡ (if e == k then w else row (HashMap.get tables t) k))
    → row (HashMap.get (HashMap.insert tables t new) t') e' ≡ (
        if t == t'
        then (if e == e' then w else row (HashMap.get tables t') e')
        else row (HashMap.get tables t') e')
row-written tables new t e w t' e' h = elim (Bool-cases (t == t')) [
  | inl p ↦
      let same = (==_iff t t').0 p in
      rw (get-insert tables t t' new, p, h e')
        (ap (λ k. if e == e' then w else row (HashMap.get tables k) e') same)
  | inr p ↦ rw (get-insert tables t t' new, p) refl
]

stored-insert :
    (c : ClientDb) (t e : ℕ) (b : Bytes) (t' e' : ℕ)
    → stored (apply_op (DeltaOp.insert t e b) c) t' e'
      ≡ written (insert t e b) t' e' (stored c t' e')
unfolding stored apply_op
stored-insert c t e b t' e' = row-written c.tables _ t e (some b) t' e' (λ k.
    get-insert (table_or_new (HashMap.get c.tables t)) e k b
    ∙ ap (λ o. if e == k then some b else o) (row-table_or_new (HashMap.get c.tables t) k))

-- A known record is written or removed in its table.
stored-update :
    (c : ClientDb) (t e : ℕ) (n : ℕ) (old : Bytes) (old' b : Bytes) (t' e' : ℕ)
    → stored c t e ≡ some old
    → stored (apply_op (DeltaOp.update t e n old' b) c) t' e'
      ≡ written (update t e b) t' e' (stored c t' e')
unfolding stored apply_op update_table
stored-update c t e n old old' b t' e' h = elim (Option-cases (HashMap.get c.tables t)) [
  | inl p ↦ absurd (some≢none (sym h ∙ ap (λ o. row o e) p))
  | inr (table, p) ↦
      rw (p, update_table)
        (row-written c.tables _ t e (some b) t' e'
          (λ k. get-insert table e k b ∙ ap (λ o. if e == k then some b else row o k) (sym p)))
]

stored-delete :
    (c : ClientDb) (t e : ℕ) (old old' : Bytes) (t' e' : ℕ)
    → stored c t e ≡ some old
    → stored (apply_op (DeltaOp.delete t e old') c) t' e'
      ≡ written (delete t e) t' e' (stored c t' e')
unfolding stored apply_op update_table
stored-delete c t e old old' t' e' h = elim (Option-cases (HashMap.get c.tables t)) [
  | inl p ↦ absurd (some≢none (sym h ∙ ap (λ o. row o e) p))
  | inr (table, p) ↦
      rw (p, update_table)
        (row-written c.tables _ t e none t' e'
          (λ k. get-remove table e k ∙ ap (λ o. if e == k then none else row o k) (sym p)))
]

apply_ops-append :
    (xs : List DeltaOp) (op : DeltaOp) (c : ClientDb)
    → apply_ops (xs ++ op ∷ []) c ≡ apply_op op (apply_ops xs c)
unfolding apply_ops
apply_ops-append [] op c = refl
apply_ops-append (x ∷ xs) op c = apply_ops-append xs op (apply_op x c)

-- Nothing to delete.
delete_absent :
    (c : ClientDb) (t e t' e' : ℕ)
    → stored c t e ≡ none
    → stored c t' e' ≡ written (delete t e) t' e' (stored c t' e')
delete_absent c t e t' e' h = elim (Bool-cases (t == t')) [
  | inl p ↦ elim (Bool-cases (e == e')) [
    | inl q ↦
        rw (p, q)
          (ap (λ k. stored c k e') (sym ((==_iff t t').0 p))
            ∙ ap (stored c t) (sym ((==_iff e e').0 q))
            ∙ h)
    | inr q ↦ rw (p, q) refl
  ]
  | inr p ↦ rw p refl
]

module _ (components : Components) (s : State) where
  -- The server has the table of the operation, and the client the server's record.
  abbrev pub Mirrors : ClientDb → WriteOpWithoutResponse → Type 0
  Mirrors c op =
      old_data components s (table_of op) (entity_of op)
      ≡ some (stored c (table_of op) (entity_of op))

  delta_op-written :
      (c : ClientDb) (op : WriteOpWithoutResponse) (d : Delta) (t e : ℕ)
      → Mirrors (apply_ops d.ops c) op
      → stored (apply_ops (delta_op components s op d).ops c) t e
        ≡ written op t e (stored (apply_ops d.ops c) t e)
  unfolding delta_op Delta.record_insert Delta.record_update Delta.record_delete
  delta_op-written c (insert t e b) d t' e' h =
      ap (λ x. stored x t' e') (apply_ops-append d.ops (DeltaOp.insert t e b) c)
      ∙ stored-insert (apply_ops d.ops c) t e b t' e'
  delta_op-written c (update t e b) d t' e' h =
      elim (Option-cases (stored (apply_ops d.ops c) t e)) [
        | inl p ↦
            rw (h ∙ ap some p, delta_op, apply_ops-append d.ops)
              (stored-insert (apply_ops d.ops c) t e b t' e')
        | inr (old, p) ↦
            rw (h ∙ ap some p, delta_op, apply_ops-append d.ops)
              (stored-update (apply_ops d.ops c) t e 0 old old b t' e' p)
      ]
  delta_op-written c (delete t e) d t' e' h = elim (Option-cases (stored (apply_ops d.ops c) t e)) [
    | inl p ↦ rw (h ∙ ap some p, delta_op) (delete_absent (apply_ops d.ops c) t e t' e' p)
    | inr (old, p) ↦
        rw (h ∙ ap some p, delta_op, apply_ops-append d.ops)
          (stored-delete (apply_ops d.ops c) t e old old t' e' p)
  ]

-- Two operations are on different records.
abbrev pub Apart : WriteOpWithoutResponse → WriteOpWithoutResponse → Type 0
Apart a b = (table_of a ≢ table_of b) ⊎ (entity_of a ≢ entity_of b)

abbrev pub Separate : List WriteOpWithoutResponse → Type 0
Separate [] = Unit {0}
Separate (op ∷ ops) = All (Apart op) ops × Separate ops

differs : (m n : ℕ) → m ≢ n → (m == n) ≡ false
differs m n h = ground arith

written-Apart :
    (a b : WriteOpWithoutResponse) (old : Option Bytes)
    → Apart a b
    → written a (table_of b) (entity_of b) old ≡ old
written-Apart a b old (inl h) = rw (differs (table_of a) (table_of b) h) refl
written-Apart a b old (inr h) = elim (Bool-cases (table_of a == table_of b)) [
  | inl p ↦ rw (p, differs (entity_of a) (entity_of b) h) refl
  | inr p ↦ rw p refl
]

module _ (components : Components) (s : State) where
  All-Mirrors :
      (before after : ClientDb) (op : WriteOpWithoutResponse) (ops : List WriteOpWithoutResponse)
      → ((t e : ℕ) → stored after t e ≡ written op t e (stored before t e))
      → All (Apart op) ops
      → All (Mirrors components s before) ops
      → All (Mirrors components s after) ops
  All-Mirrors before after op [] h apart k = tt
  All-Mirrors before after op (x ∷ ops) h (p, apart) (m, k) = (
    m ∙ ap some (sym (h (table_of x) (entity_of x) ∙ written-Apart op x _ p)),
    All-Mirrors before after op ops h apart k,
  )

  deltas-written :
      (c : ClientDb) (ops : List WriteOpWithoutResponse) (d : Delta) (t e : ℕ)
      → All (Mirrors components s (apply_ops d.ops c)) ops
      → Separate ops
      → stored (apply_ops (deltas components s ops d).ops c) t e
        ≡ all_written ops t e (stored (apply_ops d.ops c) t e)
  unfolding deltas
  deltas-written c [] d t e m h = refl
  deltas-written c (op ∷ ops) d t e m (apart, h) =
      let d' = delta_op components s op d in
      let step : (i j : ℕ)
          → stored (apply_ops d'.ops c) i j ≡ written op i j (stored (apply_ops d.ops c) i j) =
        λ i j. delta_op-written components s c op d i j m.0 in
      deltas-written c ops d' t e
        (All-Mirrors (apply_ops d.ops c) (apply_ops d'.ops c) op ops step apart m.1) h
      ∙ ap (all_written ops t e) (step t e)

-- A client that has the records which the server has before a commit, for the operations of the
-- batch, has after the commit's delta what these operations write, in their order, and its other
-- records unchanged. (The server knows the tables, and no two operations of the batch are on the
-- same record: the delta's old records are read before the batch.)
pub apply_delta-written :
    (components : Components) (s : State) (c : ClientDb) (ops : List WriteOpWithoutResponse)
    (version timestamp t e : ℕ)
    → All (Mirrors components s c) ops
    → Separate ops
    → stored (apply_delta c (deltas components s ops (Delta.new version timestamp))) t e
      ≡ all_written ops t e (stored c t e)
unfolding apply_delta apply_ops stored Delta.new
apply_delta-written components s c ops version timestamp t e m h =
    deltas-written components s c ops (Delta.new version timestamp) t e m h
