-- ===== src/Database/Batch/Kept.antt =====
-- The operations of a table change no part of its buffer but those that a rollback overwrites.
use rodengine.Common.{
  ℕ, ◌≡◌, refl, ◌+◌, List, [], ◌∷◌, ◌==◌, Bool-cases, inl, inr, length, ltb, leb, ◌&&◌, ◌%◌, ◌*◌,
}
use rodengine.Error.{IfOk, IfOk-bind, IfOk-then}
use rodengine.Storage.Buffer
use rodengine.Storage.Buffer.{ArcStorageBuffer, Bytes, WriteState}
use rodengine.Storage.Table
use rodengine.Storage.Table.{ComponentTable, Codec, encode, decode, check_size, offset_of}

-- Two buffers that differ only in what a rollback overwrites.
abbrev pub SameBase : ArcStorageBuffer → ArcStorageBuffer → Type 0
SameBase b c = (w : WriteState) → Buffer.restore_state b w ≡ Buffer.restore_state c w

pub restore-snapshot : (b : ArcStorageBuffer) → Buffer.restore_state b (Buffer.snapshot_state b) ≡ b
unfolding Buffer.restore_state Buffer.snapshot_state
restore-snapshot b = refl

pub restore-twice :
    (b : ArcStorageBuffer) (v w : WriteState)
    → Buffer.restore_state (Buffer.restore_state b v) w ≡ Buffer.restore_state b w
unfolding Buffer.restore_state
restore-twice b v w = refl

allocate-SameBase : (free : List ℕ) (b : ArcStorageBuffer) → SameBase (Buffer.allocate free b).1 b
unfolding Buffer.allocate Buffer.allocate_end Buffer.grow Buffer.restore_state
allocate-SameBase [] b w =
    elim (Bool-cases
      (ltb (length b.write_buffer) (b.next_record_offset * b.record_size + b.record_size))) [
        | inl e ↦ rw e
        | inr e ↦ rw e
      ]
allocate-SameBase (o ∷ rest) b w = refl

free_slot-SameBase : (b : ArcStorageBuffer) (o : ℕ) → SameBase (Buffer.free_slot b o) b
unfolding Buffer.free_slot Buffer.restore_state
free_slot-SameBase b o w =
    elim (Bool-cases ((o % b.record_size == 0) && ltb o (b.next_record_offset * b.record_size))) [
      | inl e ↦ rw e
      | inr e ↦ rw e
    ]

copy_in-SameBase :
    (o : ℕ) (bytes : Bytes) (c b : ArcStorageBuffer)
    → SameBase c b
    → IfOk (λ d. SameBase d b) (Buffer.copy_in o bytes c)
unfolding Buffer.copy_in Buffer.restore_state
copy_in-SameBase o bytes c b h =
    elim (Bool-cases (leb (o + length bytes) (length c.write_buffer))) [
      | inl e ↦ rw e h
      | inr e ↦ rw e tt
    ]

counted-SameBase :
    (c b : ArcStorageBuffer)
    → SameBase c b
    → SameBase (record c { active_count = c.active_count + 1 }) b
unfolding Buffer.restore_state
counted-SameBase c b h w = h w

insert-SameBase :
    (b : ArcStorageBuffer) (bytes : Bytes) → IfOk (λ r. SameBase r.1 b) (Buffer.insert b bytes)
unfolding Buffer.insert
insert-SameBase b bytes = elim (Bool-cases (length bytes == b.record_size)) [
  | inl e ↦ rw e (
      IfOk-bind (λ c. SameBase c b) (λ r. SameBase r.1 b)
        (Buffer.copy_in (Buffer.allocate b.free_list b).0 bytes (Buffer.allocate b.free_list b).1) _
        (copy_in-SameBase _ bytes _ b (allocate-SameBase b.free_list b))
        (λ c h. counted-SameBase c b h))
  | inr e ↦ rw e tt
]

update-SameBase :
    (b : ArcStorageBuffer) (o : ℕ) (bytes : Bytes)
    → IfOk (λ c. SameBase c b) (Buffer.update b o bytes)
unfolding Buffer.update Buffer.restore_state
update-SameBase b o bytes = elim (Bool-cases (ltb (length b.write_buffer) (o + length bytes))) [
  | inl e ↦ rw e tt
  | inr e ↦ rw e (λ w. refl)
]

-- What a successful operation of a table leaves of its buffer.
abbrev pub Kept : ComponentTable → ComponentTable → Type 0
Kept t t' = SameBase t'.buffer t.buffer

module _ {T : Type 0} (codec : Codec T) (t : ComponentTable) (entity_id : ℕ) (component : T) where
  pub table_insert-Kept : IfOk (λ r. Kept t r.1) (Table.insert codec t entity_id component)
  unfolding Table.insert
  table_insert-Kept = IfOk-then _ (encode codec component) _ (λ encoded e1.
      IfOk-then _ (check_size t encoded) _ (λ bytes e2.
        IfOk-bind _ _ (Buffer.insert t.buffer bytes) _ (insert-SameBase t.buffer bytes) (λ r h. h)))

  pub table_update-Kept : IfOk (Kept t) (Table.update codec t entity_id component)
  unfolding Table.update
  table_update-Kept = IfOk-then _ (offset_of t entity_id) _ (λ offset e0.
      IfOk-then _ (encode codec component) _ (λ encoded e1.
        IfOk-then _ (check_size t encoded) _ (λ bytes e2.
          IfOk-bind _ _ (Buffer.update t.buffer offset bytes) _
            (update-SameBase t.buffer offset bytes) (λ c h. h))))

pub table_delete-Kept :
    (t : ComponentTable) (entity_id : ℕ) → IfOk (Kept t) (Table.delete t entity_id)
unfolding Table.delete
table_delete-Kept t entity_id =
    IfOk-then _ (offset_of t entity_id) _ (λ offset e. free_slot-SameBase t.buffer offset)
