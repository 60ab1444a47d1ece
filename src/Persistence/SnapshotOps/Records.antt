-- ===== src/Persistence/SnapshotOps/Records.antt =====
-- ecsdb/src/persistence/snapshot.rs: the records of a snapshot's table after an operation.
use rodengine.Common.{
  ℕ, ◌+◌, ◌≤◌, ◌==◌, ==_refl, ◌≡◌, ◌⊎◌, inl, inr, refl, sym, ap, subst, ◌∙◌, ltb, le→ltb, true,
  false, some, List, [], ◌∷◌, ◌++◌, length, All, slice, length-resize, slice-resize,
  slice-splice_len, slice-splice_ne, some≢none, some-injective, Option-cases, arith,
}
use rodengine.Error.{Result, ok}
use rodengine.Storage.Buffer.{Bytes}
use rodengine.Database.Snapshot.{TableSnapshot}
use rodengine.Persistence.SnapshotOps.{
  behind, pop_slot, take_slot, copy_record, add_mapping, insert_record,
}

-- A record of the table lies in its buffer.
abbrev pub Fits : TableSnapshot → ℕ → Type 0
Fits t offset = offset + t.record_size ≤ length t.buffer_data

pop_slot-All :
    (P : ℕ → Type 0) (slots : List ℕ) (r : ℕ × List ℕ)
    → All P slots
    → pop_slot slots ≡ some r
    → P r.0
unfolding pop_slot
pop_slot-All P [] r h e = absurd cc
pop_slot-All P (slot ∷ []) r h e = subst (λ q. P q.0) (some-injective e) h.0
pop_slot-All P (slot ∷ next ∷ slots) r h e = elim (Option-cases (pop_slot (next ∷ slots))) [
  | inl missing ↦ absurd (some≢none (sym e ∙ ap (behind slot) missing))
  | inr (q, found) ↦
      subst (λ x. P x.0) (some-injective (sym (ap (behind slot) found) ∙ e))
        (pop_slot-All P (next ∷ slots) q h.1 found)
]

-- What an insertion at `offset` leaves.
pub record Stores (entity_id : ℕ) (bytes : Bytes) (t : TableSnapshot)
    (r : Result (Unit {0}) × TableSnapshot) : Type 0 where
  pub offset : ℕ
  pub succeeds : r.0 ≡ ok tt
  pub mapped : r.1.entity_mapping ≡ t.entity_mapping ++ (entity_id, offset) ∷ []
  pub stored : slice offset t.record_size r.1.buffer_data ≡ bytes
  pub others :
      (at : ℕ)
      → Fits t at
      → (at + t.record_size ≤ offset) ⊎ (offset + t.record_size ≤ at)
      → slice at t.record_size r.1.buffer_data ≡ slice at t.record_size t.buffer_data

-- A copy to a slot of a table that has the records of `t`.
add_mapping-Stores :
    (entity_id offset : ℕ) (bytes : Bytes) (t taken : TableSnapshot)
    → length bytes ≡ t.record_size
    → taken.record_size ≡ t.record_size
    → taken.entity_mapping ≡ t.entity_mapping
    → offset + t.record_size ≤ length taken.buffer_data
    → ((at : ℕ)
        → Fits t at
        → slice at t.record_size taken.buffer_data ≡ slice at t.record_size t.buffer_data)
    → Stores entity_id bytes t (add_mapping entity_id offset taken (copy_record offset bytes taken))
unfolding add_mapping copy_record
add_mapping-Stores entity_id offset bytes t taken size same mapping fits kept =
    let sized : (length bytes == taken.record_size) ≡ true =
      rw (same, size) (==_refl t.record_size) in
    let room : ltb (length taken.buffer_data) (offset + taken.record_size) ≡ false =
      le→ltb _ _ (omega (arith, fits, same)) in
    rw (sized, room)
      (record {
        offset = offset;
        succeeds = refl;
        mapped = ap (λ m. m ++ (entity_id, offset) ∷ []) mapping;
        stored = slice-splice_len offset t.record_size bytes taken.buffer_data size fits;
        others = λ at inside apart.
            slice-splice_ne offset at t.record_size bytes taken.buffer_data
              (subst (λ n. (at + t.record_size ≤ offset) ⊎ (offset + n ≤ at)) (sym size) apart)
            ∙ kept at inside;
      })

-- An insertion into a table of a snapshot whose free slots lie in its buffer succeeds if the record
-- has the table's size: the record can be read at the offset of the new mapping, and the bytes of
-- every other slot stay.
pub insert_record-Stores :
    (entity_id : ℕ) (bytes : Bytes) (t : TableSnapshot)
    → length bytes ≡ t.record_size
    → All (Fits t) t.free_slots
    → Stores entity_id bytes t (insert_record entity_id bytes t)
unfolding insert_record take_slot
insert_record-Stores entity_id bytes t size free = elim (Option-cases (pop_slot t.free_slots)) [
  | inl e ↦
      let n = length t.buffer_data + t.record_size in
      let len = length-resize t.buffer_data n 0 in
      rw e (
        add_mapping-Stores entity_id (length t.buffer_data) bytes t _ size refl refl
          (omega (arith, len))
          (λ at inside. slice-resize at t.record_size n t.buffer_data 0 inside (omega arith)))
  | inr (r, e) ↦ rw e (
      add_mapping-Stores entity_id r.0 bytes t _ size refl refl
        (pop_slot-All (Fits t) t.free_slots r free e) (λ at inside. refl))
]
