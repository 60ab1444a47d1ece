-- ===== src/Tests/StorageTests.antt =====
-- A table of 2-byte records: entity 7 in slot 0, slot 1 free, entity 9 in slot 2, with the readers
-- a commit behind.
use rodengine.Common.{
  ℕ, ◌≡◌, ◌≢◌, ◌↔◌, ◌⊎◌, inl, inr, refl, [], ◌∷◌, Option, none, some, arith, if◌then◌else◌, ◌==◌,
}
use rodengine.Common.HashMap
use rodengine.Error.{ok}
use rodengine.Storage.Buffer
use rodengine.Storage.Buffer.{ArcStorageBuffer, Bytes}
use rodengine.Storage.Buffer.Slots
use rodengine.Storage.Buffer.Slots.{IsSlot, IsLive}
use rodengine.Storage.Buffer.Insert.{Inserted, insert-Inserted, free_slot-IsWf}
use rodengine.Storage.Buffer.Compaction.{Compaction, compact-Compaction}
use rodengine.Storage.Table
use rodengine.Storage.Table.{ComponentTable, Codec}
use rodengine.Storage.Table.Wf
use rodengine.Storage.Table.Wf.{stored}
use rodengine.Storage.Table.Contents.{insert-stored, update-stored}
use rodengine.Storage.Table.Moves.{
  delete-stored, compact-stored, from_stored, get-commit, get-insert_uncommitted,
}

abbrev pub buffer : ArcStorageBuffer
buffer = record {
  read_buffer = 1 ∷ 2 ∷ 0 ∷ 0 ∷ 0 ∷ 0 ∷ [];
  write_buffer = 1 ∷ 2 ∷ 3 ∷ 4 ∷ 5 ∷ 6 ∷ [];
  next_record_offset = 3;
  record_size = 2;
  generation = 1;
  free_list = 2 ∷ [];
  active_count = 2;
}

buffer-IsWf : Slots.IsWf buffer
buffer-IsWf = record {
  pos = omega arith;
  fits = omega arith;
  roomy = omega arith;
  free = (record { aligned = refl; below = omega arith }, refl, tt);
  counted = refl;
}

first-IsLive : IsLive buffer 0
first-IsLive = record { slot = record { aligned = refl; below = omega arith }; used = refl }

last-IsLive : IsLive buffer 4
last-IsLive = record { slot = record { aligned = refl; below = omega arith }; used = refl }

insert-Inserted_example :
    (o : ℕ) × (b' : ArcStorageBuffer) × (Buffer.insert buffer (8 ∷ 9 ∷ []) ≡ ok (o, b'))
    × Inserted buffer (8 ∷ 9 ∷ []) o b'
insert-Inserted_example = insert-Inserted buffer (8 ∷ 9 ∷ []) buffer-IsWf refl

free_slot-IsWf_example :
    Slots.IsWf (Buffer.free_slot buffer 4)
    × (¬ IsLive (Buffer.free_slot buffer 4) 4)
    × ((p : ℕ) → p ≢ 4 → IsLive buffer p ↔ IsLive (Buffer.free_slot buffer 4) p)
free_slot-IsWf_example = free_slot-IsWf buffer 4 buffer-IsWf last-IsLive (omega arith)

compact-Compaction_example :
    (moves : HashMap.HashMap ℕ) × (b' : ArcStorageBuffer) × (Buffer.compact buffer ≡ ok (moves, b'))
    × Compaction buffer moves b'
compact-Compaction_example = compact-Compaction buffer buffer-IsWf

abbrev pub table : ComponentTable
table = record { buffer = buffer; entity_index = (7, 0) ∷ (9, 4) ∷ [] }

index_entry :
    (e o : ℕ)
    → HashMap.get table.entity_index e ≡ some o
    → ((e ≡ 7) × (o ≡ 0)) ⊎ ((e ≡ 9) × (o ≡ 4))
unfolding HashMap.get
index_entry e o h = ground arith

table-IsWf : Wf.IsWf table
table-IsWf = record {
  buffer = buffer-IsWf;
  live = λ e o h. elim (index_entry e o h) [
    | inl (a, b) ↦ rw b first-IsLive
    | inr (a, b) ↦ rw b last-IsLive
  ];
  apart = λ e f o h k. ground (arith, index_entry e o h, index_entry f o k);
  enough = omega arith;
}

abbrev pub decode_pair : Bytes → Option (ℕ × ℕ)
decode_pair (a ∷ b ∷ []) = some (a, b)
decode_pair [] = none
decode_pair (a ∷ []) = none
decode_pair (a ∷ b ∷ c ∷ bytes) = none

abbrev pub codec : Codec (ℕ × ℕ)
codec = record { serialize = λ c. some (c.0 ∷ c.1 ∷ []); deserialize = decode_pair }

insert-stored_example :
    (o : ℕ) × (t' : ComponentTable) × (Table.insert codec table 5 (8, 9) ≡ ok (o, t'))
    × Wf.IsWf t'
    × ((f : ℕ) → stored t' f ≡ (if 5 == f then some (8 ∷ 9 ∷ []) else stored table f))
insert-stored_example = insert-stored codec table 5 (8, 9) (8 ∷ 9 ∷ []) table-IsWf refl refl

at_nine : HashMap.get table.entity_index 9 ≡ some 4
unfolding HashMap.get
at_nine = refl

update-stored_example :
    (t' : ComponentTable) × (Table.update codec table 9 (8, 9) ≡ ok t')
    × Wf.IsWf t'
    × ((f : ℕ) → stored t' f ≡ (if 9 == f then some (8 ∷ 9 ∷ []) else stored table f))
update-stored_example =
    update-stored codec table 9 4 (8, 9) (8 ∷ 9 ∷ []) table-IsWf at_nine refl refl

delete-stored_example :
    (t' : ComponentTable) × (Table.delete table 9 ≡ ok t')
    × Wf.IsWf t'
    × ((f : ℕ) → stored t' f ≡ (if 9 == f then none else stored table f))
delete-stored_example = delete-stored table 9 4 table-IsWf at_nine

compact-stored_example :
    (t' : ComponentTable) × (Table.compact table ≡ ok t')
    × Wf.IsWf t'
    × ((f : ℕ) → stored t' f ≡ stored table f)
compact-stored_example = compact-stored table table-IsWf

get-commit_example : Table.get codec (Table.commit table) 9 ≡ from_stored codec 9 (stored table 9)
get-commit_example = get-commit codec table 9 table-IsWf

get-insert_uncommitted_example :
    (o : ℕ) × (t' : ComponentTable) × (Table.insert codec table 5 (8, 9) ≡ ok (o, t'))
    × ((f : ℕ) → 5 ≢ f → Table.get codec t' f ≡ Table.get codec table f)
get-insert_uncommitted_example =
    get-insert_uncommitted codec table 5 (8, 9) (8 ∷ 9 ∷ []) table-IsWf refl refl
