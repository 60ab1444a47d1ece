-- ===== src/Tests/FileTests.antt =====
-- Three entries in a log whose files are full after one, and a table of a snapshot with a free slot.
use rodengine.Common.{ℕ, ◌≡◌, refl, inl, Option, none, some, List, [], ◌∷◌, arith}
use rodengine.Error.{ok}
use rodengine.Database.Snapshot.{TableSnapshot}
use rodengine.Persistence.SnapshotOps.{insert_record}
use rodengine.Persistence.SnapshotOps.Records.{Stores, insert_record-Stores}
use rodengine.Transaction.Wal.{WalEntry, WalOp}
use rodengine.Persistence.FileWal.{EntryCodec, FileWal, read_entries_from_files}
use rodengine.Persistence.FileWal.Reading.{append_all, append_all-reads}

abbrev entry : ℕ → WalEntry
entry id = record {
  timestamp = 0;
  transaction_id = id;
  sequence = 0;
  operation = WalOp.commit id;
  checksum = 0;
}

abbrev read : List ℕ → Option WalEntry
read [] = none
read (id ∷ bytes) = some (entry id)

abbrev codec : EntryCodec
codec = record { serialize = λ (e : WalEntry). some (e.transaction_id ∷ []); deserialize = read }

abbrev log : FileWal
log = record {
  dir = [];
  max_file_size = 33;
  current_file = none;
  current_file_id = 1;
  current_file_size = 0;
  next_transaction_id = 1;
  entries = [];
}

abbrev entries : List WalEntry
entries = entry 4 ∷ entry 5 ∷ entry 6 ∷ []

append_all-reads_example :
    ((append_all codec entries log).0 ≡ ok tt)
    × (read_entries_from_files codec (append_all codec entries log).1.dir ≡ ok entries)
append_all-reads_example =
    append_all-reads codec entries log
      (inl (record {
        groups = [];
        dir = refl;
        entries = refl;
        readable = tt;
        file = refl;
        size = refl;
        below = tt;
      }))
      (omega arith)
      (
        (4 ∷ [], refl, (refl, omega arith)),
        ((5 ∷ [], refl, (refl, omega arith)), ((6 ∷ [], refl, (refl, omega arith)), tt)),
      )

abbrev table : TableSnapshot
table = record {
  table_id = 4;
  record_size = 2;
  buffer_data = 1 ∷ 2 ∷ 3 ∷ 4 ∷ [];
  entity_mapping = (7, 0) ∷ [];
  free_slots = 2 ∷ [];
  table_name = "position";
  active_count = 1;
}

insert_record-Stores_example : Stores 9 (8 ∷ 9 ∷ []) table (insert_record 9 (8 ∷ 9 ∷ []) table)
insert_record-Stores_example = insert_record-Stores 9 (8 ∷ 9 ∷ []) table refl (omega arith, tt)
