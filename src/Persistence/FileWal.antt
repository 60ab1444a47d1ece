-- ===== src/Persistence/FileWal.antt =====
-- ecsdb/src/persistence/file_wal.rs: the log on disk. The directory is the list of its log files, by
-- ascending ID, with their bytes; a file that is named otherwise is none of them. Operations of the
-- file system succeed, and what is written is in the file at once. The serialization of an entry
-- (bincode) is a parameter.
pub mod Image
pub mod Reading
pub mod Writing
use rodengine.Common.{
  ℕ, zero, suc, ◌+◌, ◌-◌, ◌*◌, ◌/◌, ◌%◌, ◌^◌, ◌==◌, ltb, leb, max, min, Bool, true, false, Option,
  none, some, List, [], ◌∷◌, ◌++◌, length, take, drop, replicate, if◌then◌else◌,
}
use rodengine.Error.{Result, ok, err, panic, ◌>>=◌, ok_or, io_error, wal_error, serialization_error}
use rodengine.Transaction.Wal.{WalEntry, WalOp, WalEnv, new_entry, entries_for}
use rodengine.Replication.Frame.{equal_bytes}

abbrev pub wal_magic : List ℕ
wal_magic = 69 ∷ 67 ∷ 83 ∷ 87 ∷ 65 ∷ 76 ∷ 0 ∷ 0 ∷ []

abbrev pub wal_version : ℕ
wal_version = 1

abbrev pub header_size : ℕ
header_size = 32

-- `to_le_bytes` and `from_le_bytes` of a `u32`.
unfoldable pub u32_bytes : ℕ → List ℕ
u32_bytes n = n % 256 ∷ n / 256 % 256 ∷ n / 65536 % 256 ∷ n / 16777216 % 256 ∷ []

unfoldable pub u32_of : ℕ → ℕ → ℕ → ℕ → ℕ
u32_of a b c d = a + b * 256 + c * 65536 + d * 16777216

-- `WalFileHeader::write` of a new header.
unfoldable pub header : List ℕ
unfolding u32_bytes
header = wal_magic ++ u32_bytes wal_version ++ u32_bytes 0 ++ replicate 16 0

-- The checks of `WalFileHeader::read`, with what follows the magic number; the flags and the
-- reserved bytes are not checked.
unfoldable pub check_version : List ℕ → Result (Unit {0})
unfolding u32_of
check_version (a ∷ b ∷ c ∷ d ∷ bytes) =
    if u32_of a b c d == wal_version then ok tt else err (wal_error "Unsupported WAL version")
check_version bytes = err io_error

unfoldable pub read_header : List ℕ → Result (Unit {0})
unfolding check_version
read_header bytes =
    if ltb (length bytes) header_size
    then err io_error
    else if equal_bytes (take 8 bytes) wal_magic
    then check_version (drop 8 bytes)
    else err (wal_error "Invalid WAL magic")

-- bincode on entries.
pub record EntryCodec : Type 0 where
  pub serialize : WalEntry → Option (List ℕ)
  pub deserialize : List ℕ → Option WalEntry

pub record FileWal : Type 0 where
  pub dir : List (ℕ × List ℕ)
  pub max_file_size : ℕ
  -- The ID of the file that is written to.
  pub current_file : Option ℕ
  pub current_file_id : ℕ
  pub current_file_size : ℕ
  pub next_transaction_id : ℕ
  pub entries : List WalEntry

-- Bytes appended to a file, which is created if it is not there.
unfoldable pub append_to : List (ℕ × List ℕ) → ℕ → List ℕ → List (ℕ × List ℕ)
append_to [] id bytes = (id, bytes) ∷ []
append_to ((j, old) ∷ files) id bytes =
    let rest = append_to files id bytes in
    if j == id
    then (j, old ++ bytes) ∷ files
    else if ltb id j
    then (id, bytes) ∷ (j, old) ∷ files
    else (j, old) ∷ rest

-- `ensure_file_open`, with the file that is open.
unfoldable pub ensure_open : Option ℕ → FileWal → FileWal
ensure_open (some id) w = w
ensure_open none w =
    if w.current_file_size == 0
    then record w {
      dir = append_to w.dir w.current_file_id header;
      current_file_size = header_size;
      current_file = some w.current_file_id;
    }
    else record w {
      dir = append_to w.dir w.current_file_id [];
      current_file = some w.current_file_id;
    }

unfoldable pub ensure_file_open : FileWal → FileWal
unfolding ensure_open
ensure_file_open w = ensure_open w.current_file w

unfoldable pub maybe_rotate : FileWal → FileWal
unfolding ensure_file_open
maybe_rotate w =
    if leb w.max_file_size w.current_file_size
    then ensure_file_open (record w {
      current_file = none;
      current_file_id = (w.current_file_id + 1) % 2 ^ 64;
      current_file_size = 0;
    })
    else w

unfoldable pub max_transaction_id : List WalEntry → ℕ
max_transaction_id [] = 0
max_transaction_id (e ∷ entries) = max e.transaction_id (max_transaction_id entries)

-- `scan_existing_files`: the ID after the last file's.
unfoldable pub next_file_id : List (ℕ × List ℕ) → ℕ
next_file_id [] = 1
next_file_id ((id, bytes) ∷ []) = (id + 1) % 2 ^ 64
next_file_id (first ∷ second ∷ files) = next_file_id (second ∷ files)

unfoldable pub last_file : List (ℕ × List ℕ) → Option (ℕ × List ℕ)
last_file [] = none
last_file (file ∷ []) = some file
last_file (first ∷ second ∷ files) = last_file (second ∷ files)

module _ (codec : EntryCodec) where
  -- The loop over the entries of a file: it ends where fewer than four bytes are left. The fuel is
  -- the number of rounds.
  unfoldable pub read_loop : ℕ → List ℕ → Result (List WalEntry)
  unfolding u32_of
  read_loop zero bytes = ok []
  read_loop (suc fuel) (a ∷ b ∷ c ∷ d ∷ bytes) =
      let len = u32_of a b c d in
      if ltb (length bytes) len
      then err io_error
      else (ok_or (codec.deserialize (take len bytes)) serialization_error >>= λ entry.
          read_loop fuel (drop len bytes) >>= λ entries. ok (entry ∷ entries))
  read_loop (suc fuel) bytes = ok []

  unfoldable pub read_file : List ℕ → Result (List WalEntry)
  unfolding read_header read_loop
  read_file bytes = read_header bytes >>= λ u. read_loop (length bytes) (drop header_size bytes)

  unfoldable pub read_entries_from_files : List (ℕ × List ℕ) → Result (List WalEntry)
  unfolding read_file
  read_entries_from_files [] = ok []
  read_entries_from_files ((id, bytes) ∷ files) =
      read_file bytes >>= λ first. read_entries_from_files files >>= λ rest. ok (first ++ rest)

  -- `open`, where a last file is appended to.
  unfoldable pub opened : List (ℕ × List ℕ) → ℕ → List WalEntry → FileWal
  unfolding next_file_id last_file max_transaction_id
  opened dir max_file_size entries =
      let next_transaction_id = min (max_transaction_id entries + 1) (2 ^ 64 - 1) in
      elim (last_file dir) [
        | none ↦ record {
          dir = dir;
          max_file_size = max_file_size;
          current_file = none;
          current_file_id = next_file_id dir;
          current_file_size = 0;
          next_transaction_id = next_transaction_id;
          entries = entries;
        }
        | some file ↦ record {
          dir = dir;
          max_file_size = max_file_size;
          current_file = some file.0;
          current_file_id = next_file_id dir;
          current_file_size = length file.1;
          next_transaction_id = next_transaction_id;
          entries = entries;
        }
      ]

  unfoldable pub open_dir : List (ℕ × List ℕ) → ℕ → Result FileWal
  unfolding read_entries_from_files opened
  open_dir dir max_file_size =
      read_entries_from_files dir >>= λ entries. ok (opened dir max_file_size entries)

  -- The end of `append_entry`, with the entry's serialization and the file that is open.
  unfoldable pub write_entry :
      WalEntry → Option (List ℕ) → Option ℕ → FileWal → Result (Unit {0}) × FileWal
  unfolding append_to u32_bytes
  write_entry entry none file w = (err serialization_error, w)
  write_entry entry (some serialized) none w = (panic, w)
  write_entry entry (some serialized) (some id) w = (
    ok tt,
    record w {
      dir = append_to w.dir id (u32_bytes (length serialized % 2 ^ 32) ++ serialized);
      current_file_size = w.current_file_size + (4 + length serialized);
      entries = w.entries ++ entry ∷ [];
    },
  )

  unfoldable pub append_entry : FileWal → WalEntry → Result (Unit {0}) × FileWal
  unfolding maybe_rotate write_entry
  append_entry w entry =
      let ready = maybe_rotate (ensure_file_open w) in
      write_entry entry (codec.serialize entry) ready.current_file ready

  module _ (env : WalEnv) where
    unfoldable pub log_operation : FileWal → ℕ → ℕ → WalOp → Result (Unit {0}) × FileWal
    unfolding append_entry
    log_operation w transaction_id sequence operation =
        append_entry w
          (new_entry env (env.clock (length w.entries)) transaction_id sequence operation)

    unfoldable pub log_commit : FileWal → ℕ → Result (Unit {0}) × FileWal
    unfolding append_entry entries_for
    log_commit w transaction_id = append_entry w (
        new_entry env (env.clock (length w.entries)) transaction_id
          (length (entries_for w.entries transaction_id) % 2 ^ 32) (WalOp.commit transaction_id))

    unfoldable pub log_rollback : FileWal → ℕ → Result (Unit {0}) × FileWal
    unfolding append_entry entries_for
    log_rollback w transaction_id = append_entry w (
        new_entry env (env.clock (length w.entries)) transaction_id
          (length (entries_for w.entries transaction_id) % 2 ^ 32) (WalOp.rollback transaction_id))

unfoldable pub begin_transaction : FileWal → ℕ × FileWal
begin_transaction w =
    (w.next_transaction_id, record w { next_transaction_id = (w.next_transaction_id + 1) % 2 ^ 64 })

unfoldable pub clear : FileWal → FileWal
clear w = record w {
  dir = [];
  current_file = none;
  current_file_id = 1;
  current_file_size = 0;
  next_transaction_id = 1;
  entries = [];
}
