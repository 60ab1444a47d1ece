-- ===== src/Persistence/FileWal/Reading.antt =====
-- ecsdb/src/persistence/file_wal.rs: appending entries, and reading the directory.
use rodengine.Common.{
  ℕ, ◌+◌, ◌^◌, ◌<◌, ◌≡◌, refl, sym, ap, subst, ◌∙◌, some, List, [], ◌∷◌, ◌++◌, append-nil,
  append_assoc, All, length, inl, inr, arith,
}
use rodengine.Error.{Result, ok, err, panic, ok≢err, ok≢panic}
use rodengine.Transaction.Wal.{WalEntry}
use rodengine.Persistence.FileWal.{
  EntryCodec, FileWal, ensure_file_open, maybe_rotate, write_entry, append_entry,
  read_entries_from_files,
}
use rodengine.Persistence.FileWal.Image.{Readable, read_entries_from_files-files_of}
use rodengine.Persistence.FileWal.Writing.{
  Closed, Closed-next, IsLog, Added, append-Ready, write_entry-Added,
}

module _ (codec : EntryCodec) where
  -- The entry is serialized, to less than 2^32 bytes, from which it is read back.
  abbrev pub Writable : WalEntry → Type 0
  Writable entry =
      (bytes : List ℕ) × (codec.serialize entry ≡ some bytes) × Readable codec (entry, bytes)

  append_entry-Added :
      (w : FileWal) (entry : WalEntry)
      → IsLog codec w
      → w.current_file_id + 1 < 2 ^ 64
      → Writable entry
      → Added codec w entry (append_entry codec w entry)
  unfolding append_entry
  append_entry-Added w entry h small (bytes, e, readable) =
      let v = maybe_rotate (ensure_file_open w) in
      subst (λ o. Added codec w entry (write_entry codec entry o v.current_file v)) (sym e)
        (write_entry-Added codec w v entry bytes readable (append-Ready codec w h small))

  -- The operator `?`, where the log changes as well.
  abbrev pub and_then :
      Result (Unit {0}) × FileWal
      → (FileWal → Result (Unit {0}) × FileWal)
      → Result (Unit {0}) × FileWal
  and_then (ok u, w) f = f w
  and_then (err e, w) f = (err e, w)
  and_then (panic, w) f = (panic, w)

  and_then-ok :
      (r : Result (Unit {0}) × FileWal) (f : FileWal → Result (Unit {0}) × FileWal)
      → r.0 ≡ ok tt
      → and_then r f ≡ f r.1
  and_then-ok (ok u, w) f h = refl
  and_then-ok (err e, w) f h = absurd (ok≢err (sym h))
  and_then-ok (panic, w) f h = absurd (ok≢panic (sym h))

  -- `append_entry` for each entry, as long as it succeeds.
  abbrev pub append_all : List WalEntry → FileWal → Result (Unit {0}) × FileWal
  append_all [] w = (ok tt, w)
  append_all (entry ∷ entries) w = and_then (append_entry codec w entry) (λ v. append_all entries v)

  Closed-reads : (w : FileWal) → Closed codec w → read_entries_from_files codec w.dir ≡ ok w.entries
  Closed-reads w h =
      ap (read_entries_from_files codec) h.dir
      ∙ read_entries_from_files-files_of codec h.groups h.readable
      ∙ ap ok (sym h.entries)

  IsLog-reads : (w : FileWal) → IsLog codec w → read_entries_from_files codec w.dir ≡ ok w.entries
  IsLog-reads w (inl h) = Closed-reads w h
  IsLog-reads w (inr h) = Closed-reads _ (Closed-next codec w h)

  -- Entries that are appended to a log are read back from its directory, in their order and behind
  -- those that it had, however often the file is changed on the way. (Each entry is serialized to
  -- less than 2^32 bytes, from which it is read back, and the file ID does not reach its last
  -- value.)
  pub append_all-reads :
      (entries : List WalEntry) (w : FileWal)
      → IsLog codec w
      → w.current_file_id + length entries < 2 ^ 64
      → All Writable entries
      → ((append_all entries w).0 ≡ ok tt)
        × (read_entries_from_files codec (append_all entries w).1.dir ≡ ok (w.entries ++ entries))
  append_all-reads [] w h small writable =
      (refl, IsLog-reads w h ∙ ap ok (sym (append-nil w.entries)))
  append_all-reads (entry ∷ entries) w h small (p, writable) =
      let added = append_entry-Added w entry h (omega (arith, small)) p in
      let v = (append_entry codec w entry).1 in
      let rest =
        append_all-reads entries v (inr added.opened) (omega (arith, small, added.few)) writable in
      let first = and_then-ok (append_entry codec w entry) (append_all entries) added.succeeds in
      subst
        (λ (r : Result (Unit {0}) × FileWal).
          (r.0 ≡ ok tt)
          × (read_entries_from_files codec r.1.dir ≡ ok (w.entries ++ entry ∷ entries)))
        (sym first)
        (
          rest.0,
          rest.1
              ∙ ap (λ es. ok (es ++ entries)) added.entries
              ∙ ap ok (append_assoc w.entries (entry ∷ []) entries),
        )
