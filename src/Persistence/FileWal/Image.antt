-- ===== src/Persistence/FileWal/Image.antt =====
-- ecsdb/src/persistence/file_wal.rs: the bytes of a log file, and what is read from them.
use rodengine.Common.{
  ℕ, zero, suc, ◌/◌, ◌%◌, ◌^◌, ◌≤◌, ◌<◌, ◌≡◌, refl, sym, ap, ◌∙◌, ltb, le→ltb, false, some, List,
  [], ◌∷◌, ◌++◌, append-nil, append_assoc, map, All, length, length-append, take-append,
  drop-append, arith,
}
use rodengine.Error.{ok}
use rodengine.Transaction.Wal.{WalEntry}
use rodengine.Replication.Frame.{equal_bytes}
use rodengine.Persistence.FileWal.{
  EntryCodec, u32_bytes, u32_of, header, check_version, read_header, read_loop, read_file,
  read_entries_from_files,
}

-- An entry with its serialization.
abbrev pub Stored : Type 0
Stored = WalEntry × List ℕ

abbrev pub entries_in : List Stored → List WalEntry
entries_in [] = []
entries_in (p ∷ ps) = p.0 ∷ entries_in ps

unfoldable pub framed : List ℕ → List ℕ
framed bytes = u32_bytes (length bytes % 2 ^ 32) ++ bytes

unfoldable pub body : List Stored → List ℕ
body [] = []
body (p ∷ ps) = framed p.1 ++ body ps

abbrev pub image : List Stored → List ℕ
image ps = header ++ body ps

pub body-append : (ps : List Stored) (p : Stored) → body (ps ++ p ∷ []) ≡ body ps ++ framed p.1
unfolding body
body-append [] p = append-nil (framed p.1)
body-append (q ∷ ps) p =
    ap (λ bs. framed q.1 ++ bs) (body-append ps p)
    ∙ sym (append_assoc (framed q.1) (body ps) (framed p.1))

u32_of_lem :
    (n : ℕ)
    → n < 4294967296
    → u32_of (n % 256) (n / 256 % 256) (n / 65536 % 256) (n / 16777216 % 256) ≡ n
unfolding u32_of
u32_of_lem n h = omega (arith, h)

module _ (codec : EntryCodec) where
  abbrev pub Readable : Stored → Type 0
  Readable p = (codec.deserialize p.1 ≡ some p.0) × (length p.1 < 2 ^ 32)

  read_loop-body :
      (fuel : ℕ) (ps : List Stored)
      → All Readable ps
      → length (body ps) ≤ fuel
      → read_loop codec fuel (body ps) ≡ ok (entries_in ps)
  unfolding read_loop body framed u32_bytes
  read_loop-body zero [] h enough = refl
  read_loop-body (suc fuel) [] h enough = refl
  read_loop-body zero (p ∷ ps) h enough = absurd (omega (arith, enough))
  read_loop-body (suc fuel) (p ∷ ps) ((known, short), h) enough =
      let small : length p.1 % 4294967296 ≡ length p.1 = omega (arith, short) in
      let long : ltb (length (p.1 ++ body ps)) (length p.1) ≡ false =
        le→ltb _ _ (omega (arith, length-append p.1 (body ps))) in
      let rest = read_loop-body fuel ps h (omega (arith, enough, length-append p.1 (body ps))) in
      rw
        (
          small,
          u32_of_lem (length p.1) short,
          long,
          take-append p.1 (body ps),
          drop-append p.1 (body ps),
          known,
          rest,
        )
        refl

  read_header-image : (bytes : List ℕ) → read_header (header ++ bytes) ≡ ok tt
  unfolding read_header header u32_bytes check_version u32_of equal_bytes
  read_header-image bytes = rw (le→ltb (length (header ++ bytes)) 32 (omega arith)) refl

  read_file-image :
      (ps : List Stored) → All Readable ps → read_file codec (image ps) ≡ ok (entries_in ps)
  unfolding read_file header u32_bytes
  read_file-image ps h =
      rw (read_header-image (body ps))
        (read_loop-body (length (image ps)) ps h (omega (arith, length-append header (body ps))))

  -- The files of the groups of entries, with their IDs.
  abbrev pub files_of : List (ℕ × List Stored) → List (ℕ × List ℕ)
  files_of = map (λ (g : ℕ × List Stored). (g.0, image g.1))

  abbrev pub entries_of : List (ℕ × List Stored) → List WalEntry
  entries_of [] = []
  entries_of (g ∷ gs) = entries_in g.1 ++ entries_of gs

  pub read_entries_from_files-files_of :
      (gs : List (ℕ × List Stored))
      → All (λ (g : ℕ × List Stored). All Readable g.1) gs
      → read_entries_from_files codec (files_of gs) ≡ ok (entries_of gs)
  unfolding read_entries_from_files
  read_entries_from_files-files_of [] h = refl
  read_entries_from_files-files_of (g ∷ gs) (p, h) =
      rw (read_file-image g.1 p, read_entries_from_files-files_of gs h) refl
