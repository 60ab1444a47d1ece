-- ===== src/Persistence/FileWal/Writing.antt =====
-- ecsdb/src/persistence/file_wal.rs: the files while entries are appended.
use rodengine.Common.{
  ℕ, ◌+◌, ◌%◌, ◌^◌, ◌≤◌, ◌<◌, ◌≡◌, ◌⊎◌, refl, sym, ap, subst, ◌∙◌, leb, ==_refl, none, some, List,
  [], ◌∷◌, ◌++◌, append-nil, append_assoc, All, Bool-cases, inl, inr, arith,
}
use rodengine.Error.{Result, ok}
use rodengine.Transaction.Wal.{WalEntry}
use rodengine.Persistence.FileWal.{
  EntryCodec, FileWal, append_to, ensure_open, ensure_file_open, maybe_rotate, header, write_entry,
}
use rodengine.Persistence.FileWal.Image.{
  Stored, Readable, body, framed, image, entries_in, files_of, entries_of, body-append,
}

append_to-below :
    (files tail : List (ℕ × List ℕ)) (id : ℕ) (bytes : List ℕ)
    → All (λ (f : ℕ × List ℕ). f.0 < id) files
    → append_to (files ++ tail) id bytes ≡ files ++ append_to tail id bytes
unfolding append_to
append_to-below [] tail id bytes h = refl
append_to-below ((j, old) ∷ files) tail id bytes (p, h) =
    ground (arith, append_to-below files tail id bytes h)

append_to-new :
    (files : List (ℕ × List ℕ)) (id : ℕ) (bytes : List ℕ)
    → All (λ (f : ℕ × List ℕ). f.0 < id) files
    → append_to files id bytes ≡ files ++ (id, bytes) ∷ []
unfolding append_to
append_to-new files id bytes h =
    ap (λ fs. append_to fs id bytes) (sym (append-nil files)) ∙ append_to-below files [] id bytes h

entries_in-append :
    (ps : List Stored) (p : Stored) → entries_in (ps ++ p ∷ []) ≡ entries_in ps ++ p.0 ∷ []
entries_in-append [] p = refl
entries_in-append (q ∷ ps) p = ap (◌∷◌ q.0) (entries_in-append ps p)

append_to-last :
    (id : ℕ) (old bytes : List ℕ) → append_to ((id, old) ∷ []) id bytes ≡ (id, old ++ bytes) ∷ []
unfolding append_to
append_to-last id old bytes = rw (==_refl id) refl

module _ (codec : EntryCodec) where
  abbrev pub Below : ℕ → List (ℕ × List Stored) → Type 0
  Below id = All (λ (g : ℕ × List Stored). g.0 < id)

  abbrev pub AllReadable : List (ℕ × List Stored) → Type 0
  AllReadable = All (λ (g : ℕ × List Stored). All (Readable codec) g.1)

  -- The files hold the entries, and none is open.
  pub record Closed (w : FileWal) : Type 0 where
    pub groups : List (ℕ × List Stored)
    pub dir : w.dir ≡ files_of codec groups
    pub entries : w.entries ≡ entries_of codec groups
    pub readable : AllReadable groups
    pub file : w.current_file ≡ none
    pub size : w.current_file_size ≡ 0
    pub below : Below w.current_file_id groups

  -- The files hold the entries, and the last one is open.
  pub record Opened (w : FileWal) : Type 0 where
    pub groups : List (ℕ × List Stored)
    pub id : ℕ
    pub last : List Stored
    pub dir : w.dir ≡ files_of codec groups ++ (id, image last) ∷ []
    pub entries : w.entries ≡ entries_of codec groups ++ entries_in last
    pub readable : AllReadable groups
    pub last_readable : All (Readable codec) last
    pub file : w.current_file ≡ some id
    pub below : Below id groups
    pub bounded : id ≤ w.current_file_id

  Below-files_of :
      (id : ℕ) (gs : List (ℕ × List Stored))
      → Below id gs
      → All (λ (f : ℕ × List ℕ). f.0 < id) (files_of codec gs)
  Below-files_of id [] h = tt
  Below-files_of id (g ∷ gs) (p, h) = (p, Below-files_of id gs h)

  -- The last file is open, and no entry was added.
  pub record Ready (most : ℕ) (entries : List WalEntry) (w : FileWal) : Type 0 where
    pub opened : Opened w
    pub few : w.current_file_id ≤ most
    pub same : w.entries ≡ entries

  ensure-Closed : (w : FileWal) → Closed w → Ready w.current_file_id w.entries (ensure_file_open w)
  unfolding ensure_file_open body
  ensure-Closed w h =
      let id = w.current_file_id in
      let written : append_to w.dir id header ≡ files_of codec h.groups ++ (id, image []) ∷ [] =
        ap (λ d. append_to d id header) h.dir
        ∙ append_to-new (files_of codec h.groups) id header (Below-files_of id h.groups h.below)
        ∙ ap (λ bs. files_of codec h.groups ++ (id, bs) ∷ []) (sym (append-nil header)) in
      let after : ensure_file_open w ≡ record w {
        dir = files_of codec h.groups ++ (id, image []) ∷ [];
        current_file_size = 32;
        current_file = some id;
      } =
        rw (h.file, h.size, ensure_open)
          (ap (λ d. (record w { dir = d; current_file_size = 32; current_file = some id }))
            written) in
      subst (Ready id w.entries) (sym after) (record {
        opened = record {
          groups = h.groups;
          id = id;
          last = [];
          dir = refl;
          entries = h.entries ∙ sym (append-nil (entries_of codec h.groups));
          readable = h.readable;
          last_readable = tt;
          file = refl;
          below = h.below;
          bounded = omega arith;
        };
        few = omega arith;
        same = refl;
      })

  ensure-Opened : (w : FileWal) → Opened w → ensure_file_open w ≡ w
  unfolding ensure_file_open
  ensure-Opened w h = rw (h.file, ensure_open) refl

  All-append :
      {A : Type 0} (P : A → Type 0) (xs : List A) (y : A) → All P xs → P y → All P (xs ++ y ∷ [])
  All-append P [] y h p = (p, tt)
  All-append P (x ∷ xs) y (q, h) p = (q, All-append P xs y h p)

  files_of-append :
      (gs : List (ℕ × List Stored)) (g : ℕ × List Stored)
      → files_of codec (gs ++ g ∷ []) ≡ files_of codec gs ++ (g.0, image g.1) ∷ []
  files_of-append [] g = refl
  files_of-append (x ∷ gs) g = ap (◌∷◌ (x.0, image x.1)) (files_of-append gs g)

  entries_of-append :
      (gs : List (ℕ × List Stored)) (g : ℕ × List Stored)
      → entries_of codec (gs ++ g ∷ []) ≡ entries_of codec gs ++ entries_in g.1
  entries_of-append [] g = append-nil (entries_in g.1)
  entries_of-append (x ∷ gs) g =
      ap (λ es. entries_in x.1 ++ es) (entries_of-append gs g)
      ∙ sym (append_assoc (entries_in x.1) (entries_of codec gs) (entries_in g.1))

  Below-mono_lem : (a b : ℕ) (gs : List (ℕ × List Stored)) → a ≤ b → Below a gs → Below b gs
  Below-mono_lem a b [] le h = tt
  Below-mono_lem a b (g ∷ gs) le (p, h) = (omega (arith, p, le), Below-mono_lem a b gs le h)

  -- The open log with its file closed, for the next one.
  pub Closed-next :
      (w : FileWal)
      → Opened w
      → Closed (record w {
        current_file = none;
        current_file_id = w.current_file_id + 1;
        current_file_size = 0;
      })
  Closed-next w h = record {
    groups = h.groups ++ (h.id, h.last) ∷ [];
    dir = h.dir ∙ sym (files_of-append h.groups (h.id, h.last));
    entries = h.entries ∙ sym (entries_of-append h.groups (h.id, h.last));
    readable = All-append _ h.groups (h.id, h.last) h.readable h.last_readable;
    file = refl;
    size = refl;
    below =
        All-append _ h.groups (h.id, h.last)
          (Below-mono_lem h.id (w.current_file_id + 1) h.groups (omega (arith, h.bounded)) h.below)
          (omega (arith, h.bounded));
  }

  maybe_rotate-Ready :
      (w : FileWal)
      → Opened w
      → w.current_file_id + 1 < 2 ^ 64
      → Ready (w.current_file_id + 1) w.entries (maybe_rotate w)
  unfolding maybe_rotate
  maybe_rotate-Ready w h small = elim (Bool-cases (leb w.max_file_size w.current_file_size)) [
    | inl full ↦
        let next : (w.current_file_id + 1) % 2 ^ 64 ≡ w.current_file_id + 1 =
          omega (arith, small) in
        rw (full, next) (ensure-Closed _ (Closed-next w h))
    | inr room ↦ rw room (record { opened = h; few = omega arith; same = refl })
  ]

  -- The state of a log that is used: no file is open before the first entry, and the last one after.
  abbrev pub IsLog : FileWal → Type 0
  IsLog w = Closed w ⊎ Opened w

  pub append-Ready :
      (w : FileWal)
      → IsLog w
      → w.current_file_id + 1 < 2 ^ 64
      → Ready (w.current_file_id + 1) w.entries (maybe_rotate (ensure_file_open w))
  append-Ready w (inl h) small =
      let ready = ensure-Closed w h in
      let rotated =
        maybe_rotate-Ready (ensure_file_open w) ready.opened (omega (arith, ready.few, small)) in
      record {
        opened = rotated.opened;
        few = omega (arith, rotated.few, ready.few);
        same = rotated.same ∙ ready.same;
      }
  append-Ready w (inr h) small =
      subst (λ v. Ready (w.current_file_id + 1) w.entries (maybe_rotate v))
        (sym (ensure-Opened w h)) (maybe_rotate-Ready w h small)

  -- What the log is after an entry was added.
  pub record Added (w : FileWal) (entry : WalEntry) (r : Result (Unit {0}) × FileWal) : Type 0 where
    pub succeeds : r.0 ≡ ok tt
    pub opened : Opened r.1
    pub few : r.1.current_file_id ≤ w.current_file_id + 1
    pub entries : r.1.entries ≡ w.entries ++ entry ∷ []

  pub write_entry-Added :
      (w v : FileWal) (entry : WalEntry) (bytes : List ℕ)
      → Readable codec (entry, bytes)
      → Ready (w.current_file_id + 1) w.entries v
      → Added w entry (write_entry codec entry (some bytes) v.current_file v)
  unfolding write_entry framed
  write_entry-Added w v entry bytes readable h =
      let o = h.opened in
      let gs = files_of codec o.groups in
      let written : append_to v.dir o.id (framed bytes)
          ≡ gs ++ (o.id, image (o.last ++ (entry, bytes) ∷ [])) ∷ [] =
        ap (λ d. append_to d o.id (framed bytes)) o.dir
        ∙ append_to-below gs ((o.id, image o.last) ∷ []) o.id (framed bytes)
            (Below-files_of o.id o.groups o.below)
        ∙ ap (λ t. gs ++ t) (append_to-last o.id (image o.last) (framed bytes))
        ∙ ap (λ bs. gs ++ (o.id, bs) ∷ [])
            (append_assoc header (body o.last) (framed bytes)
              ∙ ap (λ bs. header ++ bs) (sym (body-append o.last (entry, bytes)))) in
      rw o.file (record {
        succeeds = refl;
        opened = record {
          groups = o.groups;
          id = o.id;
          last = o.last ++ (entry, bytes) ∷ [];
          dir = written;
          entries =
              ap (λ es. es ++ entry ∷ []) o.entries
              ∙ append_assoc (entries_of codec o.groups) (entries_in o.last) (entry ∷ [])
              ∙ ap (λ es. entries_of codec o.groups ++ es)
                  (sym (entries_in-append o.last (entry, bytes)));
          readable = o.readable;
          last_readable =
              All-append (Readable codec) o.last (entry, bytes) o.last_readable readable;
          file = refl;
          below = o.below;
          bounded = o.bounded;
        };
        few = h.few;
        entries = ap (λ es. es ++ entry ∷ []) h.same;
      })
