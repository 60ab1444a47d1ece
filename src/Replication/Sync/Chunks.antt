-- ===== src/Replication/Sync/Chunks.antt =====
-- ecsdb/src/replication/sync.rs: the messages of a full synchronisation.
use rodengine.Common.{
  ℕ, zero, suc, ◌+◌, ◌-◌, ◌≤◌, ◌<◌, ◌==◌, ◌≡◌, refl, sym, ap, subst, ◌∙◌, ltb, min, String, Option,
  some, List, [], ◌∷◌, ◌++◌, map, append-nil, append_assoc, All, length, slice, take, length-slice,
  take_all, if◌then◌else◌, Bool-cases, inl, inr, le→ltb, arith,
}
use rodengine.Replication.Sync.{
  FullSyncMessage, chunk_from, chunk_data, messages_from, create_full_sync,
}

abbrev pub concat : List (List ℕ) → List ℕ
concat [] = []
concat (x ∷ xs) = x ++ concat xs

concat-append : (xs : List (List ℕ)) (y : List ℕ) → concat (xs ++ y ∷ []) ≡ concat xs ++ y
concat-append [] y = append-nil y
concat-append (x ∷ xs) y =
    ap (λ t. x ++ t) (concat-append xs y) ∙ sym (append_assoc x (concat xs) y)

take_nil : (m n : ℕ) → take {A = ℕ} m [] ≡ take n []
take_nil zero zero = refl
take_nil zero (suc n) = refl
take_nil (suc m) zero = refl
take_nil (suc m) (suc n) = refl

take-add : (m n : ℕ) (xs : List ℕ) → take (m + n) xs ≡ take m xs ++ slice m n xs
take-add zero n xs = let e : n ≡ zero + n = omega arith in subst (λ k. take k xs ≡ take n xs) e refl
take-add (suc m) n [] = take_nil (suc m + n) n
take-add (suc m) n (x ∷ xs) =
    let e : suc (m + n) ≡ suc m + n = omega arith in
    subst (λ k. take k (x ∷ xs) ≡ x ∷ (take m xs ++ slice m n xs)) e (ap (◌∷◌ x) (take-add m n xs))

-- A chunk that is neither empty nor too long.
abbrev pub Sized : ℕ → List ℕ → Type 0
Sized most chunk = (0 < length chunk) × (length chunk ≤ most)

All-append :
    {A : Type 0} (P : A → Type 0) (xs : List A) (y : A) → All P xs → P y → All P (xs ++ y ∷ [])
All-append P [] y h p = (p, tt)
All-append P (x ∷ xs) y (q, h) p = (q, All-append P xs y h p)

-- Chunks that together are the data.
pub record Cuts (most : ℕ) (bytes : List ℕ) (result : Option (List (List ℕ))) : Type 0 where
  pub chunks : List (List ℕ)
  pub returned : result ≡ some chunks
  pub joined : concat chunks ≡ bytes
  pub sized : All (Sized most) chunks

chunk_from-Cuts :
    (fuel most : ℕ) (bytes : List ℕ) (start : ℕ) (chunks : List (List ℕ))
    → 0 < most
    → start ≤ length bytes
    → length bytes ≤ start + fuel
    → concat chunks ≡ take start bytes
    → All (Sized most) chunks
    → Cuts most bytes (chunk_from fuel most bytes start chunks)
unfolding chunk_from
chunk_from-Cuts zero most bytes start chunks h le enough joined sized = record {
  chunks = chunks;
  returned = rw (le→ltb start (length bytes) (omega (arith, enough))) refl;
  joined = joined ∙ take_all start bytes (omega (arith, enough));
  sized = sized;
}
chunk_from-Cuts (suc fuel) most bytes start chunks h le enough joined sized =
    elim (Bool-cases (ltb start (length bytes))) [
      | inl more ↦
          let finish = min (start + most) (length bytes) in
          let before : start < length bytes = ground arith in
          let chunk = slice start (finish - start) bytes in
          let len = length-slice start (finish - start) bytes (omega (arith, before)) in
          let whole : start + (finish - start) ≡ finish = omega (arith, before) in
          rw more (
            chunk_from-Cuts fuel most bytes finish (chunks ++ chunk ∷ []) h (omega arith)
              (omega (arith, before, enough, h))
              (concat-append chunks chunk
                ∙ ap (λ t. t ++ chunk) joined
                ∙ sym (take-add start (finish - start) bytes)
                ∙ ap (λ k. take k bytes) whole)
              (All-append (Sized most) chunks chunk sized
                (omega (arith, len, before, h), omega (arith, len, before))))
      | inr ended ↦
          let after : length bytes ≤ start = ground arith in
          record {
            chunks = chunks;
            returned = rw ended refl;
            joined = joined ∙ take_all start bytes after;
            sized = sized;
          }
    ]

-- The messages of a synchronisation, numbered from `index`: each has its total number, a chunk, and
-- the schema if it is the first.
abbrev pub Sequence : String → ℕ → ℕ → ℕ → ℕ → List FullSyncMessage → Type 0
Sequence schema version most total index [] = index ≡ total
Sequence schema version most total index (msg ∷ msgs) =
    (msg.chunk_index ≡ index)
    × ((msg.total_chunks ≡ total)
        × ((msg.version ≡ version)
            × ((msg.schema_toml ≡ (if index == 0 then schema else ""))
                × (Sized most msg.snapshot_data
                    × Sequence schema version most total (index + 1) msgs))))

messages_from-Sequence :
    (schema : String) (version most total index : ℕ) (chunks : List (List ℕ))
    → index + length chunks ≡ total
    → All (Sized most) chunks
    → Sequence schema version most total index (messages_from schema version total index chunks)
unfolding messages_from
messages_from-Sequence schema version most total index [] h sized = omega (arith, h)
messages_from-Sequence schema version most total index (chunk ∷ chunks) h (p, sized) =
    let next : index + 1 + length chunks ≡ total = omega (arith, h) in
    (
      refl,
      (
        refl,
        (
          refl,
          (
            refl,
            (p, messages_from-Sequence schema version most total (index + 1) chunks next sized),
          ),
        ),
      ),
    )

map-messages_from :
    (schema : String) (version total index : ℕ) (chunks : List (List ℕ))
    → map
        (λ (msg : FullSyncMessage). msg.snapshot_data)
        (messages_from schema version total index chunks)
      ≡ chunks
unfolding messages_from
map-messages_from schema version total index [] = refl
map-messages_from schema version total index (chunk ∷ chunks) =
    ap (◌∷◌ chunk) (map-messages_from schema version total (index + 1) chunks)

pub record FullSync (most : ℕ) (schema : String) (bytes : List ℕ) (version : ℕ)
    (result : Option (List FullSyncMessage)) : Type 0 where
  pub messages : List FullSyncMessage
  pub returned : result ≡ some messages
  pub joined : concat (map (λ (msg : FullSyncMessage). msg.snapshot_data) messages) ≡ bytes
  pub total : ℕ
  pub sequence : Sequence schema version most total 0 messages

-- With chunks of at least one byte, `create_full_sync` ends, after at most as many rounds as the
-- snapshot has bytes: the data of its messages, one after another, are the snapshot; each message
-- has its index, the total number and a chunk of the allowed size that is not empty; the first
-- has the schema, and the others none.
pub create_full_sync-FullSync :
    (fuel most : ℕ) (schema : String) (bytes : List ℕ) (version : ℕ)
    → 0 < most
    → length bytes ≤ fuel
    → FullSync most schema bytes version (create_full_sync fuel most schema bytes version)
unfolding create_full_sync chunk_data
create_full_sync-FullSync fuel most schema bytes version h enough =
    let cuts =
      chunk_from-Cuts fuel most bytes 0 [] h (omega arith) (omega (arith, enough)) refl tt in
    record {
      messages = messages_from schema version (length cuts.chunks) 0 cuts.chunks;
      returned = rw (cuts.returned, create_full_sync) refl;
      joined =
          ap concat (map-messages_from schema version (length cuts.chunks) 0 cuts.chunks)
          ∙ cuts.joined;
      total = length cuts.chunks;
      sequence =
          messages_from-Sequence schema version most _ 0 cuts.chunks (omega arith) cuts.sized;
    }
