-- ===== src/Storage/Table/Moves.antt =====
-- `delete`, `compact` and `commit` of a component table, as operations on the map of records.
use rodengine.Common.{
  ℕ, ◌+◌, ◌<◌, ◌≡◌, ◌≢◌, ◌↔◌, max, inl, inr, refl, sym, subst, ap, ◌∙◌, Option, none, some, false,
  length, slice, arith, ◌==◌, ==_iff, Bool-cases, Option-cases, if◌then◌else◌, ltb, le→ltb,
}
use rodengine.Common.HashMap
use rodengine.Common.HashMap.{
  HashMap, mapped, get-insert, get-remove, get-map_values, map_values, length-insert-le,
  length-remove-lt, length-map_values,
}
use rodengine.Error.{Result, ok, err, component_not_found, type_name}
use rodengine.Storage.Buffer
use rodengine.Storage.Buffer.{ArcStorageBuffer, Bytes}
use rodengine.Storage.Buffer.Slots
use rodengine.Storage.Buffer.Slots.{IsLive, IsLive-fits, slots_apart}
use rodengine.Storage.Buffer.Insert.{insert-Inserted, free_slot-IsWf, free_slot_fields}
use rodengine.Storage.Buffer.Compaction.{Compaction, compact-Compaction}
use rodengine.Storage.Table.{
  ComponentTable, Codec, encode, decode, insert, get, delete, commit, compact, relocate,
}
use rodengine.Storage.Table.Wf.{IsWf, stored}
use rodengine.Storage.Table.Contents.{after_insert}

module _ (t : ComponentTable) (w : IsWf t) (e o : ℕ)
    (at : HashMap.get t.entity_index e ≡ some o) where
  abbrev after_delete : ComponentTable
  after_delete = record {
    buffer = Buffer.free_slot t.buffer o;
    entity_index = HashMap.remove t.entity_index e;
  }

  some_active : 0 < t.buffer.active_count
  some_active = omega (arith, w.enough, length-remove-lt t.entity_index e o at)

  freed :
      Slots.IsWf (Buffer.free_slot t.buffer o)
      × (¬ IsLive (Buffer.free_slot t.buffer o) o)
      × ((p : ℕ) → p ≢ o → IsLive t.buffer p ↔ IsLive (Buffer.free_slot t.buffer o) p)
  freed = free_slot-IsWf t.buffer o w.buffer (w.live e o at) some_active

  fields :
      ((Buffer.free_slot t.buffer o).write_buffer ≡ t.buffer.write_buffer)
      × ((Buffer.free_slot t.buffer o).record_size ≡ t.buffer.record_size)
      × ((Buffer.free_slot t.buffer o).active_count + 1 ≡ max t.buffer.active_count 1)
  fields = free_slot_fields t.buffer o (w.live e o at)

  kept_entry :
      (f p : ℕ)
      → HashMap.get (HashMap.remove t.entity_index e) f ≡ some p
      → (e ≢ f) × (HashMap.get t.entity_index f ≡ some p)
  kept_entry f p h = ground (arith, get-remove t.entity_index e f)

  delete-IsWf : IsWf after_delete
  delete-IsWf = record {
    buffer = freed.0;
    live = λ f p h.
        let (ne, old) = kept_entry f p h in
        (freed.2 p (λ same. ne (w.apart e f o at (old ∙ ap some same)))).0 (w.live f p old);
    apart = λ f g p h k. w.apart f g p (kept_entry f p h).1 (kept_entry g p k).1;
    enough = omega (arith, fields.2, w.enough, some_active, length-remove-lt t.entity_index e o at);
  }

  delete_stored : (f : ℕ) → stored after_delete f ≡ (if e == f then none else stored t f)
  delete_stored f = rw (fields.0, fields.1) (ground (arith, get-remove t.entity_index e f))

-- `delete` of an entity that has a record never fails: that record is gone and no other changes.
pub delete-stored :
    (t : ComponentTable) (e o : ℕ)
    → IsWf t
    → HashMap.get t.entity_index e ≡ some o
    → (t' : ComponentTable) × (delete t e ≡ ok t')
      × IsWf t'
      × ((f : ℕ) → stored t' f ≡ (if e == f then none else stored t f))
unfolding delete
delete-stored t e o w at =
    (after_delete t w e o at, rw at, delete-IsWf t w e o at, delete_stored t w e o at)

module _ (t : ComponentTable) (w : IsWf t) (moves : HashMap ℕ) (b' : ArcStorageBuffer)
    (c : Compaction t.buffer moves b') where
  abbrev after_compact : ComponentTable
  after_compact = record { buffer = b'; entity_index = map_values (relocate moves) t.entity_index }

  relocated : (o : ℕ) → IsLive t.buffer o → HashMap.get moves o ≡ some (relocate moves o)
  unfolding relocate
  relocated o l = let (p, m, live, same) = c.moved o l in rw (m, relocate) refl

  relocated_live : (o : ℕ) → IsLive t.buffer o → IsLive b' (relocate moves o)
  unfolding relocate
  relocated_live o l = let (p, m, live, same) = c.moved o l in rw (m, relocate) live

  relocated_bytes :
      (o : ℕ)
      → IsLive t.buffer o
      → slice (relocate moves o) t.buffer.record_size b'.write_buffer
        ≡ slice o t.buffer.record_size t.buffer.write_buffer
  unfolding relocate
  relocated_bytes o l = let (p, m, live, same) = c.moved o l in rw (m, relocate) same

  compact_entry :
      (f p : ℕ)
      → HashMap.get (map_values (relocate moves) t.entity_index) f ≡ some p
      → (o : ℕ) × (HashMap.get t.entity_index f ≡ some o) × (relocate moves o ≡ p)
  compact_entry f p h = elim (Option-cases (HashMap.get t.entity_index f)) [
    | inl missing ↦
        cc (get-map_values (relocate moves) t.entity_index f, ap (mapped (relocate moves)) missing)
    | inr (o, e) ↦ (
      o,
      e,
      cc (get-map_values (relocate moves) t.entity_index f, ap (mapped (relocate moves)) e, h),
    )
  ]

  relocate_injective :
      (o q : ℕ)
      → IsLive t.buffer o
      → IsLive t.buffer q
      → relocate moves o ≡ relocate moves q
      → o ≡ q
  relocate_injective o q l k same = elim (Bool-cases (ltb o q)) [
    | inl lt ↦
        absurd (omega (arith, c.ordered o q _ _ l k (ground arith) (relocated o l) (relocated q k)))
    | inr ge ↦ elim (Bool-cases (ltb q o)) [
      | inl gt ↦
          absurd
            (omega (arith, c.ordered q o _ _ k l (ground arith) (relocated q k) (relocated o l)))
      | inr le ↦ ground arith
    ]
  ]

  compact-IsWf : IsWf after_compact
  compact-IsWf = record {
    buffer = c.wf;
    live = λ f p h.
        let (o, e, r) = compact_entry f p h in
        subst (IsLive b') r (relocated_live o (w.live f o e));
    apart = λ f g p h k.
        let (o, e, r) = compact_entry f p h in
        let (q, d, r') = compact_entry g p k in
        let same : o ≡ q = relocate_injective o q (w.live f o e) (w.live g q d) (r ∙ sym r') in
        w.apart f g q (e ∙ ap some same) d;
    enough = omega (arith, w.enough, c.active, length-map_values (relocate moves) t.entity_index);
  }

  compact_stored : (f : ℕ) → stored after_compact f ≡ stored t f
  compact_stored f = elim (Option-cases (HashMap.get t.entity_index f)) [
    | inl missing ↦ rw (get-map_values (relocate moves) t.entity_index f, missing)
    | inr (o, e) ↦
        rw (get-map_values (relocate moves) t.entity_index f, e, c.size)
          (ap some (relocated_bytes o (w.live f o e)))
  ]

-- Compaction of a well-formed table never panics, and changes no record of any entity.
pub compact-stored :
    (t : ComponentTable)
    → IsWf t
    → (t' : ComponentTable) × (compact t ≡ ok t') × IsWf t' × ((f : ℕ) → stored t' f ≡ stored t f)
unfolding compact
compact-stored t w =
    let (moves, b', run, c) = compact-Compaction t.buffer w.buffer in
    (
      after_compact t w moves b' c,
      rw run,
      compact-IsWf t w moves b' c,
      compact_stored t w moves b' c,
    )

-- What `get` returns for the bytes of a record.
abbrev pub from_stored : {T : Type 0} → Codec T → ℕ → Option Bytes → Result T
from_stored codec e none = err (component_not_found e type_name)
from_stored codec e (some bytes) = decode codec bytes

-- After `commit`, `get` decodes what the table holds for the entity, and fails with
-- `ComponentNotFound` exactly where the table holds nothing: no read is out of bounds.
pub get-commit :
    {T : Type 0} (codec : Codec T) (t : ComponentTable) (e : ℕ)
    → IsWf t
    → get codec (commit t) e ≡ from_stored codec e (stored t e)
unfolding get commit Buffer.read Buffer.commit
get-commit codec t e w = elim (Option-cases (HashMap.get t.entity_index e)) [
  | inl missing ↦ rw missing
  | inr (o, at) ↦ rw (
    at,
    le→ltb (length t.buffer.write_buffer) (o + t.buffer.record_size)
        (IsLive-fits t.buffer o w.buffer (w.live e o at)),
  )
]

-- Until a commit an insertion is invisible to the readers of other entities: `get` of those
-- returns what it returned before.
pub get-insert_uncommitted :
    {T : Type 0} (codec : Codec T) (t : ComponentTable) (e : ℕ) (component : T) (bytes : Bytes)
    → IsWf t
    → codec.serialize component ≡ some bytes
    → length bytes ≡ t.buffer.record_size
    → (o : ℕ) × (t' : ComponentTable) × (insert codec t e component ≡ ok (o, t'))
      × ((f : ℕ) → e ≢ f → get codec t' f ≡ get codec t f)
unfolding insert encode get Buffer.read
get-insert_uncommitted codec t e component bytes w enc len =
    let (o, b', run, i) = insert-Inserted t.buffer bytes w.buffer len in
    (
      o,
      after_insert t w e o bytes b' i,
      rw (enc, (==_iff (length bytes) t.buffer.record_size).1 len, run),
      λ f ne.
          let other : (e == f) ≡ false = ground arith in
          rw (get-insert t.entity_index e f o, other, i.reader, i.size),
    )
