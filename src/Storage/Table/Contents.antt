-- ===== src/Storage/Table/Contents.antt =====
-- A component table is a map from entities to records: what each operation does to it.
use rodengine.Common.{
  ℕ, ◌+◌, ◌≤◌, ◌≡◌, ◌≢◌, ◌⊎◌, inl, inr, refl, sym, subst, ap, ◌∙◌, Option, none, some, length,
  splice, arith, ◌==◌, ==_iff, Bool-cases, if◌then◌else◌, le→ltb, length-splice, slice-splice_len,
  slice-splice_ne,
}
use rodengine.Common.HashMap
use rodengine.Common.HashMap.{
  mapped, get-insert, get-remove, get-map_values, map_values, length-insert-le, length-remove-lt,
  length-map_values,
}
use rodengine.Error.{ok}
use rodengine.Storage.Buffer
use rodengine.Storage.Buffer.{ArcStorageBuffer, Bytes}
use rodengine.Storage.Buffer.Slots.{IsLive, IsLive-fits, slots_apart}
use rodengine.Storage.Buffer.Insert.{Inserted, insert-Inserted}
use rodengine.Storage.Table.{ComponentTable, Codec, encode, insert, update}
use rodengine.Storage.Table.Wf.{IsWf, stored}

pub mapped_ext :
    (f g : ℕ → Bytes) (o : Option ℕ) → ((x : ℕ) → o ≡ some x → f x ≡ g x) → mapped f o ≡ mapped g o
mapped_ext f g none h = refl
mapped_ext f g (some x) h = ap some (h x refl)

module _ (t : ComponentTable) (w : IsWf t) (e o : ℕ) (bytes : Bytes) (b' : ArcStorageBuffer)
    (i : Inserted t.buffer bytes o b') where
  abbrev pub after_insert : ComponentTable
  after_insert = record { buffer = b'; entity_index = HashMap.insert t.entity_index e o }

  entry :
      (f p : ℕ)
      → HashMap.get (HashMap.insert t.entity_index e o) f ≡ some p
      → ((e ≡ f) × (p ≡ o)) ⊎ (HashMap.get t.entity_index f ≡ some p)
  entry f p h = ground (arith, get-insert t.entity_index e f o)

  not_other : (f : ℕ) → HashMap.get t.entity_index f ≢ some o
  not_other f h = i.was_dead (w.live f o h)

  insert_apart :
      (f g p : ℕ)
      → ((e ≡ f) × (p ≡ o)) ⊎ (HashMap.get t.entity_index f ≡ some p)
      → ((e ≡ g) × (p ≡ o)) ⊎ (HashMap.get t.entity_index g ≡ some p)
      → f ≡ g
  insert_apart f g p (inl a) (inl b) = omega arith
  insert_apart f g p (inl a) (inr b) = absurd (not_other g (b ∙ ap some a.1))
  insert_apart f g p (inr a) (inl b) = absurd (not_other f (a ∙ ap some b.1))
  insert_apart f g p (inr a) (inr b) = w.apart f g p a b

  insert-IsWf : IsWf after_insert
  insert-IsWf = record {
    buffer = i.wf;
    live = λ f p h. elim (entry f p h) [
      | inl here ↦ subst (IsLive b') (sym here.1) i.live
      | inr old ↦ i.stays p (w.live f p old)
    ];
    apart = λ f g p h k. insert_apart f g p (entry f p h) (entry g p k);
    enough = omega (arith, i.one_more, w.enough, length-insert-le t.entity_index e o);
  }

  insert_stored : (f : ℕ) → stored after_insert f ≡ (if e == f then some bytes else stored t f)
  insert_stored f = elim (Bool-cases (e == f)) [
    | inl here ↦ rw (get-insert t.entity_index e f o, here, i.size) (ap some i.stored)
    | inr other ↦
        rw (get-insert t.entity_index e f o, other, i.size)
          (mapped_ext _ _ (HashMap.get t.entity_index f) (λ p h. i.kept p (w.live f p h)))
  ]

-- `insert` of a component whose encoding has the record size never fails: the table stays well
-- formed, and holds the encoding for that entity and what it held for every other.
pub insert-stored :
    {T : Type 0} (codec : Codec T) (t : ComponentTable) (e : ℕ) (component : T) (bytes : Bytes)
    → IsWf t
    → codec.serialize component ≡ some bytes
    → length bytes ≡ t.buffer.record_size
    → (o : ℕ) × (t' : ComponentTable) × (insert codec t e component ≡ ok (o, t'))
      × IsWf t'
      × ((f : ℕ) → stored t' f ≡ (if e == f then some bytes else stored t f))
unfolding insert encode
insert-stored codec t e component bytes w enc len =
    let (o, b', run, i) = insert-Inserted t.buffer bytes w.buffer len in
    (
      o,
      after_insert t w e o bytes b' i,
      rw (enc, (==_iff (length bytes) t.buffer.record_size).1 len, run),
      insert-IsWf t w e o bytes b' i,
      insert_stored t w e o bytes b' i,
    )

-- Overwriting the slot of an entity.
module _ (t : ComponentTable) (w : IsWf t) (e o : ℕ) (bytes : Bytes)
    (at : HashMap.get t.entity_index e ≡ some o) (len : length bytes ≡ t.buffer.record_size) where
  abbrev after_update : ComponentTable
  after_update = record t {
    buffer = record t.buffer { write_buffer = splice o bytes t.buffer.write_buffer };
  }

  slot_room : o + length bytes ≤ length t.buffer.write_buffer
  slot_room = omega (arith, IsLive-fits t.buffer o w.buffer (w.live e o at))

  same_live : (p : ℕ) → IsLive t.buffer p → IsLive after_update.buffer p
  same_live p l = record { slot = l.slot; used = l.used }

  update-IsWf : IsWf after_update
  update-IsWf = record {
    buffer = record {
      pos = w.buffer.pos;
      fits = omega (arith, w.buffer.fits, length-splice o bytes t.buffer.write_buffer);
      roomy = omega (arith, w.buffer.roomy, length-splice o bytes t.buffer.write_buffer);
      free = w.buffer.free;
      counted = w.buffer.counted;
    };
    live = λ f p h. same_live p (w.live f p h);
    apart = w.apart;
    enough = w.enough;
  }

  other_slot :
      (f p : ℕ)
      → e ≢ f
      → HashMap.get t.entity_index f ≡ some p
      → (p + t.buffer.record_size ≤ o) ⊎ (o + length bytes ≤ p)
  other_slot f p ne h = rw len (
      slots_apart t.buffer.record_size t.buffer.next_record_offset t.buffer.next_record_offset p o
        w.buffer.pos (w.live f p h).slot (w.live e o at).slot
        (λ same. ne (w.apart e f o at (h ∙ ap some same))))

  update_stored : (f : ℕ) → stored after_update f ≡ (if e == f then some bytes else stored t f)
  update_stored f = elim (Bool-cases (e == f)) [
    | inl here ↦
        let e≡f : e ≡ f = (==_iff e f).0 here in
        rw (here, ← e≡f, at)
          (ap some (
            slice-splice_len o t.buffer.record_size bytes t.buffer.write_buffer len
              (omega (arith, slot_room))))
    | inr other ↦ rw other (
        mapped_ext _ _ (HashMap.get t.entity_index f) (λ p h.
          slice-splice_ne o p t.buffer.record_size bytes t.buffer.write_buffer
            (other_slot f p (λ x. ground arith) h)))
  ]

-- `update` of an entity that has a record, by a component of the record size, never fails and
-- replaces that record alone.
pub update-stored :
    {T : Type 0} (codec : Codec T) (t : ComponentTable) (e o : ℕ) (component : T) (bytes : Bytes)
    → IsWf t
    → HashMap.get t.entity_index e ≡ some o
    → codec.serialize component ≡ some bytes
    → length bytes ≡ t.buffer.record_size
    → (t' : ComponentTable) × (update codec t e component ≡ ok t')
      × IsWf t'
      × ((f : ℕ) → stored t' f ≡ (if e == f then some bytes else stored t f))
unfolding update encode Buffer.update
update-stored codec t e o component bytes w at enc len = (
  after_update t w e o bytes at len,
  rw (
    at,
    enc,
    (==_iff (length bytes) t.buffer.record_size).1 len,
    le→ltb (length t.buffer.write_buffer) (o + length bytes) (slot_room t w e o bytes at len),
  ),
  update-IsWf t w e o bytes at len,
  update_stored t w e o bytes at len,
)
