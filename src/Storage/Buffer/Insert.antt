-- ===== src/Storage/Buffer/Insert.antt =====
-- `ArcStorageBuffer::insert` and `free_slot`: allocation keeps the buffer well formed.
use rodengine.Common.{
  ℕ, ◌+◌, ◌*◌, ◌%◌, ◌≤◌, ◌<◌, ◌≡◌, ◌≢◌, ◌⊎◌, inl, inr, refl, ◌∙◌, ap, subst, false, List, [], ◌∷◌,
  arith, length, contains, slice, splice, resize, ltb, Bool-cases, length-splice, length-resize,
  slice-splice_self, slice-splice_ne, slice-resize, ==_iff, le→leb, lt→ltb, max, ◌↔◌,
}
use rodengine.Error.{ok}
use rodengine.Storage.Buffer.{ArcStorageBuffer, Bytes, allocate, allocate_end, insert, free_slot}
use rodengine.Storage.Buffer.Slots.{
  IsSlot-of_index, IsSlot-mono, IsSlot-pred, slot_fits, slots_apart, FreeIn, IsWf, IsLive,
  IsLive-fits,
}

-- `b'` is `b` with the slot `o` taken and not yet written.
record Allocated (b : ArcStorageBuffer) (o : ℕ) (b' : ArcStorageBuffer) : Type 0 where
  fits : b'.next_record_offset * b.record_size ≤ length b'.write_buffer
  roomy : b.record_size ≤ length b'.write_buffer
  counted : b'.active_count + 1 + length b'.free_list ≡ b'.next_record_offset
  free : FreeIn b.record_size b'.next_record_offset b'.free_list
  live : IsLive b' o
  was_dead : ¬ IsLive b o
  stays : (p : ℕ) → IsLive b p → IsLive b' p
  only : (p : ℕ) → IsLive b' p → p ≢ o → IsLive b p
  kept :
      (p : ℕ)
      → IsLive b p
      → slice p b.record_size b'.write_buffer ≡ slice p b.record_size b.write_buffer
  reader : b'.read_buffer ≡ b.read_buffer
  size : b'.record_size ≡ b.record_size
  active : b'.active_count ≡ b.active_count

mem_of_cons : (o p : ℕ) (rest : List ℕ) → contains (o ∷ rest) p ≡ false → contains rest p ≡ false
mem_of_cons o p rest h = ground arith

mem_cons :
    (o p : ℕ) (rest : List ℕ) → p ≢ o → contains rest p ≡ false → contains (o ∷ rest) p ≡ false
mem_cons o p rest ne h = ground arith

mem_head : (o : ℕ) (rest : List ℕ) → contains (o ∷ rest) o ≢ false
mem_head o rest h = ground arith

allocate_reused :
    (b : ArcStorageBuffer) (o : ℕ) (rest : List ℕ)
    → IsWf b
    → b.free_list ≡ o ∷ rest
    → Allocated b o (record b { free_list = rest })
allocate_reused b o rest w e =
    let free = rw e at w.free in
    record {
      fits = w.fits;
      roomy = w.roomy;
      counted = omega (arith, w.counted, ap length e);
      free = free.2;
      live = record { slot = free.0; used = free.1 };
      was_dead = λ l. mem_head o rest (rw e at l.used);
      stays = λ p l. record { slot = l.slot; used = mem_of_cons o p rest (rw e at l.used) };
      only = λ p l ne. record { slot = l.slot; used = rw e (mem_cons o p rest ne l.used) };
      kept = λ p l. refl;
      reader = refl;
      size = refl;
      active = refl;
    }

-- The bumped buffer, before or after growing.
module _ (b : ArcStorageBuffer) (w : IsWf b) (e : b.free_list ≡ []) (buffer : Bytes) where
  open b use {record_size, next_record_offset, write_buffer}

  abbrev bumped : ArcStorageBuffer
  bumped = record b { next_record_offset = next_record_offset + 1; write_buffer = buffer }

  allocate_bumped :
      (next_record_offset + 1) * record_size ≤ length buffer
      → ((p : ℕ)
          → p + record_size ≤ length write_buffer
          → slice p record_size buffer ≡ slice p record_size write_buffer)
      → Allocated b (next_record_offset * record_size) bumped
  allocate_bumped room same = record {
    fits = room;
    roomy = grind (arith, w.pos);
    counted = omega (arith, w.counted, ap length e);
    free = rw e tt;
    live = record {
      slot =
          IsSlot-of_index record_size (next_record_offset + 1) next_record_offset (omega arith)
            w.pos;
      used = rw e;
    };
    was_dead = λ l. absurd (omega (arith, l.slot.below));
    stays = λ p l. record {
      slot =
          IsSlot-mono record_size next_record_offset (next_record_offset + 1) p (omega arith)
            l.slot;
      used = l.used;
    };
    only = λ p l ne. record {
      slot = IsSlot-pred record_size next_record_offset p w.pos l.slot ne;
      used = l.used;
    };
    kept = λ p l. same p (IsLive-fits b p w l);
    reader = refl;
    size = refl;
    active = refl;
  }

allocate_appended :
    (b : ArcStorageBuffer)
    → IsWf b
    → b.free_list ≡ []
    → Allocated b (allocate_end b).0 (allocate_end b).1
unfolding allocate_end
allocate_appended b w e =
    elim (Bool-cases
      (ltb (length b.write_buffer) (b.next_record_offset * b.record_size + b.record_size))) [
        | inl full ↦
            rw (full, allocate_end)
              (allocate_bumped b w e (resize b.write_buffer (length b.write_buffer * 2) 0)
                (omega (
                  arith,
                  w.fits,
                  w.roomy,
                  length-resize b.write_buffer (length b.write_buffer * 2) 0,
                ))
                (λ p h. slice-resize p b.record_size _ b.write_buffer 0 h (omega arith)))
        | inr room ↦
            rw (room, allocate_end)
              (allocate_bumped b w e b.write_buffer (ground arith) (λ p h. refl))
      ]

allocate-Allocated :
    (b : ArcStorageBuffer) (free : List ℕ)
    → IsWf b
    → b.free_list ≡ free
    → Allocated b (allocate free b).0 (allocate free b).1
unfolding allocate
allocate-Allocated b [] w e = allocate_appended b w e
allocate-Allocated b (o ∷ rest) w e = allocate_reused b o rest w e

-- `b'` is `b` with `bytes` in a slot `o` that no record used; every live record keeps its bytes,
-- no other slot comes alive, and readers see what they saw.
pub record Inserted (b : ArcStorageBuffer) (bytes : Bytes) (o : ℕ) (b' : ArcStorageBuffer)
    : Type 0 where
  pub wf : IsWf b'
  pub live : IsLive b' o
  pub was_dead : ¬ IsLive b o
  pub stored : slice o b.record_size b'.write_buffer ≡ bytes
  pub stays : (p : ℕ) → IsLive b p → IsLive b' p
  pub only : (p : ℕ) → IsLive b' p → p ≢ o → IsLive b p
  pub kept :
      (p : ℕ)
      → IsLive b p
      → slice p b.record_size b'.write_buffer ≡ slice p b.record_size b.write_buffer
  pub reader : b'.read_buffer ≡ b.read_buffer
  pub size : b'.record_size ≡ b.record_size
  pub one_more : b'.active_count ≡ b.active_count + 1

module _ (b b₁ : ArcStorageBuffer) (bytes : Bytes) (o : ℕ) (w : IsWf b) (a : Allocated b o b₁)
    (len : length bytes ≡ b.record_size) where
  abbrev written : ArcStorageBuffer
  written = record b₁ {
    write_buffer = splice o bytes b₁.write_buffer;
    active_count = b₁.active_count + 1;
  }

  room : o + length bytes ≤ length b₁.write_buffer
  room = omega (
    arith,
    a.fits,
    slot_fits b.record_size b₁.next_record_offset o w.pos (rw a.size at a.live.slot),
  )

  away : (p : ℕ) → IsLive b p → (p + b.record_size ≤ o) ⊎ (o + length bytes ≤ p)
  away p l = rw len (
      slots_apart b.record_size b.next_record_offset b₁.next_record_offset p o w.pos l.slot
        (rw a.size at a.live.slot) (λ e. a.was_dead (subst (IsLive b) e l)))

  written-Inserted : Inserted b bytes o written
  written-Inserted = record {
    wf = record {
      pos = rw a.size w.pos;
      fits = rw a.size (omega (arith, a.fits, length-splice o bytes b₁.write_buffer));
      roomy = rw a.size (omega (arith, a.roomy, length-splice o bytes b₁.write_buffer));
      free = rw a.size a.free;
      counted = a.counted;
    };
    live = record { slot = a.live.slot; used = a.live.used };
    was_dead = a.was_dead;
    stored = rw (← len) (slice-splice_self o bytes b₁.write_buffer room);
    stays = λ p l. record { slot = (a.stays p l).slot; used = (a.stays p l).used };
    only = λ p l. a.only p (record { slot = l.slot; used = l.used });
    kept = λ p l. slice-splice_ne o p b.record_size bytes b₁.write_buffer (away p l) ∙ a.kept p l;
    reader = a.reader;
    size = a.size;
    one_more = omega (arith, a.active);
  }

-- From a well-formed buffer every record of the right size is inserted: the call neither fails nor
-- panics, whatever the free list holds and whether the buffer grows.
pub insert-Inserted :
    (b : ArcStorageBuffer) (bytes : Bytes)
    → IsWf b
    → length bytes ≡ b.record_size
    → (o : ℕ) × (b' : ArcStorageBuffer) × (insert b bytes ≡ ok (o, b')) × Inserted b bytes o b'
unfolding insert
insert-Inserted b bytes w len =
    let a = allocate-Allocated b b.free_list w refl in
    let o : ℕ = (allocate b.free_list b).0 in
    let b₁ : ArcStorageBuffer = (allocate b.free_list b).1 in
    let fit : o + length bytes ≤ length b₁.write_buffer = room b b₁ bytes o w a len in
    (
      o,
      written b b₁ bytes o w a len,
      rw (
        (==_iff (length bytes) b.record_size).1 len,
        le→leb (o + length bytes) (length b₁.write_buffer) fit,
      ),
      written-Inserted b b₁ bytes o w a len,
    )

-- Freeing a live slot keeps the buffer well formed, and takes just that slot out of use.
pub free_slot-IsWf :
    (b : ArcStorageBuffer) (o : ℕ)
    → IsWf b
    → IsLive b o
    → 0 < b.active_count
    → IsWf (free_slot b o)
      × (¬ IsLive (free_slot b o) o)
      × ((p : ℕ) → p ≢ o → IsLive b p ↔ IsLive (free_slot b o) p)
unfolding free_slot
free_slot-IsWf b o w l some_active =
    rw ((==_iff (o % b.record_size) 0).1 l.slot.aligned, lt→ltb o _ l.slot.below)
      (
        record {
          pos = w.pos;
          fits = w.fits;
          roomy = w.roomy;
          free = (l.slot, l.used, w.free);
          counted = omega (arith, w.counted);
        },
        (λ dead. mem_head o b.free_list dead.used),
        λ p ne. (
          (λ live. record { slot = live.slot; used = mem_cons o p b.free_list ne live.used }),
          λ live. record { slot = live.slot; used = mem_of_cons o p b.free_list live.used },
        ),
      )

-- What freeing a live slot does to the other fields.
pub free_slot_fields :
    (b : ArcStorageBuffer) (o : ℕ)
    → IsLive b o
    → ((free_slot b o).write_buffer ≡ b.write_buffer)
      × ((free_slot b o).record_size ≡ b.record_size)
      × ((free_slot b o).active_count + 1 ≡ max b.active_count 1)
unfolding free_slot
free_slot_fields b o l =
    rw ((==_iff (o % b.record_size) 0).1 l.slot.aligned, lt→ltb o _ l.slot.below)
      (refl, refl, omega arith)
