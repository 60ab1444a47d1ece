-- ===== src/Storage/Buffer/Compaction.antt =====
-- `ArcStorageBuffer::compact` as a whole: the records keep their bytes, under the mapping it returns.
use rodengine.Common.{
  ℕ, zero, suc, ◌+◌, ◌*◌, ◌/◌, ◌≤◌, ◌<◌, ◌≡◌, inl, inr, false, List, [], ◌∷◌, map, some, arith,
  length, contains, slice, ◌==◌, Bool-cases, ==_iff, refl, sym, subst, ltb,
}
use rodengine.Common.HashMap
use rodengine.Common.HashMap.{HashMap}
use rodengine.Error.{ok}
use rodengine.Storage.Buffer.{ArcStorageBuffer, CompactState, compact}
use rodengine.Storage.Buffer.Slots.{
  FreeIn, IsWf, IsLive, slot_index, slot_index-lt, IsSlot-of_index,
}
use rodengine.Storage.Buffer.Compact.{
  Compacted, Ready, live_count, compact_loop-Compacted, new_slot-compact_loop,
}

abbrev indices : ℕ → List ℕ → List ℕ
indices rs = map (λ o. o / rs)

-- A slot index is in the set of free indices exactly when its offset is in the free list.
contains-indices :
    (rs n i : ℕ) (free : List ℕ)
    → 0 < rs
    → FreeIn rs n free
    → contains (indices rs free) i ≡ contains free (i * rs)
contains-indices rs n i [] pos h = refl
contains-indices rs n i (o ∷ free) pos h =
    let e : o ≡ (o / rs) * rs = slot_index rs n o h.0 in
    grind (arith, contains-indices rs n i free pos h.2, e)

live_count-nil : (n old : ℕ) → live_count n [] old ≡ n
unfolding live_count
live_count-nil zero old = refl
live_count-nil (suc n) old = omega (arith, live_count-nil n (old + 1))

live_count-cons_out :
    (n old x : ℕ) (free : List ℕ) → x < old → live_count n (x ∷ free) old ≡ live_count n free old
unfolding live_count
live_count-cons_out zero old x free h = refl
live_count-cons_out (suc n) old x free h =
    ground (arith, live_count-cons_out n (old + 1) x free (omega arith))

live_count-cons :
    (n old x : ℕ) (free : List ℕ)
    → old ≤ x
    → x < old + n
    → contains free x ≡ false
    → live_count n (x ∷ free) old + 1 ≡ live_count n free old
unfolding live_count
live_count-cons zero old x free a b f = absurd (omega arith)
live_count-cons (suc n) old x free a b f = elim (Bool-cases (x == old)) [
  | inl here ↦
      let e : x ≡ old = (==_iff x old).0 here in
      let g : contains free old ≡ false = subst (λ t. contains free t ≡ false) e f in
      rw (here, g) (omega (arith, live_count-cons_out n (old + 1) x free (omega arith)))
  | inr later ↦
      rw later (omega (arith, live_count-cons n (old + 1) x free (ground arith) (omega arith) f))
]

live_count-free :
    (rs n : ℕ) (free : List ℕ)
    → 0 < rs
    → FreeIn rs n free
    → live_count n (indices rs free) 0 + length free ≡ n
live_count-free rs n [] pos h = omega (arith, live_count-nil n 0)
live_count-free rs n (o ∷ free) pos h =
    let fresh : contains (indices rs free) (o / rs) ≡ false =
      rw (contains-indices rs n (o / rs) free pos h.2, ← slot_index rs n o h.0) h.1 in
    omega (
      arith,
      live_count-cons n 0 (o / rs) (indices rs free) (omega arith)
          (omega (arith, slot_index-lt rs n o pos h.0)) fresh,
      live_count-free rs n free pos h.2,
    )

-- `b'` holds the live records of `b`, moved as `moves` tells and in the same order.
pub record Compaction (b : ArcStorageBuffer) (moves : HashMap ℕ) (b' : ArcStorageBuffer)
    : Type 0 where
  pub wf : IsWf b'
  pub size : b'.record_size ≡ b.record_size
  pub reader : b'.read_buffer ≡ b.read_buffer
  pub no_gap : b'.free_list ≡ []
  pub active : b'.active_count ≡ b.active_count
  pub moved :
      (o : ℕ)
      → IsLive b o
      → (p : ℕ) × (HashMap.get moves o ≡ some p)
        × IsLive b' p
        × (slice p b.record_size b'.write_buffer ≡ slice o b.record_size b.write_buffer)
  pub ordered :
      (o o' p p' : ℕ)
      → IsLive b o
      → IsLive b o'
      → o < o'
      → HashMap.get moves o ≡ some p
      → HashMap.get moves o' ≡ some p'
      → p < p'

mul_mono : (m n k : ℕ) → m ≤ n → m * k ≤ n * k
mul_mono m n k h = grind arith

module _ (b : ArcStorageBuffer) (w : IsWf b) where
  abbrev free : List ℕ
  free = indices b.record_size b.free_list

  abbrev start : CompactState
  start = record { buffer = b.write_buffer; old_to_new = []; new_slot = 0 }

  ready : Ready b.record_size b.next_record_offset 0 start
  ready = record { behind = omega arith; ahead = omega arith; fits = w.fits }

  module _ (s : CompactState) (c : Compacted b.record_size b.next_record_offset 0 free start s)
      (count : s.new_slot + length b.free_list ≡ b.next_record_offset) where
    abbrev after : ArcStorageBuffer
    after = record b { write_buffer = s.buffer; next_record_offset = s.new_slot; free_list = [] }

    after-IsWf : IsWf after
    after-IsWf = record {
      pos = w.pos;
      fits = omega (
        arith,
        w.fits,
        c.frame.same_length,
        mul_mono s.new_slot b.next_record_offset b.record_size (omega (arith, count)),
      );
      roomy = omega (arith, w.roomy, c.frame.same_length);
      free = tt;
      counted = omega (arith, w.counted);
    }

    index_live : (o : ℕ) → IsLive b o → contains free (o / b.record_size) ≡ false
    index_live o l =
        rw
          (
            contains-indices b.record_size b.next_record_offset (o / b.record_size) b.free_list
                w.pos w.free,
            ← slot_index b.record_size b.next_record_offset o l.slot,
          )
          l.used

    after_moved :
        (o : ℕ)
        → IsLive b o
        → (p : ℕ) × (HashMap.get s.old_to_new o ≡ some p)
          × IsLive after p
          × (slice p b.record_size s.buffer ≡ slice o b.record_size b.write_buffer)
    after_moved o l =
        let e : o ≡ (o / b.record_size) * b.record_size =
          slot_index b.record_size b.next_record_offset o l.slot in
        let (j, m) =
          c.image (o / b.record_size) (omega arith)
            (slot_index-lt b.record_size b.next_record_offset o w.pos l.slot) (index_live o l) in
        (
          j * b.record_size,
          subst (λ t. HashMap.get s.old_to_new t ≡ some (j * b.record_size)) (sym e) m.mapped_to,
          record { slot = IsSlot-of_index b.record_size s.new_slot j m.below w.pos; used = refl },
          subst
              (λ t.
                slice (j * b.record_size) b.record_size s.buffer
                ≡ slice t b.record_size b.write_buffer)
              (sym e) m.copied,
        )

    index_lt :
        (o o' : ℕ) → IsLive b o → IsLive b o' → o < o' → o / b.record_size < o' / b.record_size
    index_lt o o' l l' lt = elim (Bool-cases (ltb (o / b.record_size) (o' / b.record_size))) [
      | inl less ↦ ground arith
      | inr ge ↦
          let ge' : o' / b.record_size ≤ o / b.record_size = ground arith in
          absurd (
            omega (
              arith,
              mul_mono (o' / b.record_size) (o / b.record_size) b.record_size ge',
              slot_index b.record_size b.next_record_offset o l.slot,
              slot_index b.record_size b.next_record_offset o' l'.slot,
            ))
    ]

    after_ordered :
        (o o' p p' : ℕ)
        → IsLive b o
        → IsLive b o'
        → o < o'
        → HashMap.get s.old_to_new o ≡ some p
        → HashMap.get s.old_to_new o' ≡ some p'
        → p < p'
    after_ordered o o' p p' l l' lt x y =
        c.ordered (o / b.record_size) (o' / b.record_size) p p' (omega arith)
          (index_lt o o' l l' lt)
          (slot_index-lt b.record_size b.next_record_offset o' w.pos l'.slot) (index_live o l)
          (index_live o' l')
          (subst (λ t. HashMap.get s.old_to_new t ≡ some p)
            (slot_index b.record_size b.next_record_offset o l.slot) x)
          (subst (λ t. HashMap.get s.old_to_new t ≡ some p')
            (slot_index b.record_size b.next_record_offset o' l'.slot) y)

-- A well-formed buffer compacts without a panic: every live record keeps its bytes at the offset
-- that the returned mapping gives, the order of the records is kept, and no gap remains.
pub compact-Compaction :
    (b : ArcStorageBuffer)
    → IsWf b
    → (moves : HashMap ℕ) × (b' : ArcStorageBuffer) × (compact b ≡ ok (moves, b'))
      × Compaction b moves b'
unfolding compact
compact-Compaction b w =
    let (s, run, c) =
      compact_loop-Compacted b.next_record_offset b.record_size b.next_record_offset 0 (free b w)
        (start b w) w.pos (omega arith) (ready b w) in
    let count =
      new_slot-compact_loop b.next_record_offset b.record_size b.next_record_offset 0 (free b w)
        (start b w) s w.pos (omega arith) (ready b w) run in
    let total : s.new_slot + length b.free_list ≡ b.next_record_offset =
      omega (
        arith,
        count,
        live_count-free b.record_size b.next_record_offset b.free_list w.pos w.free,
      ) in
    let positive : (b.record_size == 0) ≡ false = ground arith in
    (
      s.old_to_new,
      after b w s c total,
      rw (positive, compact, run),
      record {
        wf = after-IsWf b w s c total;
        size = refl;
        reader = refl;
        no_gap = refl;
        active = refl;
        moved = after_moved b w s c total;
        ordered = after_ordered b w s c total;
      },
    )
