-- ===== src/Storage/Buffer/Compact.antt =====
-- `ArcStorageBuffer::compact`: the loop moves every live record down, and maps its old offset.
use rodengine.Common.{
  ℕ, zero, suc, ◌+◌, ◌*◌, ◌≤◌, ◌<◌, ◌≡◌, inl, inr, refl, ap, sym, subst, ◌∙◌, true, false, List,
  some, arith, length, contains, slice, splice, ltb, ◌==◌, Bool-cases, length-splice, length-slice,
  slice-splice_len, le→ltb, slice-splice_ne, ==_iff, le→leb, if◌then◌else◌,
}
use rodengine.Common.HashMap
use rodengine.Common.HashMap.{HashMap, get-insert}
use rodengine.Error.{ok}
use rodengine.Storage.Buffer.{CompactState, move_slot, compact_loop}
use rodengine.Storage.Buffer.Slots.{index_apart}

-- The loop at `old` of `total` slots: what is ahead is in the buffer and not moved over.
pub record Ready (rs total old : ℕ) (s : CompactState) : Type 0 where
  pub behind : s.new_slot ≤ old
  pub ahead : old ≤ total
  pub fits : total * rs ≤ length s.buffer

-- `s'` has slot `i` of `s` at some lower slot, among those that the loop filled.
pub record Moved (rs i : ℕ) (s s' : CompactState) (j : ℕ) : Type 0 where
  pub from : s.new_slot ≤ j
  pub below : j < s'.new_slot
  pub down : j ≤ i
  pub mapped_to : HashMap.get s'.old_to_new (i * rs) ≡ some (j * rs)
  pub copied : slice (j * rs) rs s'.buffer ≡ slice (i * rs) rs s.buffer

-- What a run of the loop from slot `old` leaves alone.
pub record Frame (rs old : ℕ) (s s' : CompactState) : Type 0 where
  pub monotone : s.new_slot ≤ s'.new_slot
  pub same_length : length s'.buffer ≡ length s.buffer
  pub filled : (j : ℕ) → j < s.new_slot → slice (j * rs) rs s'.buffer ≡ slice (j * rs) rs s.buffer
  pub mapped :
      (i : ℕ) → i < old → HashMap.get s'.old_to_new (i * rs) ≡ HashMap.get s.old_to_new (i * rs)

same_product : (rs i j : ℕ) → 0 < rs → i * rs ≡ j * rs → i ≡ j
same_product rs i j pos h = elim (Bool-cases (ltb i j)) [
  | inl lt ↦ absurd (omega (arith, index_apart rs i j (ground arith)))
  | inr ge ↦ elim (Bool-cases (i == j)) [
    | inl eq ↦ ground arith
    | inr ne ↦ absurd (omega (arith, index_apart rs j i (ground arith)))
  ]
]

-- One round of the loop for a live slot.
record One (rs total old : ℕ) (s s' : CompactState) : Type 0 where
  pub moves : Moved rs old s s' s.new_slot
  pub frame : Frame rs old s s'
  pub rest :
      (i : ℕ) → old < i → i < total → slice (i * rs) rs s'.buffer ≡ slice (i * rs) rs s.buffer
  pub count : s'.new_slot ≡ s.new_slot + 1

module _ (rs total old : ℕ) (s : CompactState) (pos : 0 < rs) (r : Ready rs total old s)
    (more : old < total) where
  -- The state after one move, when the slot changes place.
  abbrev moved : CompactState
  moved = record {
    buffer = splice (s.new_slot * rs) (slice (old * rs) rs s.buffer) s.buffer;
    old_to_new = HashMap.insert s.old_to_new (old * rs) (s.new_slot * rs);
    new_slot = s.new_slot + 1;
  }

  source_fits : old * rs + rs ≤ length s.buffer
  source_fits = omega (arith, index_apart rs old total more, r.fits)

  staying : CompactState
  staying = record s {
    old_to_new = HashMap.insert s.old_to_new (old * rs) (s.new_slot * rs);
    new_slot = s.new_slot + 1;
  }

  inserted_here :
      (i : ℕ)
      → i < old
      → HashMap.get (HashMap.insert s.old_to_new (old * rs) (s.new_slot * rs)) (i * rs)
        ≡ HashMap.get s.old_to_new (i * rs)
  inserted_here i h =
      ground (
        arith,
        get-insert s.old_to_new (old * rs) (i * rs) (s.new_slot * rs),
        index_apart rs i old h,
      )

  inserted_self :
      HashMap.get (HashMap.insert s.old_to_new (old * rs) (s.new_slot * rs)) (old * rs)
      ≡ some (s.new_slot * rs)
  inserted_self = ground (arith, get-insert s.old_to_new (old * rs) (old * rs) (s.new_slot * rs))

  staying-One : old * rs ≡ s.new_slot * rs → One rs total old s staying
  unfolding staying
  staying-One same = record {
    moves = record {
      from = omega arith;
      below = omega arith;
      down = r.behind;
      mapped_to = inserted_self;
      copied = ap (λ (o : ℕ). slice o rs s.buffer) (sym same);
    };
    frame = record {
      monotone = omega arith;
      same_length = refl;
      filled = λ j h. refl;
      mapped = inserted_here;
    };
    rest = λ i h k. refl;
    count = refl;
  }

  length_source : length (slice (old * rs) rs s.buffer) ≡ rs
  length_source = length-slice (old * rs) rs s.buffer source_fits

  target_fits : s.new_slot * rs + rs ≤ old * rs + rs
  target_fits = grind (arith, r.behind)

  moved-One : One rs total old s moved
  moved-One = record {
    moves = record {
      from = omega arith;
      below = omega arith;
      down = r.behind;
      mapped_to = inserted_self;
      copied =
          slice-splice_len (s.new_slot * rs) rs (slice (old * rs) rs s.buffer) s.buffer
            length_source (omega (arith, target_fits, source_fits));
    };
    frame = record {
      monotone = omega arith;
      same_length = length-splice (s.new_slot * rs) (slice (old * rs) rs s.buffer) s.buffer;
      filled = λ j h.
          slice-splice_ne (s.new_slot * rs) (j * rs) rs _ s.buffer
            (inl (index_apart rs j s.new_slot h));
      mapped = inserted_here;
    };
    rest = λ i h k.
        slice-splice_ne (s.new_slot * rs) (i * rs) rs _ s.buffer
          (inr (omega (arith, length_source, target_fits, index_apart rs old i h)));
    count = refl;
  }

  move_slot-One : (s' : CompactState) × (move_slot rs old s ≡ ok s') × One rs total old s s'
  unfolding move_slot staying
  move_slot-One = elim (Bool-cases (old * rs == s.new_slot * rs)) [
    | inl same ↦
        (staying, rw (same, move_slot), staying-One ((==_iff (old * rs) (s.new_slot * rs)).0 same))
    | inr differ ↦ (
      moved,
      rw (
        differ,
        le→ltb (length s.buffer) (s.new_slot * rs + rs) (omega (arith, target_fits, source_fits)),
        le→leb (old * rs + rs) (length s.buffer) source_fits,
      ),
      moved-One,
    )
  ]

-- A run of the loop from slot `old`: the frame, where each live slot goes, and that their order
-- is kept.
-- The slots of `[old, old + rounds)` that are not free.
unfoldable pub live_count : ℕ → List ℕ → ℕ → ℕ
live_count zero free old = 0
live_count (suc rounds) free old =
    (if contains free old then 0 else 1) + live_count rounds free (old + 1)

pub record Compacted (rs total old : ℕ) (free : List ℕ) (s s' : CompactState) : Type 0 where
  pub frame : Frame rs old s s'
  pub image : (i : ℕ) → old ≤ i → i < total → contains free i ≡ false → (j : ℕ) × Moved rs i s s' j
  pub ordered :
      (i k o p : ℕ)
      → old ≤ i
      → i < k
      → k < total
      → contains free i ≡ false
      → contains free k ≡ false
      → HashMap.get s'.old_to_new (i * rs) ≡ some o
      → HashMap.get s'.old_to_new (k * rs) ≡ some p
      → o < p

done : (rs total : ℕ) (free : List ℕ) (s : CompactState) → Compacted rs total total free s s
done rs total free s = record {
  frame = record {
    monotone = omega arith;
    same_length = refl;
    filled = λ j h. refl;
    mapped = λ i h. refl;
  };
  image = λ i h k f. absurd (omega arith);
  ordered = λ i k o p a b c. absurd (omega arith);
}

past :
    (old i : ℕ) (free : List ℕ)
    → contains free old ≡ true
    → contains free i ≡ false
    → old ≤ i
    → old + 1 ≤ i
past old i free dead live h = elim (Bool-cases (old == i)) [
  | inl same ↦ cc (ap (contains free) ((==_iff old i).0 same))
  | inr ne ↦ ground arith
]

-- A free slot is skipped.
skipped :
    (rs total old : ℕ) (free : List ℕ) (s s' : CompactState)
    → contains free old ≡ true
    → Compacted rs total (old + 1) free s s'
    → Compacted rs total old free s s'
skipped rs total old free s s' dead c = record {
  frame = record {
    monotone = c.frame.monotone;
    same_length = c.frame.same_length;
    filled = c.frame.filled;
    mapped = λ i h. c.frame.mapped i (omega arith);
  };
  image = λ i h k f. c.image i (past old i free dead f h) k f;
  ordered = λ i k o p a b d f g. c.ordered i k o p (past old i free dead f a) b d f g;
}

-- A live slot is moved, and the rest of the loop leaves it there.
module _ (rs total old : ℕ) (free : List ℕ) (s s₁ s' : CompactState) (one : One rs total old s s₁)
    (c : Compacted rs total (old + 1) free s₁ s') where
  head_image : Moved rs old s s' s.new_slot
  head_image = record {
    from = omega arith;
    below = omega (arith, one.count, c.frame.monotone);
    down = one.moves.down;
    mapped_to = c.frame.mapped old (omega arith) ∙ one.moves.mapped_to;
    copied = c.frame.filled s.new_slot (omega (arith, one.count)) ∙ one.moves.copied;
  }

  tail_image : (i j : ℕ) → old < i → i < total → Moved rs i s₁ s' j → Moved rs i s s' j
  tail_image i j h k m = record {
    from = omega (arith, one.count, m.from);
    below = m.below;
    down = m.down;
    mapped_to = m.mapped_to;
    copied = m.copied ∙ one.rest i h k;
  }

  step_ordered :
      (i k o p : ℕ)
      → old ≤ i
      → i < k
      → k < total
      → contains free i ≡ false
      → contains free k ≡ false
      → HashMap.get s'.old_to_new (i * rs) ≡ some o
      → HashMap.get s'.old_to_new (k * rs) ≡ some p
      → 0 < rs
      → o < p
  step_ordered i k o p a b d f g x y pos = elim (Bool-cases (old == i)) [
    | inl here ↦
        let (j, m) = c.image k (omega arith) d g in
        let e : old ≡ i = ground arith in
        let o_is : s.new_slot * rs ≡ o = cc (e, head_image.mapped_to) in
        let p_is : j * rs ≡ p = cc m.mapped_to in
        omega (arith, index_apart rs s.new_slot j (omega (arith, m.from, one.count)))
    | inr later ↦ c.ordered i k o p (ground arith) b d f g x y
  ]

  step : 0 < rs → Compacted rs total old free s s'
  step pos = record {
    frame = record {
      monotone = omega (arith, one.count, c.frame.monotone);
      same_length = c.frame.same_length ∙ one.frame.same_length;
      filled = λ j h. c.frame.filled j (omega (arith, one.count)) ∙ one.frame.filled j h;
      mapped = λ i h. c.frame.mapped i (omega arith) ∙ one.frame.mapped i h;
    };
    image = λ i h k f. elim (Bool-cases (old == i)) [
      | inl here ↦
          (s.new_slot, subst (λ t. Moved rs t s s' s.new_slot) ((==_iff old i).0 here) head_image)
      | inr later ↦
          let (j, m) = c.image i (ground arith) k f in (j, tail_image i j (ground arith) k m)
    ];
    ordered = λ i k o p a b d f g x y. step_ordered i k o p a b d f g x y pos;
  }

Ready-next :
    (rs total old : ℕ) (s s' : CompactState)
    → Ready rs total old s
    → old < total
    → One rs total old s s'
    → Ready rs total (old + 1) s'
Ready-next rs total old s s' r more one = record {
  behind = omega (arith, one.count, r.behind);
  ahead = omega arith;
  fits = omega (arith, one.frame.same_length, r.fits);
}

-- The loop ends without a panic, and moves every live slot.
pub compact_loop-Compacted :
    (rounds rs total old : ℕ) (free : List ℕ) (s : CompactState)
    → 0 < rs
    → old + rounds ≡ total
    → Ready rs total old s
    → (s' : CompactState) × (compact_loop rounds rs free old s ≡ ok s')
      × Compacted rs total old free s s'
unfolding compact_loop
compact_loop-Compacted zero rs total old free s pos e r =
    (s, refl, subst (λ t. Compacted rs total t free s s) (omega arith) (done rs total free s))
compact_loop-Compacted (suc n) rs total old free s pos e r = elim (Bool-cases (contains free old)) [
  | inl dead ↦
      let (s', run, c) =
        compact_loop-Compacted n rs total (old + 1) free s pos (omega arith)
          (record { behind = omega (arith, r.behind); ahead = omega arith; fits = r.fits }) in
      (s', rw (dead, compact_loop) run, skipped rs total old free s s' dead c)
  | inr live ↦
      let more : old < total = omega arith in
      let (s₁, ran, one) = move_slot-One rs total old s pos r more in
      let (s', run, c) =
        compact_loop-Compacted n rs total (old + 1) free s₁ pos (omega arith)
          (Ready-next rs total old s s₁ r more one) in
      (s', rw (live, compact_loop, ran) run, step rs total old free s s₁ s' one c pos)
]

pub new_slot-compact_loop :
    (rounds rs total old : ℕ) (free : List ℕ) (s s' : CompactState)
    → 0 < rs
    → old + rounds ≡ total
    → Ready rs total old s
    → compact_loop rounds rs free old s ≡ ok s'
    → s'.new_slot ≡ s.new_slot + live_count rounds free old
unfolding compact_loop live_count
new_slot-compact_loop zero rs total old free s s' pos e r run = ground arith
new_slot-compact_loop (suc n) rs total old free s s' pos e r run =
    elim (Bool-cases (contains free old)) [
      | inl dead ↦
          let rest =
            new_slot-compact_loop n rs total (old + 1) free s s' pos (omega arith)
              (record { behind = omega (arith, r.behind); ahead = omega arith; fits = r.fits })
              (rw (dead, compact_loop) at run) in
          rw dead (omega (arith, rest))
      | inr live ↦
          let more : old < total = omega arith in
          let (s₁, ran, one) = move_slot-One rs total old s pos r more in
          let rest =
            new_slot-compact_loop n rs total (old + 1) free s₁ s' pos (omega arith)
              (Ready-next rs total old s s₁ r more one) (rw (live, compact_loop, ran) at run) in
          rw live (omega (arith, rest, one.count))
    ]
