-- ===== src/Entity/Registry/Ids.antt =====
-- Entity IDs are never handed out twice at a time, and the index always finds the right record.
use rodengine.Common.{
  ℕ, zero, suc, ◌+◌, ◌^◌, ◌≤◌, ◌<◌, ◌≡◌, ◌≢◌, inl, inr, refl, subst, ap, true, false, List, [], ◌∷◌,
  ◌++◌, none, some, length, get_elem?, arith, ◌==◌, ==_iff, Bool-cases, Option-cases, if◌then◌else◌,
  is_some,
}
use rodengine.Common.HashMap
use rodengine.Common.HashMap.{get-insert, get-remove}
use rodengine.Entity.Registry.{
  EntityRecord, EntityRegistry, new, take_id, create_entity, contains_entity,
}

-- The freed IDs are distinct, handed out before, and not in use.
abbrev pub FreeIds : EntityRegistry → List (ℕ × ℕ) → Type 0
FreeIds r [] = Unit {0}
FreeIds r ((id, version) ∷ rest) =
    (id < r.next_id)
    × (HashMap.get r.index id ≡ none)
    × (HashMap.get rest id ≡ none)
    × FreeIds r rest

pub record IsWf (r : EntityRegistry) : Type 0 where
  pub found :
      (e o : ℕ)
      → HashMap.get r.index e ≡ some o
      → (x : EntityRecord) × (get_elem? r.records o ≡ some x) × (x.id ≡ e)
  pub old_ids : (e o : ℕ) → HashMap.get r.index e ≡ some o → e < r.next_id
  pub free : FreeIds r r.freelist

get_elem?-append_left :
    (xs ys : List EntityRecord) (i : ℕ) (x : EntityRecord)
    → get_elem? xs i ≡ some x
    → get_elem? (xs ++ ys) i ≡ some x
get_elem?-append_left [] ys i x h = cc
get_elem?-append_left (y ∷ xs) ys zero x h = h
get_elem?-append_left (y ∷ xs) ys (suc i) x h = get_elem?-append_left xs ys i x h

pub get_elem?-append_end :
    (xs : List EntityRecord) (x : EntityRecord) → get_elem? (xs ++ x ∷ []) (length xs) ≡ some x
get_elem?-append_end [] x = refl
get_elem?-append_end (y ∷ xs) x = get_elem?-append_end xs x

new-IsWf : IsWf new
unfolding new HashMap.get
new-IsWf = record { found = λ e o h. cc; old_ids = λ e o h. cc; free = tt }

-- `taken` is `r` with the ID `e` taken from the free list or from the counter.
record Taken (r : EntityRegistry) (e : ℕ) (taken : EntityRegistry) : Type 0 where
  records : taken.records ≡ r.records
  index : taken.index ≡ r.index
  unused : HashMap.get r.index e ≡ none
  below : e < taken.next_id
  grows : r.next_id ≤ taken.next_id
  free : FreeIds taken taken.freelist
  not_free : HashMap.get taken.freelist e ≡ none

pub FreeIds-mono :
    (r s : EntityRegistry) (free : List (ℕ × ℕ))
    → r.next_id ≤ s.next_id
    → ((e : ℕ)
        → HashMap.get free e ≢ none
        → HashMap.get r.index e ≡ none
        → HashMap.get s.index e ≡ none)
    → FreeIds r free
    → FreeIds s free
unfolding HashMap.get
FreeIds-mono r s [] le keep h = tt
FreeIds-mono r s ((id, version) ∷ rest) le keep h = (
  omega (arith, h.0),
  keep id (λ x. ground arith) h.1,
  h.2,
  FreeIds-mono r s rest le (λ e inside. keep e (λ x. inside (ground arith))) h.3,
)

FreeIds-below :
    (r : EntityRegistry) (free : List (ℕ × ℕ)) (e : ℕ)
    → r.next_id ≤ e
    → FreeIds r free
    → HashMap.get free e ≡ none
unfolding HashMap.get
FreeIds-below r [] e le h = refl
FreeIds-below r ((id, version) ∷ rest) e le h = ground (arith, h.0, FreeIds-below r rest e le h.3)

take_id-Taken :
    (r : EntityRegistry) (free : List (ℕ × ℕ))
    → IsWf r
    → r.freelist ≡ free
    → r.next_id + 1 < 2 ^ 64
    → Taken r (take_id free r).0 (take_id free r).2
unfolding take_id
take_id-Taken r [] w e room = record {
  records = refl;
  index = refl;
  unused = elim (Option-cases (HashMap.get r.index r.next_id)) [
    | inl missing ↦ missing
    | inr (o, there) ↦ absurd (omega (arith, w.old_ids r.next_id o there))
  ];
  below = omega arith;
  grows = omega arith;
  free = rw e tt;
  not_free = rw e (FreeIds-below r [] r.next_id (omega arith) tt);
}
take_id-Taken r ((id, version) ∷ rest) w e room =
    let free = subst (FreeIds r) e w.free in
    record {
      records = refl;
      index = refl;
      unused = free.1;
      below = free.0;
      grows = omega arith;
      free =
          FreeIds-mono r (record r { freelist = rest }) rest (omega arith)
            (λ f inside missing. missing) free.3;
      not_free = free.2;
    }

module _ (r taken : EntityRegistry) (e version hash : ℕ) (w : IsWf r) (t : Taken r e taken) where
  abbrev fresh : EntityRecord
  fresh = record { id = e; version = version; archetype_hash = hash }

  abbrev created : EntityRegistry
  created = record taken {
    records = taken.records ++ fresh ∷ [];
    index = HashMap.insert taken.index e (length taken.records);
  }

  index-created :
      (f : ℕ)
      → HashMap.get created.index f
        ≡ (if e == f then some (length r.records) else HashMap.get r.index f)
  index-created f = rw (get-insert taken.index e f (length taken.records), t.index, t.records)

  created_found :
      (f o : ℕ)
      → HashMap.get created.index f ≡ some o
      → (x : EntityRecord) × (get_elem? created.records o ≡ some x) × (x.id ≡ f)
  created_found f o h = elim (Bool-cases (e == f)) [
    | inl here ↦
        let o_is : length r.records ≡ o = ground (arith, index-created f) in
        (
          fresh,
          rw t.records (
              subst (λ k. get_elem? (r.records ++ fresh ∷ []) k ≡ some fresh) o_is
                (get_elem?-append_end r.records fresh)),
          (==_iff e f).0 here,
        )
    | inr other ↦
        let old : HashMap.get r.index f ≡ some o = ground (arith, index-created f) in
        let (x, at, is) = w.found f o old in
        (x, rw t.records (get_elem?-append_left r.records (fresh ∷ []) o x at), is)
  ]

  still_free :
      (f : ℕ)
      → HashMap.get taken.freelist f ≢ none
      → HashMap.get taken.index f ≡ none
      → HashMap.get created.index f ≡ none
  still_free f inside missing = elim (Bool-cases (e == f)) [
    | inl here ↦
        absurd (
          inside
            (subst (λ k. HashMap.get taken.freelist k ≡ none) ((==_iff e f).0 here) t.not_free))
    | inr other ↦ rw (get-insert taken.index e f (length taken.records), other) missing
  ]

  created-IsWf : IsWf created
  created-IsWf = record {
    found = created_found;
    old_ids = λ f o h. elim (Bool-cases (e == f)) [
      | inl here ↦ omega (arith, t.below, (==_iff e f).0 here)
      | inr other ↦ omega (arith, t.grows, w.old_ids f o (ground (arith, index-created f)))
    ];
    free = FreeIds-mono taken created taken.freelist (omega arith) still_free t.free;
  }

-- `create_entity` hands out an ID that no entity has, and only that ID comes into use; the
-- registry stays well formed. (The counter must not have reached its last value.)
pub create_entity-fresh :
    (r : EntityRegistry) (hash : ℕ)
    → IsWf r
    → r.next_id + 1 < 2 ^ 64
    → (contains_entity r (create_entity r hash).0 ≡ false)
      × IsWf (create_entity r hash).1
      × ((f : ℕ)
          → contains_entity (create_entity r hash).1 f
            ≡ (if (create_entity r hash).0 == f then true else contains_entity r f))
unfolding create_entity contains_entity
create_entity-fresh r hash w room =
    let t = take_id-Taken r r.freelist w refl room in
    let e : ℕ = (take_id r.freelist r).0 in
    let taken : EntityRegistry = (take_id r.freelist r).2 in
    (
      ap is_some t.unused,
      created-IsWf r taken e (take_id r.freelist r).1 hash w t,
      λ f. ground (arith, index-created r taken e (take_id r.freelist r).1 hash w t f),
    )
