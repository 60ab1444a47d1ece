-- ===== src/Entity/Registry/Reuse.antt =====
-- Deleting an entity, and the version under which its ID comes back.
use rodengine.Common.{
  ℕ, zero, suc, ◌+◌, ◌%◌, ◌^◌, ◌≡◌, ◌≢◌, inl, inr, refl, sym, subst, ap, ◌∙◌, true, false, List, [],
  ◌∷◌, none, some, length, get_elem?, set, arith, ◌==◌, ==_iff, ==_refl, Bool-cases, Option-cases,
  if◌then◌else◌, is_some,
}
use rodengine.Common.HashMap
use rodengine.Common.HashMap.{get-insert, get-remove}
use rodengine.Error.{ok, ok-injective}
use rodengine.Entity.Registry.{
  EntityRecord, EntityRegistry, create_entity, retire, delete_entity, get_entity, contains_entity,
}
use rodengine.Entity.Registry.Ids.{FreeIds, FreeIds-mono, IsWf, get_elem?-append_end}

-- A write that keeps the ID of a record keeps the ID of every record.
set_same_id :
    (xs : List EntityRecord) (o i : ℕ) (old x y : EntityRecord)
    → get_elem? xs o ≡ some old
    → x.id ≡ old.id
    → get_elem? xs i ≡ some y
    → (z : EntityRecord) × (get_elem? (set xs o x) i ≡ some z) × (z.id ≡ y.id)
set_same_id [] o i old x y at same here = cc
set_same_id (r ∷ xs) zero zero old x y at same here = (x, refl, ground arith)
set_same_id (r ∷ xs) zero (suc i) old x y at same here = (y, here, refl)
set_same_id (r ∷ xs) (suc o) zero old x y at same here = (y, here, refl)
set_same_id (r ∷ xs) (suc o) (suc i) old x y at same here = set_same_id xs o i old x y at same here

-- An ID in use is not in the free list.
FreeIds-used :
    (r : EntityRegistry) (free : List (ℕ × ℕ)) (e o : ℕ)
    → HashMap.get r.index e ≡ some o
    → FreeIds r free
    → HashMap.get free e ≡ none
unfolding HashMap.get
FreeIds-used r [] e o used h = refl
FreeIds-used r ((id, version) ∷ rest) e o used h = elim (Bool-cases (id == e)) [
  | inl here ↦ cc (subst (λ k. HashMap.get r.index k ≡ none) ((==_iff id e).0 here) h.1)
  | inr other ↦ rw other (FreeIds-used r rest e o used h.3)
]

module _ (r : EntityRegistry) (w : IsWf r) (e o : ℕ) (old : EntityRecord)
    (at : HashMap.get r.index e ≡ some o) (here : get_elem? r.records o ≡ some old) where
  abbrev next_version : ℕ
  next_version = (old.version + 1) % 2 ^ 32

  abbrev deleted : EntityRegistry
  deleted = record r {
    records = set r.records o (record old { version = next_version });
    index = HashMap.remove r.index e;
    freelist = (e, next_version) ∷ r.freelist;
  }

  delete_entity-deleted : delete_entity r e ≡ ok deleted
  unfolding delete_entity
  delete_entity-deleted = rw (at, here, delete_entity, retire)

  kept :
      (f p : ℕ) → HashMap.get (HashMap.remove r.index e) f ≡ some p → HashMap.get r.index f ≡ some p
  kept f p h = ground (arith, get-remove r.index e f)

  deleted-IsWf : IsWf deleted
  deleted-IsWf = record {
    found = λ f p h.
        let (y, there, is) = w.found f p (kept f p h) in
        let (z, now, same) =
          set_same_id r.records o p old (record old { version = next_version }) y here refl there in
        (z, now, same ∙ is);
    old_ids = λ f p h. w.old_ids f p (kept f p h);
    free = (
      w.old_ids e o at,
      ground (arith, get-remove r.index e e),
      FreeIds-used r r.freelist e o at w.free,
      FreeIds-mono r deleted r.freelist (omega arith)
          (λ f inside missing. ground (arith, get-remove r.index e f)) w.free,
    );
  }

  recreated :
      (hash : ℕ)
      → ((create_entity deleted hash).0 ≡ e)
        × (get_entity (create_entity deleted hash).1 e
            ≡ ok (record { id = e; version = next_version; archetype_hash = hash }))
  unfolding create_entity get_entity
  recreated hash = (
    refl,
    rw (
      get-insert (HashMap.remove r.index e) e e (length deleted.records),
      ==_refl e,
      get_elem?-append_end deleted.records
          (record { id = e; version = next_version; archetype_hash = hash }),
    ),
  )

-- `delete_entity` of an entity that exists never fails: that entity is gone and every other
-- stays, and the registry stays well formed.
pub delete_entity-gone :
    (r : EntityRegistry) (e : ℕ)
    → IsWf r
    → contains_entity r e ≡ true
    → (r' : EntityRegistry) × (delete_entity r e ≡ ok r')
      × IsWf r'
      × ((f : ℕ) → contains_entity r' f ≡ (if e == f then false else contains_entity r f))
unfolding contains_entity
delete_entity-gone r e w there = elim (Option-cases (HashMap.get r.index e)) [
  | inl missing ↦ cc (ap is_some missing)
  | inr (o, at) ↦
      let (old, here, is) = w.found e o at in
      (
        deleted r w e o old at here,
        delete_entity-deleted r w e o old at here,
        deleted-IsWf r w e o old at here,
        λ f. ground (arith, get-remove r.index e f),
      )
]

no_entity :
    (r : EntityRegistry) (e : ℕ) (old : EntityRecord)
    → HashMap.get r.index e ≡ none
    → get_entity r e ≢ ok old
unfolding get_entity
no_entity r e old missing got = cc (rw missing at got)

found_entity :
    (r : EntityRegistry) (e o : ℕ) (old x : EntityRecord)
    → HashMap.get r.index e ≡ some o
    → get_elem? r.records o ≡ some x
    → get_entity r e ≡ ok old
    → x ≡ old
unfolding get_entity
found_entity r e o old x at here got = ok-injective (rw (at, here, get_entity) at got)

-- An entity created right after a deletion has the deleted ID, and the next version: a handle
-- with the old version no longer matches its record.
pub get-create-delete :
    (r r' : EntityRegistry) (e hash : ℕ) (old : EntityRecord)
    → IsWf r
    → get_entity r e ≡ ok old
    → delete_entity r e ≡ ok r'
    → ((create_entity r' hash).0 ≡ e)
      × (get_entity (create_entity r' hash).1 e
          ≡ ok (record { id = e; version = (old.version + 1) % 2 ^ 32; archetype_hash = hash }))
get-create-delete r r' e hash old w got run = elim (Option-cases (HashMap.get r.index e)) [
  | inl missing ↦ absurd (no_entity r e old missing got)
  | inr (o, at) ↦
      let (x, here, is) = w.found e o at in
      let same : x ≡ old = found_entity r e o old x at here got in
      let was : deleted r w e o x at here ≡ r' =
        ok-injective (sym (delete_entity-deleted r w e o x at here) ∙ run) in
      subst
        (λ s.
          ((create_entity s hash).0 ≡ e)
          × (get_entity (create_entity s hash).1 e
              ≡ ok
                  (record { id = e; version = (old.version + 1) % 2 ^ 32; archetype_hash = hash })))
        was
        (subst
          (λ (y : EntityRecord).
            ((create_entity (deleted r w e o x at here) hash).0 ≡ e)
            × (get_entity (create_entity (deleted r w e o x at here) hash).1 e
                ≡ ok
                    (record { id = e; version = (y.version + 1) % 2 ^ 32; archetype_hash = hash })))
          same (recreated r w e o x at here hash))
]
