-- ===== src/Tests/EntityTests.antt =====
-- A registry with entity 2 alive and the ID 1 free for reuse, and an archetype registry with the
-- entities 2 and 3.
use rodengine.Common.{
  ℕ, ◌+◌, ◌%◌, ◌^◌, ◌≡◌, refl, ap, sym, true, false, [], ◌∷◌, none, some, get_elem?, arith,
  if◌then◌else◌, ◌==◌,
}
use rodengine.Common.HashMap
use rodengine.Error.{ok}
use rodengine.Entity.Registry.{
  EntityRegistry, create_entity, contains_entity, delete_entity, get_entity,
}
use rodengine.Entity.Registry.Ids
use rodengine.Entity.Registry.Ids.{create_entity-fresh}
use rodengine.Entity.Registry.Reuse.{delete_entity-gone, get-create-delete}
use rodengine.Entity.ArchetypeMask
use rodengine.Entity.Archetype
use rodengine.Entity.Archetype.{ArchetypeRegistry, drop_entity, get_archetype}
use rodengine.Entity.Archetype.Members
use rodengine.Entity.Archetype.Members.{
  Remasks, component-Remasks, remove_entity-Remasks, add_entity-Remasks,
}

abbrev pub registry : EntityRegistry
registry = record {
  records =
      record { id = 1; version = 1; archetype_hash = 0 }
      ∷ record { id = 2; version = 0; archetype_hash = 0 }
      ∷ [];
  index = (2, 1) ∷ [];
  freelist = (1, 1) ∷ [];
  next_id = 3;
}

index_entry : (e o : ℕ) → HashMap.get registry.index e ≡ some o → (e ≡ 2) × (o ≡ 1)
unfolding HashMap.get
index_entry e o h = ground arith

pub registry-IsWf : Ids.IsWf registry
unfolding HashMap.get
registry-IsWf = record {
  found = λ e o h.
      let (a, b) = index_entry e o h in
      (
        record { id = 2; version = 0; archetype_hash = 0 },
        ap (get_elem? registry.records) b,
        sym a,
      );
  old_ids = λ e o h. ground arith;
  free = (omega arith, refl, refl, tt);
}

create_entity-fresh_example :
    (contains_entity registry (create_entity registry 0).0 ≡ false)
    × Ids.IsWf (create_entity registry 0).1
    × ((f : ℕ)
        → contains_entity (create_entity registry 0).1 f
          ≡ (if (create_entity registry 0).0 == f then true else contains_entity registry f))
create_entity-fresh_example = create_entity-fresh registry 0 registry-IsWf (omega arith)

pub has_two : contains_entity registry 2 ≡ true
unfolding contains_entity HashMap.get
has_two = refl

delete_entity-gone_example :
    (r' : EntityRegistry) × (delete_entity registry 2 ≡ ok r')
    × Ids.IsWf r'
    × ((f : ℕ) → contains_entity r' f ≡ (if 2 == f then false else contains_entity registry f))
delete_entity-gone_example = delete_entity-gone registry 2 registry-IsWf has_two

abbrev without_two : EntityRegistry
without_two = record {
  records =
      record { id = 1; version = 1; archetype_hash = 0 }
      ∷ record { id = 2; version = 1; archetype_hash = 0 }
      ∷ [];
  index = [];
  freelist = (2, 1) ∷ (1, 1) ∷ [];
  next_id = 3;
}

get_two : get_entity registry 2 ≡ ok (record { id = 2; version = 0; archetype_hash = 0 })
unfolding get_entity HashMap.get
get_two = refl

delete_two : delete_entity registry 2 ≡ ok without_two
unfolding delete_entity HashMap.get HashMap.remove
delete_two = refl

get-create-delete_example :
    ((create_entity without_two 5).0 ≡ 2)
    × (get_entity (create_entity without_two 5).1 2
        ≡ ok (record { id = 2; version = (0 + 1) % 2 ^ 32; archetype_hash = 5 }))
get-create-delete_example =
    get-create-delete registry without_two 2 5 (record { id = 2; version = 0; archetype_hash = 0 })
      registry-IsWf get_two delete_two

abbrev pub archetypes : ArchetypeRegistry
archetypes = record {
  archetype_entities = (0, 3 ∷ []) ∷ (4, 2 ∷ []) ∷ [];
  entity_archetype = (2, 4) ∷ (3, 0) ∷ [];
}

pub archetypes-IsWf : Members.IsWf archetypes
unfolding Archetype.entities_in_archetype get_archetype HashMap.get
archetypes-IsWf = record { agree = λ m e. ground arith }

at_two : get_archetype archetypes 2 ≡ some 4
unfolding get_archetype HashMap.get
at_two = refl

at_five : get_archetype archetypes 5 ≡ none
unfolding get_archetype HashMap.get
at_five = refl

add_entity-Remasks_example : Remasks archetypes 5 (some 0) (Archetype.add_entity archetypes 5 0)
add_entity-Remasks_example = add_entity-Remasks archetypes 5 0 archetypes-IsWf at_five

component-Remasks_example :
    ((Archetype.add_component archetypes 2 0).0 ≡ some 4)
    × Remasks archetypes 2
        (some (ArchetypeMask.set_bit 4 0))
        (Archetype.add_component archetypes 2 0).1
    × ((Archetype.remove_component archetypes 2 0).0 ≡ some 4)
    × Remasks archetypes 2
        (some (ArchetypeMask.clear_bit 4 0))
        (Archetype.remove_component archetypes 2 0).1
component-Remasks_example = component-Remasks archetypes 2 0 4 (omega arith) archetypes-IsWf at_two

remove_entity-Remasks_example :
    ((Archetype.remove_entity archetypes 2).0 ≡ some 4)
    × Remasks archetypes 2 none (Archetype.remove_entity archetypes 2).1
remove_entity-Remasks_example = remove_entity-Remasks archetypes 2 4 archetypes-IsWf at_two
