-- ===== src/Database/Commit/Entities.antt =====
-- Deletion of an entity: refused while a table has a component of it, else complete.
use rodengine.Common.{
  ℕ, ◌≡◌, refl, sym, subst, true, false, [], ◌∷◌, none, All, Option-cases, Bool-cases, inl, inr,
  ==_iff, ◌==◌, if◌then◌else◌, true≢false,
}
use rodengine.Common.HashMap
use rodengine.Common.HashMap.{HashMap}
use rodengine.Error.{Result, ok, err, panic, referential_integrity_violation, still_has_components}
use rodengine.Storage.Table
use rodengine.Entity.Registry
use rodengine.Entity.Registry.Ids
use rodengine.Entity.Registry.Reuse.{delete_entity-gone}
use rodengine.Entity.Archetype
use rodengine.Entity.Archetype.{ArchetypeRegistry, get_archetype}
use rodengine.Entity.Archetype.Members
use rodengine.Entity.Archetype.Members.{remove_entity-Remasks}
use rodengine.Database.{State, TableHandle}
use rodengine.Database.Commit.{delete_entity, any_contains}

-- No table has a component of the entity.
abbrev pub NoComponents : ℕ → HashMap TableHandle → Type 0
NoComponents e = All (λ (r : ℕ × TableHandle). Table.contains_entity r.1.table e ≡ false)

any_contains-false :
    (tables : HashMap TableHandle) (e : ℕ) → any_contains tables e ≡ false → NoComponents e tables
unfolding any_contains
any_contains-false [] e h = tt
any_contains-false ((k, handle) ∷ tables) e h =
    elim (Bool-cases (Table.contains_entity handle.table e)) [
      | inl has ↦
          absurd
            (true≢false (subst (λ b. (if b then true else any_contains tables e) ≡ false) has h))
      | inr free ↦ (
        free,
        any_contains-false tables e
            (subst (λ b. (if b then true else any_contains tables e) ≡ false) free h),
      )
    ]

any_contains-true :
    (tables : HashMap TableHandle) (e : ℕ) → any_contains tables e ≡ true → ¬ NoComponents e tables
unfolding any_contains
any_contains-true [] e h none_has = true≢false (sym h)
any_contains-true ((k, handle) ∷ tables) e h (free, none_has) =
    any_contains-true tables e
      (subst (λ b. (if b then true else any_contains tables e) ≡ true) free h) none_has

-- The archetype registry without the entity, registered or not.
remove_entity-gone :
    (a : ArchetypeRegistry) (e : ℕ)
    → Members.IsWf a
    → Members.IsWf (Archetype.remove_entity a e).1
      × ((f : ℕ)
          → get_archetype (Archetype.remove_entity a e).1 f
            ≡ (if e == f then none else get_archetype a f))
unfolding get_archetype Archetype.remove_entity
remove_entity-gone a e w = elim (Option-cases (HashMap.get a.entity_archetype e)) [
  | inl missing ↦
      rw (missing, Archetype.remove_entity)
        (
          w,
          λ f. elim (Bool-cases (e == f)) [
            | inl same ↦
                rw same (
                  subst (λ k. HashMap.get a.entity_archetype k ≡ none) ((==_iff e f).0 same)
                    missing)
            | inr other ↦ rw other
          ],
        )
  | inr (old, at) ↦ (remove_entity-Remasks a e old w at).1
]

-- What a deletion leads to.
unfoldable pub Deletion : State → ℕ → Result (Unit {0}) × State → Type 0
Deletion s e (ok u, after) =
    NoComponents e s.tables
    × (after.tables ≡ s.tables)
    × Ids.IsWf after.entity_registry
    × ((f : ℕ)
        → Registry.contains_entity after.entity_registry f
          ≡ (if e == f then false else Registry.contains_entity s.entity_registry f))
    × Members.IsWf after.archetype_registry
    × ((f : ℕ)
        → get_archetype after.archetype_registry f
          ≡ (if e == f then none else get_archetype s.archetype_registry f))
Deletion s e (err x, after) =
    (x ≡ referential_integrity_violation (still_has_components e))
    × (after ≡ s)
    × (¬ NoComponents e s.tables)
Deletion s e (panic, after) = ⊥

-- The deletion of an entity that exists is refused, with nothing changed, exactly if some table has a
-- component of it; else that entity alone leaves both registries, which stay well formed.
pub delete_entity-Deletion :
    (s : State) (e : ℕ)
    → Ids.IsWf s.entity_registry
    → Members.IsWf s.archetype_registry
    → Registry.contains_entity s.entity_registry e ≡ true
    → Deletion s e (delete_entity s e)
unfolding delete_entity Deletion
delete_entity-Deletion s e w a there = elim (Bool-cases (any_contains s.tables e)) [
  | inl has ↦ rw has (refl, refl, any_contains-true s.tables e has)
  | inr free ↦
      let (r', run, wf, gone) = delete_entity-gone s.entity_registry e w there in
      let (awf, agone) = remove_entity-gone s.archetype_registry e a in
      rw (free, run) (any_contains-false s.tables e free, refl, wf, gone, awf, agone)
]
