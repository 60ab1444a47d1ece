-- ===== src/Entity/Archetype/Members.antt =====
-- The two maps of `ArchetypeRegistry` agree: an entity stands once in the list of its archetype,
-- and in no other list.
use rodengine.Common.{
  ℕ, ◌%◌, ◌<◌, ◌+◌, ◌-◌, ◌≡◌, inl, inr, refl, ap, ◌∙◌, subst, Bool, List, [], ◌∷◌, ◌++◌, Option,
  none, some, arith, ◌==◌, if◌then◌else◌, Bool-cases, Option-cases, ==_iff,
}
use rodengine.Common.HashMap
use rodengine.Common.HashMap.{HashMap, mapped, get-insert, get-remove}
use rodengine.Entity.ArchetypeMask
use rodengine.Entity.Archetype.{
  ArchetypeRegistry, new, drop_entity, drop_from, push_to, or_empty, add_entity, remove_entity,
  change_mask, add_component, remove_component, get_archetype, entities_in_archetype,
}
use rodengine.Entity.Archetype.SwapRemove.{count, count-append, count-drop_entity}

abbrev same : ℕ → ℕ → ℕ
same a b = if a == b then 1 else 0

-- How often the entity with this mask belongs in the list of the archetype `m`.
abbrev pub belongs : Option ℕ → ℕ → ℕ
belongs none m = 0
belongs (some mask) m = if mask == m then 1 else 0

pub record IsWf (r : ArchetypeRegistry) : Type 0 where
  pub agree : (m e : ℕ) → count e (entities_in_archetype r m) ≡ belongs (get_archetype r e) m

abbrev listed : HashMap (List ℕ) → ℕ → ℕ → ℕ
listed lists m e = count e (or_empty (HashMap.get lists m))

listed-push_to :
    (lists : HashMap (List ℕ)) (a m e f : ℕ)
    → listed (push_to lists a e) m f ≡ listed lists m f + (if a == m then same e f else 0)
unfolding push_to
listed-push_to lists a m e f = elim (Bool-cases (a == m)) [
  | inl here ↦
      let at : a ≡ m = (==_iff a m).0 here in
      rw (get-insert lists a m (or_empty (HashMap.get lists a) ++ e ∷ []), here)
        (omega (
          arith,
          count-append f (or_empty (HashMap.get lists a)) (e ∷ []),
          ap (λ (k : ℕ). listed lists k f) at,
        ))
  | inr other ↦
      rw (get-insert lists a m (or_empty (HashMap.get lists a) ++ e ∷ []), other) (omega arith)
]

listed-drop_from :
    (lists : HashMap (List ℕ)) (a m e f : ℕ)
    → listed (drop_from lists a e) m f ≡ listed lists m f - (if a == m then same e f else 0)
unfolding drop_from
listed-drop_from lists a m e f = elim (Option-cases (HashMap.get lists a)) [
  | inl missing ↦
      rw (missing, drop_from)
        (elim (Bool-cases (a == m)) [
          | inl here ↦
              let none_there : listed lists m f ≡ 0 =
                subst (λ k. listed lists k f ≡ 0) ((==_iff a m).0 here) (rw missing) in
              omega (arith, none_there)
          | inr other ↦ rw other (omega arith)
        ])
  | inr (entities, at) ↦
      rw (at, drop_from)
        (elim (Bool-cases (a == m)) [
          | inl here ↦
              let there : listed lists m f ≡ count f entities =
                subst (λ k. listed lists k f ≡ count f entities) ((==_iff a m).0 here) (rw at) in
              rw (get-insert lists a m (drop_entity entities e), here)
                (omega (arith, there, count-drop_entity e f entities))
          | inr other ↦ rw (get-insert lists a m (drop_entity entities e), other) (omega arith)
        ])
]

new-IsWf : IsWf new
unfolding new entities_in_archetype get_archetype HashMap.get
new-IsWf = record { agree = λ m e. refl }

moved_agree :
    (r : ArchetypeRegistry) (e old mask m f : ℕ)
    → IsWf r
    → get_archetype r e ≡ some old
    → listed (push_to (drop_from r.archetype_entities old e) mask e) m f
      ≡ belongs (if e == f then some mask else get_archetype r f) m
unfolding entities_in_archetype get_archetype
moved_agree r e old mask m f w at = elim (Bool-cases (e == f)) [
  | inl here ↦
      let at_f : get_archetype r f ≡ some old =
        subst (λ k. get_archetype r k ≡ some old) ((==_iff e f).0 here) at in
      rw here (
        ground (
          arith,
          listed-push_to (drop_from r.archetype_entities old e) mask m e f,
          listed-drop_from r.archetype_entities old m e f,
          w.agree m f,
          ap (λ (o : Option ℕ). belongs o m) at_f,
          ap {B = ℕ} (λ (b : Bool). if b then 1 else 0) here,
        ))
  | inr other ↦ rw other (
      ground (
        arith,
        listed-push_to (drop_from r.archetype_entities old e) mask m e f,
        listed-drop_from r.archetype_entities old m e f,
        w.agree m f,
        ap {B = ℕ} (λ (b : Bool). if b then 1 else 0) other,
      ))
]

kept_agree :
    (r : ArchetypeRegistry) (e old m f : ℕ)
    → IsWf r
    → get_archetype r e ≡ some old
    → listed r.archetype_entities m f ≡ belongs (if e == f then some old else get_archetype r f) m
unfolding entities_in_archetype get_archetype
kept_agree r e old m f w at = elim (Bool-cases (e == f)) [
  | inl here ↦
      let at_f : get_archetype r f ≡ some old =
        subst (λ k. get_archetype r k ≡ some old) ((==_iff e f).0 here) at in
      rw here (w.agree m f ∙ ap (λ (o : Option ℕ). belongs o m) at_f)
  | inr other ↦ rw other (w.agree m f)
]

-- A registry with new lists, and a new mask for one entity.
module _ (r : ArchetypeRegistry) (lists : HashMap (List ℕ)) (e mask : ℕ)
    (right : (m f : ℕ)
      → listed lists m f ≡ belongs (if e == f then some mask else get_archetype r f) m) where
  abbrev masked : ArchetypeRegistry
  masked = record {
    archetype_entities = lists;
    entity_archetype = HashMap.insert r.entity_archetype e mask;
  }

  get-masked : (f : ℕ) → get_archetype masked f ≡ (if e == f then some mask else get_archetype r f)
  unfolding get_archetype
  get-masked f = get-insert r.entity_archetype e f mask

  masked-IsWf : IsWf masked
  unfolding entities_in_archetype
  masked-IsWf = record { agree = λ m f. rw (get-masked f) (right m f) }

-- The two maps agree, and `r'` differs from `r` in the mask of `e` alone.
abbrev pub Remasks : ArchetypeRegistry → ℕ → Option ℕ → ArchetypeRegistry → Type 0
Remasks r e mask r' =
    IsWf r' × ((f : ℕ) → get_archetype r' f ≡ (if e == f then mask else get_archetype r f))

-- `add_entity` registers an entity that is not registered under the given mask: every entity is
-- listed once under its mask and under no other, and no other entity changes.
pub add_entity-Remasks :
    (r : ArchetypeRegistry) (e archetype : ℕ)
    → IsWf r
    → get_archetype r e ≡ none
    → Remasks r e (some archetype) (add_entity r e archetype)
unfolding add_entity entities_in_archetype get_archetype
add_entity-Remasks r e a w missing = (
  record {
    agree = λ m f. ground (
      arith,
      listed-push_to r.archetype_entities a m e f,
      get-insert r.entity_archetype e f a,
      w.agree m f,
      ap (λ (o : Option ℕ). belongs o m) missing,
      ==_iff e f,
      w.agree m e,
    );
  },
  λ f. get-insert r.entity_archetype e f a,
)

change_mask-Remasks :
    (r : ArchetypeRegistry) (e old mask : ℕ)
    → IsWf r
    → get_archetype r e ≡ some old
    → Remasks r e (some mask) (change_mask r e old mask)
unfolding change_mask
change_mask-Remasks r e old mask w at = elim (Bool-cases (old == mask)) [
  | inl unchanged ↦
      let right = λ (m f : ℕ).
        subst
          (λ k.
            listed r.archetype_entities m f
            ≡ belongs (if e == f then some k else get_archetype r f) m)
          ((==_iff old mask).0 unchanged) (kept_agree r e old m f w at) in
      rw (unchanged, change_mask)
        (
          masked-IsWf r r.archetype_entities e mask right,
          get-masked r r.archetype_entities e mask right,
        )
  | inr changed ↦
      let lists = push_to (drop_from r.archetype_entities old e) mask e in
      let right = λ (m f : ℕ). moved_agree r e old mask m f w at in
      rw (changed, change_mask) (masked-IsWf r lists e mask right, get-masked r lists e mask right)
]

-- `add_component` and `remove_component` of a table ID below 64 return the old mask of a registered
-- entity and give it the mask with that bit set or cleared; no other entity changes, and the two
-- maps still agree.
pub component-Remasks :
    (r : ArchetypeRegistry) (e table_id old : ℕ)
    → table_id < 64
    → IsWf r
    → get_archetype r e ≡ some old
    → ((add_component r e table_id).0 ≡ some old)
      × Remasks r e (some (ArchetypeMask.set_bit old table_id)) (add_component r e table_id).1
      × ((remove_component r e table_id).0 ≡ some old)
      × Remasks r e (some (ArchetypeMask.clear_bit old table_id)) (remove_component r e table_id).1
unfolding add_component remove_component get_archetype ArchetypeMask.add_component
    ArchetypeMask.remove_component
component-Remasks r e table_id old lt w at =
    let bit : table_id % 64 ≡ table_id = omega (arith, lt) in
    rw (at, add_component, remove_component, bit)
      (
        refl,
        change_mask-Remasks r e old (ArchetypeMask.set_bit old table_id) w at,
        refl,
        change_mask-Remasks r e old (ArchetypeMask.clear_bit old table_id) w at,
      )

removed_agree :
    (r : ArchetypeRegistry) (e old m f : ℕ)
    → IsWf r
    → get_archetype r e ≡ some old
    → listed (drop_from r.archetype_entities old e) m f
      ≡ belongs (if e == f then none else get_archetype r f) m
unfolding entities_in_archetype get_archetype
removed_agree r e old m f w at = elim (Bool-cases (e == f)) [
  | inl here ↦
      let at_f : get_archetype r f ≡ some old =
        subst (λ k. get_archetype r k ≡ some old) ((==_iff e f).0 here) at in
      rw here (
        ground (
          arith,
          listed-drop_from r.archetype_entities old m e f,
          w.agree m f,
          ap (λ (o : Option ℕ). belongs o m) at_f,
          ap {B = ℕ} (λ (b : Bool). if b then 1 else 0) here,
        ))
  | inr other ↦ rw other (
      ground (
        arith,
        listed-drop_from r.archetype_entities old m e f,
        w.agree m f,
        ap {B = ℕ} (λ (b : Bool). if b then 1 else 0) other,
      ))
]

removed-Remasks :
    (r : ArchetypeRegistry) (e old : ℕ)
    → IsWf r
    → get_archetype r e ≡ some old
    → Remasks r e none (record {
      archetype_entities = drop_from r.archetype_entities old e;
      entity_archetype = HashMap.remove r.entity_archetype e;
    })
unfolding get_archetype entities_in_archetype
removed-Remasks r e old w at = (
  record { agree = λ m f. rw (get-remove r.entity_archetype e f) (removed_agree r e old m f w at) },
  λ f. get-remove r.entity_archetype e f,
)

-- `remove_entity` of a registered entity returns its mask and takes it out of both maps; no other
-- entity changes.
pub remove_entity-Remasks :
    (r : ArchetypeRegistry) (e old : ℕ)
    → IsWf r
    → get_archetype r e ≡ some old
    → ((remove_entity r e).0 ≡ some old) × Remasks r e none (remove_entity r e).1
unfolding remove_entity get_archetype
remove_entity-Remasks r e old w at = rw (at, remove_entity) (refl, removed-Remasks r e old w at)
