-- ===== src/Storage/Sparse/Lookup.antt =====
-- What a sparse set holds after an insertion and a removal.
use rodengine.Common.{
  ℕ, ◌<◌, ◌≡◌, ◌≢◌, refl, ap, sym, ◌∙◌, subst, false, List, [], ◌∷◌, ◌++◌, Option, none, some,
  length, get_elem?, set, arith, some≢none, some-injective, true≢false, ◌==◌, ltb, ==_iff, ==_refl,
  if◌then◌else◌, Bool-cases, Option-cases, inl, inr,
}
use rodengine.Common.HashMap
use rodengine.Common.HashMap.{HashMap, get-insert, get-remove}
use rodengine.Error.{Result, ok, panic, ◌>>=◌}
use rodengine.Storage.Sparse.{SparseSet, insert, get, index_at}
use rodengine.Storage.Sparse.Elements.{
  length-set, get_elem?-lt, get_elem?-some, get_elem?-set_same, get_elem?-set_other,
  get_elem?-append, get_elem?-last, length-append_one,
}

-- The two maps are inverse to each other, and there is a component at each index.
pub record IsWf {T : Type 0} (s : SparseSet T) : Type 0 where
  pub same : length s.index_to_entity ≡ length s.components
  pub back :
      (e i : ℕ) → HashMap.get s.entity_to_index e ≡ some i → get_elem? s.index_to_entity i ≡ some e
  pub forth :
      (e i : ℕ) → get_elem? s.index_to_entity i ≡ some e → HashMap.get s.entity_to_index e ≡ some i

-- The component at an index, and what `get` returns for an entity with this entry.
unfoldable pub found : {T : Type 0} → Option T → Result (Option T)
found none = panic
found (some c) = ok (some c)

unfoldable pub lookup : {T : Type 0} → List T → Option ℕ → Result (Option T)
lookup components none = ok none
lookup components (some i) = found (get_elem? components i)

index_at-found :
    {T : Type 0} (components : List T) (i : ℕ) (o : Option T)
    → get_elem? components i ≡ o
    → (index_at components i >>= λ c. ok (some c)) ≡ found o
unfolding index_at found
index_at-found components i none h = rw (h, index_at)
index_at-found components i (some c) h = rw (h, index_at)

pub get-lookup :
    {T : Type 0} (s : SparseSet T) (f : ℕ) (o : Option ℕ)
    → HashMap.get s.entity_to_index f ≡ o
    → get s f ≡ lookup s.components o
unfolding get lookup
get-lookup s f none h = rw (h, get)
get-lookup s f (some i) h =
    rw (h, get) (index_at-found s.components i (get_elem? s.components i) refl)

module _ {T : Type 0} (s : SparseSet T) (w : IsWf s) where
  pub index-lt : (e i : ℕ) → HashMap.get s.entity_to_index e ≡ some i → i < length s.components
  index-lt e i h = omega (arith, w.same, get_elem?-lt s.index_to_entity i e (w.back e i h))

  -- Entities with one index are one entity.
  pub index_injective :
      (e f i : ℕ)
      → HashMap.get s.entity_to_index e ≡ some i
      → HashMap.get s.entity_to_index f ≡ some i
      → e ≡ f
  index_injective e f i h k = some-injective (sym (w.back e i h) ∙ w.back f i k)

  -- Replacing the component of an entity.
  module _ (e i : ℕ) (at : HashMap.get s.entity_to_index e ≡ some i) (c : T) where
    abbrev replaced : SparseSet T
    replaced = record s { components = set s.components i c }

    replaced-IsWf : IsWf replaced
    replaced-IsWf = record {
      same = omega (arith, w.same, length-set s.components i c);
      back = w.back;
      forth = w.forth;
    }

    get-replaced : (f : ℕ) → get replaced f ≡ (if e == f then ok (some c) else get s f)
    unfolding lookup found
    get-replaced f = elim (Bool-cases (e == f)) [
      | inl same ↦ rw same (
          subst (λ k. get replaced k ≡ ok (some c)) ((==_iff e f).0 same)
            (get-lookup replaced e (some i) at
              ∙ ap found (get_elem?-set_same s.components i c (index-lt e i at))))
      | inr other ↦ rw other (elim (Option-cases (HashMap.get s.entity_to_index f)) [
        | inl none_f ↦ get-lookup replaced f none none_f ∙ sym (get-lookup s f none none_f)
        | inr (j, at_f) ↦
            let apart : i ≢ j = λ eq.
              true≢false (
                sym ((==_iff e f).1 (index_injective e f i at (at_f ∙ ap some (sym eq))))
                ∙ other) in
            get-lookup replaced f (some j) at_f
            ∙ ap found (get_elem?-set_other s.components i j c apart)
            ∙ sym (get-lookup s f (some j) at_f)
      ])
    ]

  -- Adding a component of an entity that has none.
  module _ (e : ℕ) (missing : HashMap.get s.entity_to_index e ≡ none) (c : T) where
    abbrev added : SparseSet T
    added = record {
      components = s.components ++ c ∷ [];
      index_to_entity = s.index_to_entity ++ e ∷ [];
      entity_to_index = HashMap.insert s.entity_to_index e (length s.components);
    }

    at_new : HashMap.get added.entity_to_index e ≡ some (length s.components)
    at_new = rw (get-insert s.entity_to_index e e (length s.components), ==_refl e)

    at_old :
        (f : ℕ)
        → (e == f) ≡ false
        → HashMap.get added.entity_to_index f ≡ HashMap.get s.entity_to_index f
    at_old f other = rw (get-insert s.entity_to_index e f (length s.components), other)

    get-added : (f : ℕ) → get added f ≡ (if e == f then ok (some c) else get s f)
    unfolding lookup found
    get-added f = elim (Bool-cases (e == f)) [
      | inl same ↦ rw same (
          subst (λ k. get added k ≡ ok (some c)) ((==_iff e f).0 same)
            (get-lookup added e (some (length s.components)) at_new
              ∙ ap found (get_elem?-last s.components c)))
      | inr other ↦ rw other (elim (Option-cases (HashMap.get s.entity_to_index f)) [
        | inl none_f ↦
            get-lookup added f none (at_old f other ∙ none_f) ∙ sym (get-lookup s f none none_f)
        | inr (j, at_f) ↦
            get-lookup added f (some j) (at_old f other ∙ at_f)
            ∙ ap found (get_elem?-append s.components c j (index-lt f j at_f))
            ∙ sym (get-lookup s f (some j) at_f)
      ])
    ]

    last_entity : get_elem? added.index_to_entity (length s.components) ≡ some e
    last_entity =
        subst (λ n. get_elem? added.index_to_entity n ≡ some e) w.same
          (get_elem?-last s.index_to_entity e)

    old_entity :
        (i : ℕ)
        → i < length s.components
        → get_elem? added.index_to_entity i ≡ get_elem? s.index_to_entity i
    old_entity i h = get_elem?-append s.index_to_entity e i (omega (arith, h, w.same))

    added-back :
        (f i : ℕ)
        → HashMap.get added.entity_to_index f ≡ some i
        → get_elem? added.index_to_entity i ≡ some f
    added-back f i h = elim (Bool-cases (e == f)) [
      | inl same ↦
          let eq : e ≡ f = (==_iff e f).0 same in
          let at : length s.components ≡ i =
            some-injective
              (sym at_new ∙ subst (λ k. HashMap.get added.entity_to_index k ≡ some i) (sym eq) h) in
          subst (λ n. get_elem? added.index_to_entity n ≡ some f) at (last_entity ∙ ap some eq)
      | inr other ↦
          let old : HashMap.get s.entity_to_index f ≡ some i = sym (at_old f other) ∙ h in
          old_entity i (index-lt f i old) ∙ w.back f i old
    ]

    added-forth :
        (f i : ℕ)
        → get_elem? added.index_to_entity i ≡ some f
        → HashMap.get added.entity_to_index f ≡ some i
    added-forth f i h = elim (Bool-cases (ltb i (length s.components))) [
      | inl below ↦
          let old : HashMap.get s.entity_to_index f ≡ some i =
            w.forth f i (sym (old_entity i (ground arith)) ∙ h) in
          let other : (e == f) ≡ false = elim (Bool-cases (e == f)) [
            | inl same ↦ absurd (
                some≢none (
                  sym (
                    subst (λ k. HashMap.get s.entity_to_index k ≡ some i)
                      (sym ((==_iff e f).0 same)) old)
                  ∙ missing))
            | inr distinct ↦ distinct
          ] in
          at_old f other ∙ old
      | inr above ↦
          let last : length s.components ≡ i = ground (
            arith,
            get_elem?-lt added.index_to_entity i f h,
            length-append_one s.index_to_entity e,
            w.same,
          ) in
          let eq : e ≡ f = some-injective (
            sym last_entity
            ∙ subst (λ n. get_elem? added.index_to_entity n ≡ some f) (sym last) h) in
          subst (λ k. HashMap.get added.entity_to_index k ≡ some i) eq (at_new ∙ ap some last)
    ]

    added-IsWf : IsWf added
    added-IsWf = record {
      same =
          omega (
            arith,
            w.same,
            length-append_one s.index_to_entity e,
            length-append_one s.components c,
          );
      back = added-back;
      forth = added-forth;
    }

  -- `insert` into a well-formed sparse set never panics: the set stays well formed, and `get` returns
  -- the component for that entity and what it returned before for every other.
  pub insert-get :
      (e : ℕ) (c : T)
      → (s' : SparseSet T) × (insert s e c ≡ ok s')
        × IsWf s'
        × ((f : ℕ) → get s' f ≡ (if e == f then ok (some c) else get s f))
  unfolding insert index_at
  insert-get e c = elim (Option-cases (HashMap.get s.entity_to_index e)) [
    | inl missing ↦
        (added e missing c, rw (missing, insert), added-IsWf e missing c, get-added e missing c)
    | inr (i, at) ↦
        let (old, here) = get_elem?-some s.components i (index-lt e i at) in
        (
          replaced e i at c,
          rw (at, insert, here, index_at),
          replaced-IsWf e i at c,
          get-replaced e i at c,
        )
  ]
