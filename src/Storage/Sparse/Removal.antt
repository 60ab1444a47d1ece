-- ===== src/Storage/Sparse/Removal.antt =====
-- What a sparse set holds after a removal, and what the removal leaves behind.
use rodengine.Common.{
  ℕ, ◌+◌, ◌<◌, ◌≡◌, ◌≢◌, refl, ap, sym, ◌∙◌, subst, false, List, [], ◌∷◌, none, some, length,
  get_elem?, set, take, arith, some-injective, true≢false, ◌==◌, ==_iff, ==_refl, if◌then◌else◌,
  Bool-cases, Option-cases, inl, inr,
}
use rodengine.Common.HashMap
use rodengine.Common.HashMap.{HashMap, get-insert, get-remove}
use rodengine.Error.{ok}
use rodengine.Storage.Sparse.{
  SparseSet, get, remove, remove_at, move_last, swap, pop, last_index, index_at,
}
use rodengine.Storage.Sparse.Elements.{
  length-set, get_elem?-lt, get_elem?-some, get_elem?-set_same, get_elem?-set_other, get_elem?-take,
  length-take,
}
use rodengine.Storage.Sparse.Lookup.{IsWf, index-lt, index_injective, get-lookup, lookup, found}

index_at-some :
    {A : Type 0} (xs : List A) (i : ℕ) (x : A) → get_elem? xs i ≡ some x → index_at xs i ≡ ok x
unfolding index_at
index_at-some xs i x h = rw (h, index_at)

last_index-ok :
    {A : Type 0} (xs : List A) (i : ℕ)
    → i < length xs
    → (last : ℕ) × (last_index xs ≡ ok last) × (length xs ≡ last + 1)
unfolding last_index
last_index-ok [] i h = absurd (omega (arith, h))
last_index-ok (x ∷ xs) i h = (length xs, refl, omega arith)

module _ {T : Type 0} (s : SparseSet T) (w : IsWf s) (e i last : ℕ)
    (at : HashMap.get s.entity_to_index e ≡ some i) (len : length s.components ≡ last + 1) where
  abbrev unmapped : HashMap ℕ
  unmapped = HashMap.remove s.entity_to_index e

  unmapped-gone : HashMap.get unmapped e ≡ none
  unmapped-gone = rw (get-remove s.entity_to_index e e, ==_refl e)

  unmapped-other :
      (f : ℕ) → (e == f) ≡ false → HashMap.get unmapped f ≡ HashMap.get s.entity_to_index f
  unmapped-other f other = rw (get-remove s.entity_to_index e f, other)

  index_apart : (f j : ℕ) → (e == f) ≡ false → HashMap.get s.entity_to_index f ≡ some j → i ≢ j
  index_apart f j other at_f eq =
      true≢false
        (sym ((==_iff e f).1 (index_injective s w e f i at (at_f ∙ ap some (sym eq)))) ∙ other)

  -- The entity was in the last place.
  abbrev cut : SparseSet T
  cut = record s { entity_to_index = unmapped; components = take last s.components }

  get-cut : i ≡ last → (f : ℕ) → get cut f ≡ (if e == f then ok none else get s f)
  unfolding lookup found
  get-cut eq f = elim (Bool-cases (e == f)) [
    | inl same ↦ rw same (
        subst (λ k. get cut k ≡ ok none) ((==_iff e f).0 same)
          (get-lookup cut e none unmapped-gone))
    | inr other ↦ rw other (elim (Option-cases (HashMap.get s.entity_to_index f)) [
      | inl none_f ↦
          get-lookup cut f none (unmapped-other f other ∙ none_f) ∙ sym (get-lookup s f none none_f)
      | inr (j, at_f) ↦
          let apart : i ≢ j = index_apart f j other at_f in
          get-lookup cut f (some j) (unmapped-other f other ∙ at_f)
          ∙ ap found (
              get_elem?-take s.components last j
                (omega (arith, apart, eq, len, index-lt s w f j at_f)))
          ∙ sym (get-lookup s f (some j) at_f)
    ])
  ]

  -- The last entity `m` moves to the place of `e`.
  module _ (apart : i ≢ last) (m : ℕ) (x y : T) (here : get_elem? s.components i ≡ some x)
      (end : get_elem? s.components last ≡ some y)
      (at_m : HashMap.get s.entity_to_index m ≡ some last) where
    abbrev swapped : List T
    swapped = set (set s.components i y) last x

    abbrev moved : SparseSet T
    moved = record {
      components = take last swapped;
      entity_to_index = HashMap.insert unmapped m i;
      index_to_entity = set (set s.index_to_entity i m) last e;
    }

    below : i < last
    below = omega (arith, apart, len, index-lt s w e i at)

    other_entity : (m == e) ≡ false
    other_entity = elim (Bool-cases (m == e)) [
      | inl same ↦ absurd (
          apart (
            some-injective (
              sym at
              ∙ subst (λ k. HashMap.get s.entity_to_index k ≡ some last) ((==_iff m e).0 same)
                  at_m)))
      | inr distinct ↦ distinct
    ]

    at_gone : HashMap.get moved.entity_to_index e ≡ none
    at_gone = rw (get-insert unmapped m e i, other_entity) unmapped-gone

    at_moved : HashMap.get moved.entity_to_index m ≡ some i
    at_moved = rw (get-insert unmapped m m i, ==_refl m)

    element :
        (j : ℕ) → j < last → i ≢ j → get_elem? (take last swapped) j ≡ get_elem? s.components j
    element j lt ne =
        get_elem?-take swapped last j lt
        ∙ get_elem?-set_other (set s.components i y) last j x (omega (arith, lt))
        ∙ get_elem?-set_other s.components i j y ne

    element_moved : get_elem? (take last swapped) i ≡ some y
    element_moved =
        get_elem?-take swapped last i below
        ∙ get_elem?-set_other (set s.components i y) last i x (λ eq. apart (sym eq))
        ∙ get_elem?-set_same s.components i y (index-lt s w e i at)

    get-moved : (f : ℕ) → get moved f ≡ (if e == f then ok none else get s f)
    unfolding lookup found
    get-moved f = elim (Bool-cases (e == f)) [
      | inl same ↦ rw same (
          subst (λ k. get moved k ≡ ok none) ((==_iff e f).0 same)
            (get-lookup moved e none at_gone))
      | inr other ↦ rw other (elim (Bool-cases (m == f)) [
        | inl is_moved ↦
            subst (λ k. get moved k ≡ get s k) ((==_iff m f).0 is_moved)
              (get-lookup moved m (some i) at_moved
                ∙ ap found (element_moved ∙ sym end)
                ∙ sym (get-lookup s m (some last) at_m))
        | inr stays ↦
            let entry : HashMap.get moved.entity_to_index f ≡ HashMap.get s.entity_to_index f =
              rw (get-insert unmapped m f i, stays) (unmapped-other f other) in
            elim (Option-cases (HashMap.get s.entity_to_index f)) [
              | inl none_f ↦
                  get-lookup moved f none (entry ∙ none_f) ∙ sym (get-lookup s f none none_f)
              | inr (j, at_f) ↦
                  let ne : i ≢ j = index_apart f j other at_f in
                  let not_last : last ≢ j = λ eq. true≢false (
                    sym
                      ((==_iff m f).1 (index_injective s w m f last at_m (at_f ∙ ap some (sym eq))))
                    ∙ stays) in
                  get-lookup moved f (some j) (entry ∙ at_f)
                  ∙ ap found (element j (omega (arith, not_last, len, index-lt s w f j at_f)) ne)
                  ∙ sym (get-lookup s f (some j) at_f)
            ]
      ])
    ]

  -- The call, in its two cases.
  remove-cut :
      (x : T)
      → i ≡ last
      → get_elem? s.components last ≡ some x
      → last_index s.components ≡ ok last
      → remove s e ≡ ok (some x, cut)
  unfolding remove remove_at pop
  remove-cut x eq here at_end =
      rw (at, remove, at_end, (==_iff i last).1 eq, index_at-some s.components last x here)

  remove-moved :
      (apart : i ≢ last) (m : ℕ) (x y : T) (here : get_elem? s.components i ≡ some x)
      (end : get_elem? s.components last ≡ some y)
      (at_m : HashMap.get s.entity_to_index m ≡ some last)
      → last_index s.components ≡ ok last
      → remove s e ≡ ok (some x, moved apart m x y here end at_m)
  unfolding remove remove_at pop move_last swap
  remove-moved apart m x y here end at_m at_end =
      let distinct : (i == last) ≡ false = ground arith in
      let entity_here : get_elem? (set (set s.index_to_entity i m) last e) i ≡ some m =
        get_elem?-set_other (set s.index_to_entity i m) last i e (λ eq. apart (sym eq))
        ∙ get_elem?-set_same s.index_to_entity i m
            (get_elem?-lt s.index_to_entity i e (w.back e i at)) in
      let last_here : get_elem? (set (set s.components i y) last x) last ≡ some x =
        get_elem?-set_same (set s.components i y) last x
          (omega (arith, length-set s.components i y, len)) in
      rw (
        at,
        remove,
        at_end,
        distinct,
        index_at-some s.components i x here,
        index_at-some s.components last y end,
        index_at-some s.index_to_entity i e (w.back e i at),
        index_at-some s.index_to_entity last m (w.back m last at_m),
        index_at-some (set (set s.index_to_entity i m) last e) i m entity_here,
        index_at-some (set (set s.components i y) last x) last x last_here,
      )

-- `remove` of an entity that a well-formed sparse set has never panics: it returns the component of
-- that entity, which is gone, and no other changes. But `index_to_entity` keeps its length, while
-- `components` has one element less: the set is no longer well formed.
pub remove-get :
    {T : Type 0} (s : SparseSet T) (e i : ℕ)
    → IsWf s
    → HashMap.get s.entity_to_index e ≡ some i
    → (c : T) × (s' : SparseSet T) × (remove s e ≡ ok (some c, s'))
      × (get s e ≡ ok (some c))
      × ((f : ℕ) → get s' f ≡ (if e == f then ok none else get s f))
      × (length s'.components + 1 ≡ length s.components)
      × (length s'.index_to_entity ≡ length s.index_to_entity)
unfolding lookup found
remove-get s e i w at =
    let lt : i < length s.components = index-lt s w e i at in
    let (last, at_end, len) = last_index-ok s.components i lt in
    let (x, here) = get_elem?-some s.components i lt in
    let (y, end) = get_elem?-some s.components last (omega (arith, len)) in
    let (m, entity) = get_elem?-some s.index_to_entity last (omega (arith, len, w.same)) in
    let held : get s e ≡ ok (some x) = get-lookup s e (some i) at ∙ ap found here in
    elim (Bool-cases (i == last)) [
      | inl same ↦
          let eq : i ≡ last = (==_iff i last).0 same in
          (
            x,
            cut s w e i last at len,
            remove-cut s w e i last at len x eq
                (subst (λ k. get_elem? s.components k ≡ some x) eq here) at_end,
            held,
            get-cut s w e i last at len eq,
            omega (arith, len, length-take s.components last (omega (arith, len))),
            refl,
          )
      | inr differ ↦
          let apart : i ≢ last = λ eq. true≢false (sym ((==_iff i last).1 eq) ∙ differ) in
          let at_m = w.forth m last entity in
          let shorter : length (take last (set (set s.components i y) last x)) ≡ last =
            length-take _ last (
              omega (
                arith,
                len,
                length-set (set s.components i y) last x,
                length-set s.components i y,
              )) in
          (
            x,
            moved s w e i last at len apart m x y here end at_m,
            remove-moved s w e i last at len apart m x y here end at_m at_end,
            held,
            get-moved s w e i last at len apart m x y here end at_m,
            omega (arith, len, shorter),
            omega (
              arith,
              length-set (set s.index_to_entity i m) last e,
              length-set s.index_to_entity i m,
            ),
          )
    ]
