-- ===== src/Replication/Sync/Archive.antt =====
-- ecsdb/src/replication/sync.rs: the archive of deltas.
use rodengine.Common.{
  ℕ, ◌+◌, ◌≤◌, ◌<◌, ◌≡◌, ◌⊎◌, refl, subst, leb, max, Bool, true, false, ◌&&◌, List, [], ◌∷◌, ◌++◌,
  ap, Bool-cases, inl, inr, arith,
}
use rodengine.Storage.Delta.{Delta}
use rodengine.Replication.Sync.{in_range, collect_range}

-- The deltas have the versions from `first` up to, and without, `next`.
abbrev pub Consecutive : ℕ → List Delta → ℕ → Type 0
Consecutive first [] next = first ≡ next
Consecutive first (d ∷ ds) next = (d.version ≡ first) × Consecutive (first + 1) ds next

and_false : (b : Bool) → (b && false) ≡ false
and_false true = refl
and_false false = refl

collect_range-past :
    (from to first next : ℕ) (archive : List Delta)
    → Consecutive first archive next
    → to < first
    → collect_range from to archive ≡ []
unfolding collect_range in_range
collect_range-past from to first next [] h p = refl
collect_range-past from to first next (d ∷ archive) (e, h) p =
    let past : leb d.version to ≡ false = ground arith in
    rw
      (
        past,
        and_false (leb from d.version),
        collect_range-past from to (first + 1) next archive h (omega (arith, p)),
      )
      refl

in_range-inside :
    (from to : ℕ) (d : Delta) → in_range from to d ≡ true → (from ≤ d.version) × (d.version ≤ to)
unfolding in_range
in_range-inside from to d h = ground arith

in_range-outside :
    (from to : ℕ) (d : Delta) → in_range from to d ≡ false → (d.version < from) ⊎ (to < d.version)
unfolding in_range
in_range-outside from to d h = ground arith

collect_range-from :
    (from to first next : ℕ) (archive : List Delta)
    → Consecutive first archive next
    → to < next
    → max first from ≤ to + 1
    → Consecutive (max first from) (collect_range from to archive) (to + 1)
unfolding collect_range
collect_range-from from to first next [] h p q = omega (arith, h, p, q)
collect_range-from from to first next (d ∷ archive) (e, h) p q =
    elim (Bool-cases (in_range from to d)) [
      | inl inside ↦
          let bounds = in_range-inside from to d inside in
          let start : max first from ≡ first = omega (arith, e, bounds.0) in
          let next_start : max (first + 1) from ≡ first + 1 = omega (arith, e, bounds.0) in
          let rest =
            collect_range-from from to (first + 1) next archive h p
              (omega (arith, e, bounds.0, bounds.1)) in
          rw (inside, start)
            (e, subst (λ k. Consecutive k (collect_range from to archive) (to + 1)) next_start rest)
      | inr outside ↦ rw outside (elim (in_range-outside from to d outside) [
        | inl early ↦
            let start : max (first + 1) from ≡ max first from = omega (arith, e, early) in
            subst (λ k. Consecutive k (collect_range from to archive) (to + 1)) start
              (collect_range-from from to (first + 1) next archive h p (omega (arith, e, early, q)))
        | inr late ↦
            let past =
              collect_range-past from to (first + 1) next archive h (omega (arith, e, late)) in
            rw past (omega (arith, e, late, q))
      ])
    ]

-- What is collected is a part of the archive, with all between its ends.
abbrev pub IsSlice : List Delta → List Delta → Type 0
IsSlice deltas archive =
    (before : List Delta) × ((after : List Delta) × (archive ≡ before ++ (deltas ++ after)))

-- From an archive that starts within the range, its first deltas are collected.
collect_range-starts :
    (from to first next : ℕ) (archive : List Delta)
    → Consecutive first archive next
    → from ≤ first
    → (after : List Delta) × (archive ≡ collect_range from to archive ++ after)
unfolding collect_range
collect_range-starts from to first next [] h p = ([], refl)
collect_range-starts from to first next (d ∷ archive) (e, h) p =
    elim (Bool-cases (in_range from to d)) [
      | inl inside ↦
          let (after, whole) =
            collect_range-starts from to (first + 1) next archive h (omega (arith, p)) in
          rw inside (after, ap (◌∷◌ d) whole)
      | inr outside ↦ rw outside (elim (in_range-outside from to d outside) [
        | inl early ↦ absurd (omega (arith, e, early, p))
        | inr late ↦
            let past =
              collect_range-past from to (first + 1) next archive h (omega (arith, e, late)) in
            rw past (d ∷ archive, refl)
      ])
    ]

collect_range-IsSlice :
    (from to first next : ℕ) (archive : List Delta)
    → Consecutive first archive next
    → IsSlice (collect_range from to archive) archive
unfolding collect_range
collect_range-IsSlice from to first next [] h = ([], ([], refl))
collect_range-IsSlice from to first next (d ∷ archive) (e, h) =
    elim (Bool-cases (in_range from to d)) [
      | inl inside ↦
          let bounds = in_range-inside from to d inside in
          let (after, whole) =
            collect_range-starts from to (first + 1) next archive h (omega (arith, e, bounds.0)) in
          rw inside ([], (after, ap (◌∷◌ d) whole))
      | inr outside ↦
          let (before, (after, whole)) = collect_range-IsSlice from to (first + 1) next archive h in
          rw outside (d ∷ before, (after, ap (◌∷◌ d) whole))
    ]

-- From an archive without gaps that goes back far enough, the deltas collected for a range of
-- versions are a contiguous part of the archive, as they stand there, and have exactly the versions
-- of the range, in their order.
pub collect_range-Consecutive :
    (from to first next : ℕ) (archive : List Delta)
    → Consecutive first archive next
    → first ≤ from
    → from ≤ to
    → to < next
    → IsSlice (collect_range from to archive) archive
      × Consecutive from (collect_range from to archive) (to + 1)
collect_range-Consecutive from to first next archive h p q r =
    let e : max first from ≡ from = omega (arith, p) in
    (
      collect_range-IsSlice from to first next archive h,
      subst (λ k. Consecutive k (collect_range from to archive) (to + 1)) e
          (collect_range-from from to first next archive h r (omega (arith, p, q))),
    )
