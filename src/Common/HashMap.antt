-- ===== src/Common/HashMap.antt =====
-- `std::collections::HashMap` and `DashMap` with integer keys, as association lists. The order of
-- the entries stands for the unspecified order of iteration.
use Prim.Native.Nat.{ℕ, ◌+◌, ◌≤◌, ◌<◌}
use mathlib.Core.Path.{◌≡◌, refl, sym, subst}
use mathlib.Core.Logic.{inl, inr}
use mathlib.Core.Bool.{Bool}
use mathlib.Core.List.{List, [], ◌∷◌}
use mathlib.Core.Option.{Option, none, some}
use native.Mathlib.Omega.{arith}
use rodengine.Common.Lists.{length, All}
use rodengine.Common.Bools.{Bool-cases, some≢none, some-injective, ◌==◌, if◌then◌else◌, is_some}

abbrev pub HashMap {ℓ} : Type ℓ → Type ℓ
HashMap V = List (ℕ × V)

module _ {ℓ} {V : Type ℓ} where
  unfoldable pub get : HashMap V → ℕ → Option V
  get [] k = none
  get ((j, v) ∷ m) k = if j == k then some v else get m k

  unfoldable pub insert : HashMap V → ℕ → V → HashMap V
  insert [] k v = (k, v) ∷ []
  insert ((j, w) ∷ m) k v = if j == k then (k, v) ∷ m else (j, w) ∷ insert m k v

  unfoldable pub remove : HashMap V → ℕ → HashMap V
  remove [] k = []
  remove ((j, w) ∷ m) k = let rest = remove m k in if j == k then rest else (j, w) ∷ rest

  abbrev pub contains_key : HashMap V → ℕ → Bool
  contains_key m k = is_some (get m k)

  pub get-insert :
      (m : HashMap V) (k j : ℕ) (v : V)
      → get (insert m k v) j ≡ (if k == j then some v else get m j)
  unfolding get insert
  get-insert [] k j v = refl
  get-insert ((i, w) ∷ m) k j v = ground (arith, get-insert m k j v)

  pub get-remove :
      (m : HashMap V) (k j : ℕ) → get (remove m k) j ≡ (if k == j then none else get m j)
  unfolding get remove
  get-remove [] k j = ground arith
  get-remove ((i, w) ∷ m) k j = ground (arith, get-remove m k j)

  pub length-insert-le : (m : HashMap V) (k : ℕ) (v : V) → length (insert m k v) ≤ length m + 1
  unfolding insert
  length-insert-le [] k v = omega arith
  length-insert-le ((j, w) ∷ m) k v = ground (arith, length-insert-le m k v)

  pub length-remove-le : (m : HashMap V) (k : ℕ) → length (remove m k) ≤ length m
  unfolding remove
  length-remove-le [] k = omega arith
  length-remove-le ((j, w) ∷ m) k = ground (arith, length-remove-le m k)

  pub length-remove-lt :
      (m : HashMap V) (k : ℕ) (v : V) → get m k ≡ some v → length (remove m k) < length m
  unfolding get remove
  length-remove-lt [] k v h = cc
  length-remove-lt ((j, w) ∷ m) k v h = ground (arith, length-remove-le m k, length-remove-lt m k v)

-- `for value in map.values_mut() { *value = f(*value) }`
unfoldable pub map_values {ℓ κ} : {V : Type ℓ} {W : Type κ} → (V → W) → HashMap V → HashMap W
map_values f [] = []
map_values f ((j, v) ∷ m) = (j, f v) ∷ map_values f m

abbrev pub mapped {ℓ κ} : {V : Type ℓ} {W : Type κ} → (V → W) → Option V → Option W
mapped f none = none
mapped f (some v) = some (f v)

pub get-map_values {ℓ κ} :
    {V : Type ℓ} {W : Type κ} (f : V → W) (m : HashMap V) (k : ℕ)
    → get (map_values f m) k ≡ mapped f (get m k)
unfolding get map_values
get-map_values f [] k = refl
get-map_values f ((j, v) ∷ m) k = ground (arith, get-map_values f m k)

pub length-map_values {ℓ κ} :
    {V : Type ℓ} {W : Type κ} (f : V → W) (m : HashMap V) → length (map_values f m) ≡ length m
unfolding map_values
length-map_values f [] = refl
length-map_values f ((j, v) ∷ m) = omega (arith, length-map_values f m)

pub ruleset hash_map_laws = (get-insert, get-remove, get-map_values)

-- A property of all values.
module _ {ℓ} {V : Type ℓ} (P : V → Type 0) where
  pub All-insert :
      (m : HashMap V) (k : ℕ) (v : V) → All (λ r. P r.1) m → P v → All (λ r. P r.1) (insert m k v)
  unfolding insert
  All-insert [] k v h p = (p, tt)
  All-insert ((j, w) ∷ m) k v (q, h) p = elim (Bool-cases (j == k)) [
    | inl e ↦ rw e (p, h)
    | inr e ↦ rw e (q, All-insert m k v h p)
  ]

  pub All-remove : (m : HashMap V) (k : ℕ) → All (λ r. P r.1) m → All (λ r. P r.1) (remove m k)
  unfolding remove
  All-remove [] k h = tt
  All-remove ((j, w) ∷ m) k (q, h) = elim (Bool-cases (j == k)) [
    | inl e ↦ rw e (All-remove m k h)
    | inr e ↦ rw e (q, All-remove m k h)
  ]

  pub All-get : (m : HashMap V) (k : ℕ) (v : V) → All (λ r. P r.1) m → get m k ≡ some v → P v
  unfolding get
  All-get [] k v h e = absurd (some≢none (sym e))
  All-get ((j, w) ∷ m) k v (q, h) e = elim (Bool-cases (j == k)) [
    | inl same ↦
        subst P (some-injective (subst (λ b. (if b then some w else get m k) ≡ some v) same e)) q
    | inr other ↦ All-get m k v h (subst (λ b. (if b then some w else get m k) ≡ some v) other e)
  ]
