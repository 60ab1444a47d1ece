-- ===== src/Entity/Archetype/SwapRemove.antt =====
-- `Vec::swap_remove` at the position of an element takes out one copy of it and no other element.
use rodengine.Common.{
  ℕ, zero, suc, ◌+◌, ◌-◌, ◌≡◌, inl, inr, refl, List, [], ◌∷◌, ◌++◌, none, some, arith, ◌==◌,
  if◌then◌else◌, Bool-cases, Option-cases, subst, ==_iff,
}
use rodengine.Entity.Archetype.{position, last_of, before_last, swap_remove, drop_entity}

-- How often a number stands in a list.
abbrev pub count : ℕ → List ℕ → ℕ
count e [] = 0
count e (x ∷ xs) = (if x == e then 1 else 0) + count e xs

pub count-append : (e : ℕ) (xs ys : List ℕ) → count e (xs ++ ys) ≡ count e xs + count e ys
count-append e [] ys = omega arith
count-append e (x ∷ xs) ys = omega (arith, count-append e xs ys)

count-last :
    (e x : ℕ) (xs : List ℕ)
    → (if last_of x xs == e then 1 else 0) + count e (before_last x xs) ≡ count e (x ∷ xs)
unfolding last_of before_last
count-last e x [] = omega arith
count-last e x (y ∷ xs) = ground (arith, count-last e y xs)

position-none : (e : ℕ) (xs : List ℕ) → position xs e ≡ none → count e xs ≡ 0
unfolding position
position-none e [] h = refl
position-none e (x ∷ xs) h = ground (arith, position-none e xs)

count-swap_remove :
    (e f pos : ℕ) (xs : List ℕ)
    → position xs e ≡ some pos
    → count f (swap_remove xs pos) + (if e == f then 1 else 0) ≡ count f xs
unfolding position swap_remove
count-swap_remove e f pos [] h = cc
count-swap_remove e f zero (x ∷ []) h = ground arith
count-swap_remove e f zero (x ∷ y ∷ xs) h = ground (arith, count-last f y xs)
count-swap_remove e f (suc pos) (x ∷ []) h = ground arith
count-swap_remove e f (suc pos) (x ∷ y ∷ xs) h = ground (arith, count-swap_remove e f pos (y ∷ xs))

-- Dropping an entity from its list takes out one copy of it, and keeps the others as often.
pub count-drop_entity :
    (e f : ℕ) (xs : List ℕ) → count f (drop_entity xs e) ≡ count f xs - (if e == f then 1 else 0)
unfolding drop_entity
count-drop_entity e f xs = elim (Option-cases (position xs e)) [
  | inl missing ↦
      rw (missing, drop_entity)
        (elim (Bool-cases (e == f)) [
          | inl same ↦
              let absent : count f xs ≡ 0 =
                subst (λ k. count k xs ≡ 0) ((==_iff e f).0 same) (position-none e xs missing) in
              rw same (omega arith)
          | inr other ↦ rw other (omega arith)
        ])
  | inr (pos, at) ↦ rw (at, drop_entity) (omega (arith, count-swap_remove e f pos xs at))
]
