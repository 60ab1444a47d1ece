-- ===== src/Tests/SparseTests.antt =====
-- Sparse sets: a run after which `get` of an entity that was inserted panics.
use rodengine.Common.{
  sym, zero, suc, ◌+◌, ◌==◌, if◌then◌else◌, ◌⊎◌, inl, inr, some-injective, some≢none, ℕ, ◌≡◌, refl,
  [], ◌∷◌, none, some, length, get_elem?, arith,
}
use rodengine.Common.HashMap
use rodengine.Error.{Result, ok, panic, ◌>>=◌}
use rodengine.Storage.Sparse.{SparseSet, new, insert, get, remove}
use rodengine.Storage.Sparse.Lookup.{IsWf, insert-get}
use rodengine.Storage.Sparse.Removal.{remove-get}

-- Inserting 1, 2, 3, removing 3, inserting 4 and removing 1.
history : Result (SparseSet ℕ)
unfolding insert remove new
history = do
  a ← insert new 1 10
  b ← insert a 2 20
  c ← insert b 3 30
  (x, d) ← remove c 3
  e ← insert d 4 40
  (y, f) ← remove e 1
  ok f

panics : (history >>= λ s. get s 4) ≡ panic
unfolding history get insert remove new HashMap.get HashMap.insert HashMap.remove
panics = refl

abbrev two : SparseSet ℕ
two = record {
  components = 10 ∷ 20 ∷ [];
  entity_to_index = (5, 0) ∷ (6, 1) ∷ [];
  index_to_entity = 5 ∷ 6 ∷ [];
}

at_index :
    (i e : ℕ)
    → get_elem? two.index_to_entity i ≡ some e
    → HashMap.get two.entity_to_index e ≡ some i
unfolding HashMap.get
at_index zero e h = rw (sym (some-injective h))
at_index (suc zero) e h = rw (sym (some-injective h))
at_index (suc (suc i)) e h = absurd (some≢none (sym h))

entry :
    (e i : ℕ)
    → HashMap.get two.entity_to_index e ≡ some i
    → ((e ≡ 5) × (i ≡ 0)) ⊎ ((e ≡ 6) × (i ≡ 1))
unfolding HashMap.get
entry e i h = ground arith

two-IsWf : IsWf two
two-IsWf = record {
  same = refl;
  back = λ e i h. elim (entry e i h) [ inl (a, b) ↦ rw (a, b) | inr (a, b) ↦ rw (a, b) ];
  forth = λ e i h. at_index i e h;
}

at_five : HashMap.get two.entity_to_index 5 ≡ some 0
unfolding HashMap.get
at_five = refl

insert-get_example :
    (s' : SparseSet ℕ) × (insert two 7 30 ≡ ok s')
    × IsWf s'
    × ((f : ℕ) → get s' f ≡ (if 7 == f then ok (some 30) else get two f))
insert-get_example = insert-get two two-IsWf 7 30

remove-get_example :
    (c : ℕ) × (s' : SparseSet ℕ) × (remove two 5 ≡ ok (some c, s'))
    × (get two 5 ≡ ok (some c))
    × ((f : ℕ) → get s' f ≡ (if 5 == f then ok none else get two f))
    × (length s'.components + 1 ≡ length two.components)
    × (length s'.index_to_entity ≡ length two.index_to_entity)
remove-get_example = remove-get two 5 0 two-IsWf at_five
