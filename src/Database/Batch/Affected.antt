-- ===== src/Database/Batch/Affected.antt =====
-- The tables that a batch finds to be affected are those of all its operations.
use rodengine.Common.{
  ℕ, ◌≡◌, sym, subst, true, List, [], ◌∷◌, ◌++◌, if◌then◌else◌, ◌==◌, ==_refl, ==_iff, contains,
  ◌||◌, or-true_right, true≢false, Bool-cases, inl, inr,
}
use rodengine.Transaction.WriteQueue.{WriteOpWithoutResponse}
use rodengine.Database.Batch.{affected_table_ids, table_id_of}
use rodengine.Database.Batch.Steps.{table_ids}

contains-last : (ids : List ℕ) (a : ℕ) → contains (ids ++ a ∷ []) a ≡ true
contains-last [] a = rw ((==_refl a))
contains-last (x ∷ ids) a = or-true_right (x == a) _ (contains-last ids a)

contains-append :
    (ids more : List ℕ) (a : ℕ) → contains ids a ≡ true → contains (ids ++ more) a ≡ true
contains-append [] more a h = absurd (true≢false (sym h))
contains-append (x ∷ ids) more a h = elim (Bool-cases (x == a)) [
  | inl e ↦ rw e
  | inr e ↦
      or-true_right (x == a) _
        (contains-append ids more a (subst (λ b. (b || contains ids a) ≡ true) e h))
]

-- One step of the search for the affected tables.
noted : List ℕ → ℕ → List ℕ
noted ids t = if contains ids t then ids else ids ++ t ∷ []

noted-contains : (ids : List ℕ) (t : ℕ) → contains (noted ids t) t ≡ true
unfolding noted
noted-contains ids t = elim (Bool-cases (contains ids t)) [
  | inl e ↦ rw (e, e)
  | inr e ↦ rw e (contains-last ids t)
]

noted-keeps : (ids : List ℕ) (t a : ℕ) → contains ids a ≡ true → contains (noted ids t) a ≡ true
unfolding noted
noted-keeps ids t a h = elim (Bool-cases (contains ids t)) [
  | inl e ↦ rw e h
  | inr e ↦ rw e (contains-append ids (t ∷ []) a h)
]

affected_table_ids-keeps :
    (ops : List WriteOpWithoutResponse) (ids : List ℕ) (a : ℕ)
    → contains ids a ≡ true
    → contains (affected_table_ids ops ids) a ≡ true
unfolding affected_table_ids noted
affected_table_ids-keeps [] ids a h = h
affected_table_ids-keeps (op ∷ ops) ids a h =
    affected_table_ids-keeps ops _ a (noted-keeps ids (table_id_of op) a h)

pub affected_table_ids-contains :
    (ops : List WriteOpWithoutResponse) (ids : List ℕ) (a : ℕ)
    → contains (table_ids ops) a ≡ true
    → contains (affected_table_ids ops ids) a ≡ true
unfolding affected_table_ids table_ids noted
affected_table_ids-contains [] ids a h = absurd (true≢false (sym h))
affected_table_ids-contains (op ∷ ops) ids a h = elim (Bool-cases (table_id_of op == a)) [
  | inl e ↦ affected_table_ids-keeps ops _ a (
      subst (λ t. contains (noted ids (table_id_of op)) t ≡ true) ((==_iff _ a).0 e)
        (noted-contains ids (table_id_of op)))
  | inr e ↦
      affected_table_ids-contains ops _ a
        (subst (λ b. (b || contains (table_ids ops) a) ≡ true) e h)
]
