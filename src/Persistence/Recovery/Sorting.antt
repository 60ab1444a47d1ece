-- ===== src/Persistence/Recovery/Sorting.antt =====
-- ecsdb/src/persistence/manager.rs: the sort of the committed transactions.
use rodengine.Common.{
  ℕ, ◌≤◌, ◌<◌, ◌==◌, ◌≡◌, refl, ap, ◌∙◌, false, if◌then◌else◌, List, [], ◌∷◌, All, ltb, Bool-cases,
  inl, inr, arith,
}
use rodengine.Transaction.Wal.{WalOp}
use rodengine.Persistence.Replay.{sort_by_id, insert_sorted}

-- Each transaction's ID is at most those behind it.
abbrev pub Ascending : List (ℕ × List WalOp) → Type 0
Ascending [] = Unit {0}
Ascending (t ∷ ts) = All (λ (u : ℕ × List WalOp). t.0 ≤ u.0) ts × Ascending ts

insert_sorted-All :
    (P : ℕ × List WalOp → Type 0) (t : ℕ × List WalOp) (ts : List (ℕ × List WalOp))
    → P t
    → All P ts
    → All P (insert_sorted t ts)
unfolding insert_sorted
insert_sorted-All P t [] p h = (p, tt)
insert_sorted-All P t (u ∷ us) p (q, h) = elim (Bool-cases (ltb u.0 t.0)) [
  | inl e ↦ rw e (q, insert_sorted-All P t us p h)
  | inr e ↦ rw e (p, (q, h))
]

All-le :
    (a b : ℕ) (ts : List (ℕ × List WalOp))
    → a ≤ b
    → All (λ (u : ℕ × List WalOp). b ≤ u.0) ts
    → All (λ (u : ℕ × List WalOp). a ≤ u.0) ts
All-le a b [] le h = tt
All-le a b (t ∷ ts) le (p, h) = (omega (arith, p, le), All-le a b ts le h)

insert_sorted-Ascending :
    (t : ℕ × List WalOp) (ts : List (ℕ × List WalOp))
    → Ascending ts
    → Ascending (insert_sorted t ts)
unfolding insert_sorted
insert_sorted-Ascending t [] h = (tt, tt)
insert_sorted-Ascending t (u ∷ us) (least, h) = elim (Bool-cases (ltb u.0 t.0)) [
  | inl e ↦
      rw e (
        insert_sorted-All (λ v. u.0 ≤ v.0) t us (ground arith) least,
        insert_sorted-Ascending t us h,
      )
  | inr e ↦ let le : t.0 ≤ u.0 = ground arith in rw e ((le, All-le t.0 u.0 us le least), (least, h))
]

pub sort_by_id-All :
    (P : ℕ × List WalOp → Type 0) (ts : List (ℕ × List WalOp)) → All P ts → All P (sort_by_id ts)
unfolding sort_by_id
sort_by_id-All P [] h = tt
sort_by_id-All P (t ∷ ts) (p, h) = insert_sorted-All P t _ p (sort_by_id-All P ts h)

pub sort_by_id-Ascending : (ts : List (ℕ × List WalOp)) → Ascending (sort_by_id ts)
unfolding sort_by_id
sort_by_id-Ascending [] = tt
sort_by_id-Ascending (t ∷ ts) = insert_sorted-Ascending t _ (sort_by_id-Ascending ts)

-- The transactions with this ID.
abbrev pub of_id : ℕ → List (ℕ × List WalOp) → List (ℕ × List WalOp)
of_id id [] = []
of_id id (t ∷ ts) = if t.0 == id then t ∷ of_id id ts else of_id id ts

-- Two neighbours with different IDs can change places.
of_id-swap :
    (id : ℕ) (t u : ℕ × List WalOp) (ts : List (ℕ × List WalOp))
    → u.0 < t.0
    → of_id id (u ∷ t ∷ ts) ≡ of_id id (t ∷ u ∷ ts)
of_id-swap id t u ts lt = elim (Bool-cases (u.0 == id)) [
  | inl e ↦ let other : (t.0 == id) ≡ false = ground arith in rw (e, other) refl
  | inr e ↦ rw e refl
]

of_id-insert_sorted :
    (id : ℕ) (t : ℕ × List WalOp) (ts : List (ℕ × List WalOp))
    → of_id id (insert_sorted t ts) ≡ of_id id (t ∷ ts)
unfolding insert_sorted
of_id-insert_sorted id t [] = refl
of_id-insert_sorted id t (u ∷ us) = elim (Bool-cases (ltb u.0 t.0)) [
  | inl e ↦ rw (e, of_id-insert_sorted id t us) (of_id-swap id t u us (ground arith))
  | inr e ↦ rw e refl
]

pub of_id-sort_by_id :
    (id : ℕ) (ts : List (ℕ × List WalOp)) → of_id id (sort_by_id ts) ≡ of_id id ts
unfolding sort_by_id
of_id-sort_by_id id [] = refl
of_id-sort_by_id id (t ∷ ts) =
    of_id-insert_sorted id t (sort_by_id ts)
    ∙ ap (λ us. if t.0 == id then t ∷ us else us) (of_id-sort_by_id id ts)
