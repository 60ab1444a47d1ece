-- ===== src/Replication/DeltaLog/Bounded.antt =====
-- ecsdb/src/replication/delta_log.rs: the bound on the log and its sequence numbers.
use rodengine.Common.{
  ℕ, ◌+◌, ◌%◌, ◌^◌, ◌≤◌, ◌<◌, ◌≡◌, false, refl, sym, ap, subst, ◌∙◌, leb, List, [], ◌∷◌, ◌++◌,
  length, length-append, Bool-cases, inl, inr, arith,
}
use rodengine.Error.{ok}
use rodengine.Storage.Delta.{Delta}
use rodengine.Replication.DeltaLog.{DeltaLogEntry, DeltaLog, from_delta, push_bounded, record_delta}

-- What is left of a list, perhaps without its first element, and with `x` at its end.
pub record Pushed {A : Type 0} (most : ℕ) (xs : List A) (x : A) : Type 0 where
  pub dropped : List A
  pub kept : List A
  pub split : xs ≡ dropped ++ kept
  pub few : length dropped ≤ 1
  pub pushed : push_bounded most xs x ≡ ok (kept ++ x ∷ [])
  pub bounded : length (kept ++ x ∷ []) ≤ most

pub push_bounded-Pushed :
    {A : Type 0} (most : ℕ) (xs : List A) (x : A) → 0 < most → length xs ≤ most → Pushed most xs x
unfolding push_bounded
push_bounded-Pushed most [] x h k =
    let open_end : leb most 0 ≡ false = ground arith in
    record {
      dropped = [];
      kept = [];
      split = refl;
      few = omega arith;
      pushed = rw open_end refl;
      bounded = omega (arith, h);
    }
push_bounded-Pushed most (y ∷ xs) x h k = elim (Bool-cases (leb most (length (y ∷ xs)))) [
  | inl e ↦ record {
    dropped = y ∷ [];
    kept = xs;
    split = refl;
    few = omega arith;
    pushed = rw e refl;
    bounded = omega (arith, length-append xs (x ∷ []), k);
  }
  | inr e ↦ record {
    dropped = [];
    kept = y ∷ xs;
    split = refl;
    few = omega arith;
    pushed = rw e refl;
    bounded = ground (arith, length-append xs (x ∷ []));
  }
]

-- The sequence numbers run from `first` up to, and without, `next`.
abbrev pub Numbered : ℕ → List DeltaLogEntry → ℕ → Type 0
Numbered first [] next = first ≡ next
Numbered first (x ∷ xs) next = (x.seq ≡ first) × Numbered (first + 1) xs next

pub record IsWf (log : DeltaLog) : Type 0 where
  pub first : ℕ
  pub numbered : Numbered first log.entries log.next_seq
  pub bounded : length log.entries ≤ log.max_entries

Numbered-append :
    (first next : ℕ) (xs : List DeltaLogEntry) (x : DeltaLogEntry)
    → Numbered first xs next
    → x.seq ≡ next
    → Numbered first (xs ++ x ∷ []) (next + 1)
Numbered-append first next [] x h e = (e ∙ sym h, ap (λ n. n + 1) h)
Numbered-append first next (y ∷ xs) x (p, h) e = (p, Numbered-append (first + 1) next xs x h e)

Numbered-suffix :
    (first next : ℕ) (xs ys : List DeltaLogEntry)
    → Numbered first (xs ++ ys) next
    → (start : ℕ) × Numbered start ys next
Numbered-suffix first next [] ys h = (first, h)
Numbered-suffix first next (x ∷ xs) ys (p, h) = Numbered-suffix (first + 1) next xs ys h

-- The log after a delta: at most the oldest entry went, and the delta's came.
pub record Recorded (log : DeltaLog) (delta : Delta) : Type 0 where
  pub dropped : List DeltaLogEntry
  pub kept : List DeltaLogEntry
  pub after : DeltaLog
  pub split : log.entries ≡ dropped ++ kept
  pub few : length dropped ≤ 1
  pub recorded : record_delta log delta ≡ ok after
  pub entries : after.entries ≡ kept ++ from_delta log.next_seq delta ∷ []
  pub is_wf : IsWf after

-- Recording a delta in a log that keeps at least one entry neither fails nor panics: the delta's
-- entry comes to the end and at most the oldest one goes, at most `max_entries` are kept, and their
-- sequence numbers stay without a gap. (The sequence number must not have reached its last value.)
pub record_delta-Recorded :
    (log : DeltaLog) (delta : Delta)
    → IsWf log
    → 0 < log.max_entries
    → log.next_seq + 1 < 2 ^ 64
    → Recorded log delta
unfolding record_delta from_delta
record_delta-Recorded log delta wf h k =
    let entry = from_delta log.next_seq delta in
    let pushed = push_bounded-Pushed log.max_entries log.entries entry h wf.bounded in
    let suffix =
      Numbered-suffix wf.first log.next_seq pushed.dropped pushed.kept
        (subst (λ es. Numbered wf.first es log.next_seq) pushed.split wf.numbered) in
    let low : (log.next_seq + 1) % 2 ^ 64 ≡ log.next_seq + 1 = omega (arith, k) in
    record {
      dropped = pushed.dropped;
      kept = pushed.kept;
      after = record log { entries = pushed.kept ++ entry ∷ []; next_seq = log.next_seq + 1 };
      split = pushed.split;
      few = pushed.few;
      recorded = rw (pushed.pushed, low) refl;
      entries = refl;
      is_wf = record {
        first = suffix.0;
        numbered = Numbered-append suffix.0 log.next_seq pushed.kept entry suffix.1 refl;
        bounded = pushed.bounded;
      };
    }
