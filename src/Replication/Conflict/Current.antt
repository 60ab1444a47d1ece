-- ===== src/Replication/Conflict/Current.antt =====
-- ecsdb/src/replication/conflict.rs: what a resolved delta rests on.
use rodengine.Common.{
  ℕ, ◌≡◌, refl, sym, subst, ◌∙◌, Bool, true, false, Option, none, some, some-injective, some≢none,
  List, [], ◌∷◌, All, if◌then◌else◌, Bool-cases, inl, inr,
}
use rodengine.Error.{Result, ok, err, panic, IfOk, IfOk-bind}
use rodengine.Storage.Buffer.{Bytes}
use rodengine.Storage.Delta.{Delta, DeltaOp}
use rodengine.Replication.Frame.{equal_bytes}
use rodengine.Replication.Frame.Sound.{equal_bytes-equal}
use rodengine.Replication.Conflict.{
  ConflictStrategy, Conflict, ConflictResolver, merge_with, choose, logged, resolve_conflict,
  Server, Incoming, settled, keeps_server, resolve_insert, resolve_update, resolve_delete,
  resolve_op, and_then, push, resolve_ops, resolve,
}

-- The operation rests on what the server has: an update or a deletion names the server's record as
-- the old one; under the server's authority, an insertion over a record writes the same record.
abbrev pub Current : ConflictStrategy → Server → DeltaOp → Type 0
Current strategy server (DeltaOp.insert t e b) =
    (v : Bytes) → server t e ≡ some v → strategy ≡ ConflictStrategy.server_authoritative → b ≡ v
Current strategy server (DeltaOp.update t e field_offset old_data new_data) =
    (v : Bytes) → server t e ≡ some v → old_data ≡ v
Current strategy server (DeltaOp.delete t e old_data) =
    (v : Bytes) → server t e ≡ some v → old_data ≡ v
Current strategy server (DeltaOp.create_entity e) = Unit {0}
Current strategy server (DeltaOp.delete_entity e) = Unit {0}

-- The result has the property, and the strategy is still the same.
abbrev Keeps : {A : Type 0} → ConflictStrategy → (A → Type 0) → Result A × ConflictResolver → Type 0
Keeps strategy P x = (x.1.strategy ≡ strategy) × IfOk P x.0

Keeps-and_then :
    {A B : Type 0} (strategy : ConflictStrategy) (P : A → Type 0) (Q : B → Type 0)
    (x : Result A × ConflictResolver) (f : A → ConflictResolver → Result B × ConflictResolver)
    → Keeps strategy P x
    → ((a : A) (r : ConflictResolver) → r.strategy ≡ strategy → P a → Keeps strategy Q (f a r))
    → Keeps strategy Q (and_then x f)
Keeps-and_then strategy P Q (ok a, r) f h k = k a r h.0 h.1
Keeps-and_then strategy P Q (err e, r) f h k = (h.0, tt)
Keeps-and_then strategy P Q (panic, r) f h k = (h.0, tt)

Authoritative : ConflictStrategy → Conflict → Bytes → Type 0
Authoritative strategy conflict value =
    strategy ≡ ConflictStrategy.server_authoritative → value ≡ conflict.server_value

IfOk-all : {A : Type 0} (P : A → Type 0) (r : Result A) → ((a : A) → P a) → IfOk P r
IfOk-all P (ok a) h = h a
IfOk-all P (err e) h = tt
IfOk-all P panic h = tt

choose-Authoritative :
    (strategy : ConflictStrategy) (merge : Option (Conflict → Result Bytes)) (conflict : Conflict)
    → IfOk (Authoritative strategy conflict) (choose strategy merge conflict)
unfolding choose Authoritative
choose-Authoritative ConflictStrategy.server_authoritative merge conflict = λ e. refl
choose-Authoritative ConflictStrategy.last_write_wins merge conflict = λ e. absurd cc
choose-Authoritative ConflictStrategy.custom_merge merge conflict =
    IfOk-all _ (merge_with merge conflict) (λ value e. absurd cc)

logged-Keeps :
    (conflict : Conflict) (r : ConflictResolver) (log : Result (List Conflict))
    → Keeps r.strategy (Authoritative r.strategy conflict) (logged conflict r log)
unfolding logged
logged-Keeps conflict r (ok conflicts) =
    (refl, choose-Authoritative r.strategy r.custom_merge conflict)
logged-Keeps conflict r (err e) = (refl, tt)
logged-Keeps conflict r panic = (refl, tt)

IfSome : {A : Type 0} → (A → Type 0) → Option A → Type 0
IfSome P none = Unit {0}
IfSome P (some a) = P a

settled-Keeps :
    (strategy : ConflictStrategy) (P : Bytes → Type 0) (Q : DeltaOp → Type 0)
    (op : Bytes → Option DeltaOp) (x : Result Bytes × ConflictResolver)
    → Keeps strategy P x
    → ((value : Bytes) → P value → IfSome Q (op value))
    → Keeps strategy (IfSome Q) (settled op x)
unfolding settled
settled-Keeps strategy P Q op (ok value, r) h k = (h.0, k value h.1)
settled-Keeps strategy P Q op (err e, r) h k = (h.0, tt)
settled-Keeps strategy P Q op (panic, r) h k = (h.0, tt)

abbrev Sound : ConflictStrategy → Server → Result (Option DeltaOp) × ConflictResolver → Type 0
Sound strategy server = Keeps strategy (IfSome (Current strategy server))

authority :
    (strategy : ConflictStrategy) (conflict : Conflict) {value : Bytes}
    → Authoritative strategy conflict value
    → strategy ≡ ConflictStrategy.server_authoritative
    → value ≡ conflict.server_value
unfolding Authoritative
authority strategy conflict h s = h s

deletion_lem :
    (keeps : Bool) (strategy : ConflictStrategy) (server : Server) (t e : ℕ) (current : Bytes)
    → server t e ≡ some current
    → IfSome (Current strategy server) (if keeps then none else some (DeltaOp.delete t e current))
unfolding IfSome
deletion_lem true strategy server t e current h = tt
deletion_lem false strategy server t e current h = λ v k. some-injective (sym h ∙ k)

-- The record that an operation names is the server's.
same : (o : Option Bytes) (a b v : Bytes) → o ≡ some a → equal_bytes a b ≡ true → o ≡ some v → b ≡ v
same o a b v h e k = sym (equal_bytes-equal a b e) ∙ some-injective (sym h ∙ k)

resolve_insert-Sound :
    (incoming : Incoming) (server : Server) (t e : ℕ) (b : Bytes) (o : Option Bytes)
    (r : ConflictResolver)
    → server t e ≡ o
    → Sound r.strategy server (resolve_insert incoming t e b o r)
unfolding resolve_insert resolve_conflict IfSome
resolve_insert-Sound incoming server t e b none r h =
    (refl, λ v k s. absurd (some≢none (sym k ∙ h)))
resolve_insert-Sound incoming server t e b (some current) r h =
    settled-Keeps r.strategy _ _ _ _ (logged-Keeps _ r _)
      (λ value p v k s. authority _ _ p s ∙ some-injective (sym h ∙ k))

resolve_update-Sound :
    (incoming : Incoming) (server : Server) (t e n : ℕ) (old b : Bytes) (o : Option Bytes)
    (r : ConflictResolver)
    → server t e ≡ o
    → Sound r.strategy server (resolve_update incoming t e n old b o r)
unfolding resolve_update resolve_conflict IfSome
resolve_update-Sound incoming server t e n old b none r h =
    (refl, λ v k. absurd (some≢none (sym k ∙ h)))
resolve_update-Sound incoming server t e n old b (some current) r h =
    elim (Bool-cases (equal_bytes current old)) [
      | inl q ↦ rw q (refl, λ v k. same (server t e) current old v h q k)
      | inr q ↦ rw q (
          settled-Keeps r.strategy _ _ _ _ (logged-Keeps _ r _)
            (λ value p v k. some-injective (sym h ∙ k)))
    ]

resolve_delete-Sound :
    (incoming : Incoming) (server : Server) (t e : ℕ) (old : Bytes) (o : Option Bytes)
    (r : ConflictResolver)
    → server t e ≡ o
    → Sound r.strategy server (resolve_delete incoming t e old o r)
unfolding resolve_delete resolve_conflict IfSome
resolve_delete-Sound incoming server t e old none r h =
    (refl, λ v k. absurd (some≢none (sym k ∙ h)))
resolve_delete-Sound incoming server t e old (some current) r h =
    elim (Bool-cases (equal_bytes current old)) [
      | inl q ↦ rw q (refl, λ v k. same (server t e) current old v h q k)
      | inr q ↦ rw q (
          settled-Keeps r.strategy _ _ _ _ (logged-Keeps _ r _)
            (λ value p. deletion_lem (keeps_server r.strategy) r.strategy server t e current h))
    ]

resolve_op-Sound :
    (incoming : Incoming) (server : Server) (op : DeltaOp) (r : ConflictResolver)
    → Sound r.strategy server (resolve_op incoming server op r)
unfolding resolve_op IfSome
resolve_op-Sound incoming server (DeltaOp.insert t e b) r =
    resolve_insert-Sound incoming server t e b (server t e) r refl
resolve_op-Sound incoming server (DeltaOp.update t e n old b) r =
    resolve_update-Sound incoming server t e n old b (server t e) r refl
resolve_op-Sound incoming server (DeltaOp.delete t e old) r =
    resolve_delete-Sound incoming server t e old (server t e) r refl
resolve_op-Sound incoming server (DeltaOp.create_entity e) r = (refl, tt)
resolve_op-Sound incoming server (DeltaOp.delete_entity e) r = (refl, tt)

push-All :
    (P : DeltaOp → Type 0) (ops : List DeltaOp) (o : Option DeltaOp)
    → All P ops
    → IfSome P o
    → All P (push ops o)
unfolding IfSome
push-All P ops none h p = h
push-All P [] (some op) h p = (p, tt)
push-All P (x ∷ ops) (some op) h p = (h.0, push-All P ops (some op) h.1 p)

resolve_ops-Current :
    (incoming : Incoming) (server : Server) (strategy : ConflictStrategy)
    (ops resolved : List DeltaOp) (r : ConflictResolver)
    → r.strategy ≡ strategy
    → All (Current strategy server) resolved
    → Keeps strategy (All (Current strategy server)) (resolve_ops incoming server ops resolved r)
unfolding resolve_ops
resolve_ops-Current incoming server strategy [] resolved r e h = (e, h)
resolve_ops-Current incoming server strategy (op ∷ ops) resolved r e h =
    Keeps-and_then strategy (IfSome (Current strategy server)) _ (resolve_op incoming server op r) _
      (subst (λ s. Sound s server (resolve_op incoming server op r)) e
        (resolve_op-Sound incoming server op r))
      (λ o after k p.
        resolve_ops-Current incoming server strategy ops (push resolved o) after k
          (push-All (Current strategy server) resolved o h p))

-- Each operation of a resolved delta rests on what the server has: an update or a deletion of a
-- record names the server's bytes as the old ones, whatever the client's copy was, and under the
-- server's authority an insertion over a record writes the bytes that are there. The strategy
-- stays as it was.
pub resolve-Current :
    (server_version server_timestamp : ℕ) (client_delta : Delta) (server : Server)
    (r : ConflictResolver)
    → let (result, after) = resolve server_version server_timestamp client_delta server r in
      (after.strategy ≡ r.strategy)
      × IfOk (λ (d : Delta). All (Current r.strategy server) d.ops) result
unfolding resolve
resolve-Current server_version server_timestamp client_delta server r =
    let incoming : Incoming = record {
      server_version = server_version;
      client_version = client_delta.version;
      timestamp = client_delta.timestamp;
    } in
    let known = resolve_ops-Current incoming server r.strategy client_delta.ops [] r refl tt in
    (
      known.0,
      IfOk-bind (All (Current r.strategy server)) _
          (resolve_ops incoming server client_delta.ops [] r).0 _ known.1 (λ ops h. h),
    )
