-- ===== src/Error.antt =====
-- ecsdb/src/error.rs: the errors, and results that may also be a panic.
use rodengine.Common.{
  ◌≡◌, ◌⊎◌, inl, inr, ◌≢◌, refl, subst, ℕ, String, Option, none, some, Bool, true, false,
}

-- What the text of a `SchemaError` says, with the values that it formats.
pub data SchemaReason : Type 0 where
  record_size_mismatch : ℕ → ℕ → SchemaReason
  serialized_size_mismatch : ℕ → ℕ → SchemaReason
  offset_out_of_bounds : SchemaReason
  buffer_not_multiple : ℕ → ℕ → SchemaReason
  foreign_key_too_short : SchemaReason
  unresolved_type : SchemaReason
  table_not_found : ℕ → SchemaReason
  custom_type_not_found : String → SchemaReason
  unknown_table : String → String → String → SchemaReason
  unknown_field : String → String → String → String → SchemaReason
  not_primary_key : String → String → SchemaReason
  -- Without the two types, which the text prints as well.
  type_mismatch : String → String → String → SchemaReason
  no_primary_key : String → SchemaReason
  empty_array : String → String → SchemaReason
  reserved_table : String → SchemaReason
  reserved_field : String → String → SchemaReason
  duplicate_table : String → SchemaReason
  duplicate_field : String → String → SchemaReason

-- The field `component_type`: the name of the Rust type, or the text `table_id=N`.
pub data ComponentType : Type 0 where
  type_name : ComponentType
  of_table : ℕ → ComponentType

-- The two texts of a `ReferentialIntegrityViolation`, with the entity that they name.
pub data IntegrityReason : Type 0 where
  still_has_components : ℕ → IntegrityReason
  references_missing_entity : ℕ → IntegrityReason

pub data EcsDbError : Type 0 where
  entity_not_found : ℕ → EcsDbError
  component_not_found : ℕ → ComponentType → EcsDbError
  schema_error : SchemaReason → EcsDbError
  referential_integrity_violation : IntegrityReason → EcsDbError
  serialization_error io_error : EcsDbError
  wal_error : String → EcsDbError
  replication_error : String → EcsDbError
  compression_error : EcsDbError
  snapshot_error : ℕ → EcsDbError
  -- The `SnapshotError` of `from_snapshot` names the table.
  snapshot_table_not_found : String → EcsDbError
  -- Two more texts of a `SnapshotError`: the sizes that differ, and the entity and its table.
  snapshot_size_mismatch snapshot_entity_not_found : ℕ → ℕ → EcsDbError
  channel_closed timeout : EcsDbError

-- `Result<A>`; `panic` is a panic of the running thread.
pub data Result {ℓ} (A : Type ℓ) : Type ℓ where
  ok : A → Result A
  err : EcsDbError → Result A
  panic : Result A

infixl 5 ◌>>=◌ ◌>>◌
-- The operator `?`.
abbrev pub ◌>>=◌ {ℓ κ} : {A : Type ℓ} {B : Type κ} → Result A → (A → Result B) → Result B
ok a >>= f = f a
err e >>= f = err e
panic >>= f = panic

abbrev pub ◌>>◌ {ℓ κ} : {A : Type ℓ} {B : Type κ} → Result A → Result B → Result B
m >> k = m >>= λ _. k

-- `option.ok_or(e)`
abbrev pub ok_or {ℓ} : {A : Type ℓ} → Option A → EcsDbError → Result A
ok_or none e = err e
ok_or (some a) e = ok a

abbrev pub is_ok {ℓ} : {A : Type ℓ} → Result A → Bool
is_ok (ok a) = true
is_ok (err e) = false
is_ok panic = false

pub ok-injective {ℓ} : {A : Type ℓ} {a b : A} → ok a ≡ ok b → a ≡ b
ok-injective h = cc

-- What holds of the value of a result, if it has one.
abbrev pub IfOk {ℓ} : {A : Type ℓ} → (A → Type 0) → Result A → Type 0
IfOk P (ok a) = P a
IfOk P (err e) = Unit {0}
IfOk P panic = Unit {0}

pub IfOk-bind {ℓ κ} :
    {A : Type ℓ} {B : Type κ} (P : A → Type 0) (Q : B → Type 0) (m : Result A) (f : A → Result B)
    → IfOk P m
    → ((a : A) → P a → IfOk Q (f a))
    → IfOk Q (m >>= f)
IfOk-bind P Q (ok a) f p h = h a p
IfOk-bind P Q (err e) f p h = tt
IfOk-bind P Q panic f p h = tt

-- The value of the first step does not count.
pub IfOk-then {ℓ κ} :
    {A : Type ℓ} {B : Type κ} (Q : B → Type 0) (m : Result A) (f : A → Result B)
    → ((a : A) → m ≡ ok a → IfOk Q (f a))
    → IfOk Q (m >>= f)
IfOk-then Q (ok a) f h = h a refl
IfOk-then Q (err e) f h = tt
IfOk-then Q panic f h = tt

pub IfOk-map {ℓ} :
    {A : Type ℓ} (P Q : A → Type 0) (m : Result A) → IfOk P m → ((a : A) → P a → Q a) → IfOk Q m
IfOk-map P Q (ok a) p h = h a p
IfOk-map P Q (err e) p h = tt
IfOk-map P Q panic p h = tt

pub IfOk-ok {ℓ} : {A : Type ℓ} (P : A → Type 0) (m : Result A) (a : A) → IfOk P m → m ≡ ok a → P a
IfOk-ok P m a p h = subst (IfOk P) h p

pub ok≢err {ℓ} : {A : Type ℓ} {a : A} {e : EcsDbError} → ok a ≢ err e
ok≢err h = cc

pub ok≢panic {ℓ} : {A : Type ℓ} {a : A} → ok a ≢ panic
ok≢panic h = cc

pub ok_or-ok {ℓ} :
    {A : Type ℓ} (o : Option A) (e : EcsDbError) (a : A) → ok_or o e ≡ ok a → o ≡ some a
ok_or-ok none e a h = cc
ok_or-ok (some b) e a h = cc

pub Result-cases {ℓ} :
    {A : Type ℓ} (r : Result A)
    → ((a : A) × (r ≡ ok a)) ⊎ (((e : EcsDbError) × (r ≡ err e)) ⊎ (r ≡ panic))
Result-cases (ok a) = inl (a, refl)
Result-cases (err e) = inr (inl (e, refl))
Result-cases panic = inr (inr refl)
