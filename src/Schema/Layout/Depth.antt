-- ===== src/Schema/Layout/Depth.antt =====
-- ecsdb/src/storage/layout.rs: how deep the calls for nested types go, and types without a name.
use rodengine.Common.{
  ℕ, zero, suc, ◌*◌, ◌%◌, ◌^◌, ◌≤◌, ◌<◌, ◌≡◌, ◌≢◌, refl, sym, subst, ap, ◌∙◌, inl, inr, Option,
  none, some, String, List, [], ◌∷◌, All, arith,
}
use rodengine.Error.{
  Result, ok, err, panic, ◌>>=◌, ok_or, ok_or-ok, EcsDbError, Result-cases, ok-injective, ok≢err,
  ok≢panic,
}
use rodengine.Schema.Types.{FieldType, FieldDefinition, get_named, size_bytes}
use rodengine.Schema.Types
use rodengine.Schema.Layout.{
  Layouting, place_field, measure, place_fields, layout_with, named_size,
  compute_field_size_and_alignment, compute_record_layout,
}

-- The names that a type mentions have a rank below `n`.
abbrev pub Below : (String → ℕ) → ℕ → FieldType → Type 0
Below rank n (FieldType.array t length) = Below rank n t
Below rank n (FieldType.struct name) = rank name < n
Below rank n (FieldType.custom name) = rank name < n
Below rank n t = Unit {0}

abbrev pub AllBelow : (String → ℕ) → ℕ → List FieldDefinition → Type 0
AllBelow rank n = All (λ (f : FieldDefinition). Below rank n f.field_type)

-- The types form no cycle: the fields of each mention only types of a smaller rank.
abbrev pub Ranked : (String → ℕ) → List (String × List FieldDefinition) → Type 0
Ranked rank types =
    (name : String) (fields : List FieldDefinition)
    → get_named types name ≡ some fields
    → AllBelow rank (rank name) fields

-- Two results that are the same and no panic.
abbrev Settled {ℓ} : {A : Type ℓ} → Result A → Result A → Type ℓ
Settled r s = (r ≡ s) × (r ≢ panic)

Settled-ok {ℓ} : {A : Type ℓ} (a : A) → Settled (ok a) (ok a)
Settled-ok a = (refl, λ h. cc)

Settled-then {ℓ κ} :
    {A : Type ℓ} {B : Type κ} (r : Result A) (f g : A → Result B)
    → r ≢ panic
    → ((a : A) → r ≡ ok a → Settled (f a) (g a))
    → Settled (r >>= f) (r >>= g)
Settled-then (ok a) f g n h = h a refl
Settled-then (err e) f g n h = (refl, λ k. cc)
Settled-then panic f g n h = absurd (n refl)

Settled-bind {ℓ κ} :
    {A : Type ℓ} {B : Type κ} (r s : Result A) (f g : A → Result B)
    → Settled r s
    → ((a : A) → Settled (f a) (g a))
    → Settled (r >>= f) (s >>= g)
Settled-bind r s f g (e, n) h =
    subst (λ t. Settled (r >>= f) (t >>= g)) e (Settled-then r f g n (λ a k. h a))

module _ (rank : String → ℕ) (n : ℕ) (f g : String → Result (ℕ × ℕ))
    (settled : (name : String) → rank name < n → Settled (f name) (g name)) where
  measure-Settled : (t : FieldType) → Below rank n t → Settled (measure f t) (measure g t)
  unfolding measure
  measure-Settled FieldType.u8 h = Settled-ok _
  measure-Settled FieldType.i8 h = Settled-ok _
  measure-Settled FieldType.bool h = Settled-ok _
  measure-Settled FieldType.u16 h = Settled-ok _
  measure-Settled FieldType.i16 h = Settled-ok _
  measure-Settled FieldType.u32 h = Settled-ok _
  measure-Settled FieldType.i32 h = Settled-ok _
  measure-Settled FieldType.f32 h = Settled-ok _
  measure-Settled (FieldType.enum name) h = Settled-ok _
  measure-Settled FieldType.u64 h = Settled-ok _
  measure-Settled FieldType.i64 h = Settled-ok _
  measure-Settled FieldType.f64 h = Settled-ok _
  measure-Settled (FieldType.array t length) h =
      Settled-bind (measure f t) (measure g t) _ _ (measure-Settled t h) (λ m. Settled-ok _)
  measure-Settled (FieldType.struct name) h = settled name h
  measure-Settled (FieldType.custom name) h = settled name h

  place_fields-Settled :
      (fields : List FieldDefinition) (s : Layouting)
      → AllBelow rank n fields
      → Settled (place_fields f fields s) (place_fields g fields s)
  unfolding place_fields
  place_fields-Settled [] s h = Settled-ok s
  place_fields-Settled (field ∷ fields) s (p, h) =
      Settled-bind (measure f field.field_type) (measure g field.field_type) _ _
        (measure-Settled field.field_type p)
        (λ m. place_fields-Settled fields (place_field field m s) h)

  layout_with-Settled :
      (fields : List FieldDefinition)
      → AllBelow rank n fields
      → Settled (layout_with f fields) (layout_with g fields)
  unfolding layout_with
  layout_with-Settled fields h =
      Settled-bind (place_fields f fields _) (place_fields g fields _) _ _
        (place_fields-Settled fields _ h) (λ s. Settled-ok _)

ok_or-calm {ℓ} : {A : Type ℓ} (o : Option A) (e : EcsDbError) → ok_or o e ≢ panic
ok_or-calm none e h = cc
ok_or-calm (some a) e h = cc

named_size-Settled :
    (rank : String → ℕ) (types : List (String × List FieldDefinition))
    → Ranked rank types
    → (f g : ℕ) (name : String) → rank name < f
    → rank name < g
    → Settled (named_size f types name) (named_size g types name)
unfolding named_size
named_size-Settled rank types h zero g name p q = absurd (omega (arith, p))
named_size-Settled rank types h (suc f) zero name p q = absurd (omega (arith, q))
named_size-Settled rank types h (suc f) (suc g) name p q =
    Settled-then (ok_or (get_named types name) _) _ _ (ok_or-calm (get_named types name) _)
      (λ fields e.
        Settled-bind (layout_with (named_size f types) fields) _ _ _
          (layout_with-Settled rank (rank name) (named_size f types) (named_size g types)
            (λ other lt.
              named_size-Settled rank types h f g other (omega (arith, p, lt))
                (omega (arith, q, lt)))
            fields (h name fields (ok_or-ok (get_named types name) _ fields e)))
          (λ r. Settled-ok _))

-- Where the custom types form no cycle, so that a rank bounds how deep each is nested, and the
-- stack holds more calls than the rank of every type that the fields mention,
-- `compute_record_layout` ends without overflowing it, and a larger stack gives the same result.
pub compute_record_layout-ends :
    (rank : String → ℕ) (types : List (String × List FieldDefinition)) (n f g : ℕ)
    (fields : List FieldDefinition)
    → Ranked rank types
    → AllBelow rank n fields
    → n ≤ f
    → n ≤ g
    → (compute_record_layout f fields types ≡ compute_record_layout g fields types)
      × (compute_record_layout f fields types ≢ panic)
unfolding compute_record_layout
compute_record_layout-ends rank types n f g fields h below p q =
    layout_with-Settled rank n (named_size f types) (named_size g types)
      (λ name lt.
        named_size-Settled rank types h f g name (omega (arith, p, lt)) (omega (arith, q, lt)))
      fields below

-- A type whose first field has that type itself overflows the stack, however many calls it holds.
pub named_size-cyclic :
    (fuel : ℕ) (types : List (String × List FieldDefinition)) (name : String)
    (field : FieldDefinition) (fields : List FieldDefinition)
    → get_named types name ≡ some (field ∷ fields)
    → field.field_type ≡ FieldType.custom name
    → named_size fuel types name ≡ panic
unfolding named_size layout_with place_fields measure
named_size-cyclic zero types name field fields h k = refl
named_size-cyclic (suc fuel) types name field fields h k =
    rw (h, k, named_size-cyclic fuel types name field fields h k) refl

-- For a type whose size `size_bytes` returns, the layout takes that size and the type's
-- `alignment`, whatever the custom types are.
pub compute_field_size_and_alignment-size_bytes :
    (fuel : ℕ) (types : List (String × List FieldDefinition)) (t : FieldType) (n : ℕ)
    → size_bytes t ≡ ok n
    → compute_field_size_and_alignment fuel t types ≡ ok (n, Types.alignment t)
unfolding compute_field_size_and_alignment measure size_bytes Types.alignment
compute_field_size_and_alignment-size_bytes fuel types FieldType.u8 n h = cc
compute_field_size_and_alignment-size_bytes fuel types FieldType.i8 n h = cc
compute_field_size_and_alignment-size_bytes fuel types FieldType.bool n h = cc
compute_field_size_and_alignment-size_bytes fuel types FieldType.u16 n h = cc
compute_field_size_and_alignment-size_bytes fuel types FieldType.i16 n h = cc
compute_field_size_and_alignment-size_bytes fuel types FieldType.u32 n h = cc
compute_field_size_and_alignment-size_bytes fuel types FieldType.i32 n h = cc
compute_field_size_and_alignment-size_bytes fuel types FieldType.f32 n h = cc
compute_field_size_and_alignment-size_bytes fuel types (FieldType.enum name) n h = cc
compute_field_size_and_alignment-size_bytes fuel types FieldType.u64 n h = cc
compute_field_size_and_alignment-size_bytes fuel types FieldType.i64 n h = cc
compute_field_size_and_alignment-size_bytes fuel types FieldType.f64 n h = cc
compute_field_size_and_alignment-size_bytes fuel types (FieldType.array t length) n h =
    elim (Result-cases (size_bytes t)) [
      | inl (m, e) ↦
          let known : measure (named_size fuel types) t ≡ ok (m, Types.alignment t) =
            compute_field_size_and_alignment-size_bytes fuel types t m e in
          let size : (m * length) % 2 ^ 64 ≡ n =
            ok-injective (sym (ap (λ r. r >>= λ k. ok ((k * length) % 2 ^ 64)) e) ∙ h) in
          rw (known, size) refl
      | inr (inl (x, e)) ↦
          absurd (ok≢err (sym (sym (ap (λ r. r >>= λ k. ok ((k * length) % 2 ^ 64)) e) ∙ h)))
      | inr (inr e) ↦
          absurd (ok≢panic (sym (sym (ap (λ r. r >>= λ k. ok ((k * length) % 2 ^ 64)) e) ∙ h)))
    ]
compute_field_size_and_alignment-size_bytes fuel types (FieldType.struct name) n h = absurd cc
compute_field_size_and_alignment-size_bytes fuel types (FieldType.custom name) n h = absurd cc
