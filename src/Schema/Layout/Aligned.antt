-- ===== src/Schema/Layout/Aligned.antt =====
-- ecsdb/src/storage/layout.rs: where the fields of a record lie, and the size of the whole.
use rodengine.Common.{
  ℕ, zero, suc, ◌+◌, ◌%◌, ◌^◌, ◌≤◌, ◌<◌, max, ◌≡◌, refl, sym, ap, subst, ◌∙◌, inl, inr, String,
  List, [], ◌∷◌, ◌++◌, All, map, append-nil, append_assoc, arith,
}
use rodengine.Error.{Result, ok, ok_or, IfOk, IfOk-bind, IfOk-then, IfOk-ok}
use rodengine.Schema.Types.{FieldType, FieldDefinition, get_named}
use rodengine.Schema.Layout.Tiling.{
  IsAlignment, padding-Padded, IsAlignment-max, Tiled, Tiled-append, Tiled-weaken, Tiled-divided,
  extent, extent-append,
}
use rodengine.Schema.Layout.{
  FieldLayout, RecordLayout, Layouting, padding, place_field, finish, measure, place_fields,
  layout_with, named_size, compute_record_layout, compute_field_size_and_alignment,
}

abbrev Sound : (ℕ × ℕ) → Type 0
Sound m = IsAlignment m.1

-- The record, with the padding at its end, is shorter than 2 ^ 64 bytes.
abbrev pub Fits : RecordLayout → Type 0
Fits r = extent 0 r.fields + padding r.alignment (extent 0 r.fields) < 2 ^ 64

-- The field has the size and alignment of its type.
abbrev pub Measured : (FieldType → Result (ℕ × ℕ)) → FieldLayout → Type 0
Measured measured l = measured l.definition.field_type ≡ ok (l.size, l.alignment)

-- The state of the loop after the fields `definitions`. The offsets are right while they fit.
record Laid (measured : FieldType → Result (ℕ × ℕ)) (s : Layouting)
    (definitions : List FieldDefinition) : Type 0 where
  pub tiled :
      extent 0 s.field_layouts < 2 ^ 64
      → Tiled s.max_alignment 0 s.field_layouts s.current_offset
        × (s.current_offset ≡ extent 0 s.field_layouts)
  pub power : IsAlignment s.max_alignment
  pub complete : map (λ (l : FieldLayout). l.definition) s.field_layouts ≡ definitions
  pub measures : All (Measured measured) s.field_layouts

All-append-one :
    (P : FieldLayout → Type 0) (ls : List FieldLayout) (l : FieldLayout)
    → All P ls
    → P l
    → All P (ls ++ l ∷ [])
All-append-one P [] l h k = (k, tt)
All-append-one P (x ∷ ls) l (p, h) k = (p, All-append-one P ls l h k)

map-append :
    {A B : Type 0} (f : A → B) (xs : List A) (y : A) → map f (xs ++ y ∷ []) ≡ map f xs ++ f y ∷ []
map-append f [] y = refl
map-append f (x ∷ xs) y = ap (◌∷◌ (f x)) (map-append f xs y)

-- The next field lies behind the others.
place_field-Tiled :
    (s : Layouting) (l : FieldLayout)
    → IsAlignment l.alignment
    → l.offset ≡ (s.current_offset + padding l.alignment s.current_offset) % 2 ^ 64
    → (extent 0 s.field_layouts < 2 ^ 64
        → Tiled s.max_alignment 0 s.field_layouts s.current_offset
          × (s.current_offset ≡ extent 0 s.field_layouts))
    → extent 0 (s.field_layouts ++ l ∷ []) < 2 ^ 64
    → Tiled
        (max s.max_alignment l.alignment)
        0
        (s.field_layouts ++ l ∷ [])
        ((l.offset + l.size) % 2 ^ 64)
      × ((l.offset + l.size) % 2 ^ 64 ≡ extent 0 (s.field_layouts ++ l ∷ []))
place_field-Tiled s l p at h fits =
    let grown = extent-append 0 s.field_layouts l in
    let (tiled, ends) = h (omega (arith, grown, fits)) in
    let here : s.current_offset + padding l.alignment s.current_offset + l.size
        ≡ extent 0 (s.field_layouts ++ l ∷ []) =
      ap (λ n. n + padding l.alignment n + l.size) ends ∙ sym grown in
    let padded = padding-Padded l.alignment s.current_offset p in
    let exact : l.offset ≡ s.current_offset + padding l.alignment s.current_offset =
      omega (arith, at, here, fits) in
    let stops : l.offset + l.size ≡ (l.offset + l.size) % 2 ^ 64 =
      omega (arith, exact, here, fits) in
    (
      subst (Tiled (max s.max_alignment l.alignment) 0 (s.field_layouts ++ l ∷ [])) stops (
          Tiled-append _ 0 s.current_offset s.field_layouts l
            (Tiled-weaken s.max_alignment _ 0 s.current_offset s.field_layouts (omega arith) tiled)
            (record {
              after = omega (arith, exact);
              close = omega (arith, exact, padded.1);
              aligned = subst (λ n. n % l.alignment ≡ 0) (sym exact) padded.0;
              power = p;
              within = omega arith;
            })),
      omega (arith, exact, here, fits),
    )

place_field-Laid :
    (measured : FieldType → Result (ℕ × ℕ)) (field : FieldDefinition) (m : ℕ × ℕ) (s : Layouting)
    (definitions : List FieldDefinition)
    → measured field.field_type ≡ ok m
    → Sound m
    → Laid measured s definitions
    → Laid measured (place_field field m s) (definitions ++ field ∷ [])
unfolding place_field
place_field-Laid measured field (size, alignment) s definitions e p h = record {
  tiled = place_field-Tiled s _ p refl h.tiled;
  power = IsAlignment-max s.max_alignment alignment h.power p;
  complete = map-append _ s.field_layouts _ ∙ ap (λ ds. ds ++ field ∷ []) h.complete;
  measures = All-append-one _ s.field_layouts _ h.measures e;
}

module _ (named : String → Result (ℕ × ℕ)) (sound : (name : String) → IfOk Sound (named name)) where
  measure-Sound : (t : FieldType) → IfOk Sound (measure named t)
  unfolding measure
  measure-Sound FieldType.u8 = inl refl
  measure-Sound FieldType.i8 = inl refl
  measure-Sound FieldType.bool = inl refl
  measure-Sound FieldType.u16 = inr (inl refl)
  measure-Sound FieldType.i16 = inr (inl refl)
  measure-Sound FieldType.u32 = inr (inr (inl refl))
  measure-Sound FieldType.i32 = inr (inr (inl refl))
  measure-Sound FieldType.f32 = inr (inr (inl refl))
  measure-Sound (FieldType.enum name) = inr (inr (inl refl))
  measure-Sound FieldType.u64 = inr (inr (inr refl))
  measure-Sound FieldType.i64 = inr (inr (inr refl))
  measure-Sound FieldType.f64 = inr (inr (inr refl))
  measure-Sound (FieldType.array t length) =
      IfOk-bind Sound Sound (measure named t) _ (measure-Sound t) (λ m p. p)
  measure-Sound (FieldType.struct name) = sound name
  measure-Sound (FieldType.custom name) = sound name

  place_fields-Laid :
      (fields : List FieldDefinition) (s : Layouting) (definitions : List FieldDefinition)
      → Laid (measure named) s definitions
      → IfOk (λ t. Laid (measure named) t (definitions ++ fields)) (place_fields named fields s)
  unfolding place_fields
  place_fields-Laid [] s definitions h =
      subst (Laid (measure named) s) (sym (append-nil definitions)) h
  place_fields-Laid (field ∷ fields) s definitions h =
      IfOk-then _ (measure named field.field_type) _ (λ m e.
        subst
          (λ ds.
            IfOk (λ t. Laid (measure named) t ds)
              (place_fields named fields (place_field field m s)))
          (append_assoc definitions (field ∷ []) fields)
          (place_fields-Laid fields _ _ (
            place_field-Laid (measure named) field m s definitions e
              (IfOk-ok Sound (measure named field.field_type) m (measure-Sound field.field_type) e)
              h)))

-- A layout without overlaps or needless gaps.
pub record WellLaid (measured : FieldType → Result (ℕ × ℕ)) (fields : List FieldDefinition)
    (r : RecordLayout) : Type 0 where
  pub stop : ℕ
  pub tiled : Tiled r.alignment 0 r.fields stop
  pub fits : stop ≤ r.total_size
  pub trailing : r.total_size < stop + r.alignment
  pub divided : All (λ (l : FieldLayout). r.total_size % l.alignment ≡ 0) r.fields
  pub complete : map (λ (l : FieldLayout). l.definition) r.fields ≡ fields
  pub measures : All (Measured measured) r.fields

-- What holds of every layout.
abbrev pub Layout : (FieldType → Result (ℕ × ℕ)) → List FieldDefinition → RecordLayout → Type 0
Layout measured fields r = IsAlignment r.alignment × (Fits r → WellLaid measured fields r)

finish-Layout :
    (measured : FieldType → Result (ℕ × ℕ)) (s : Layouting) (fields : List FieldDefinition)
    → Laid measured s fields
    → Layout measured fields (finish s)
unfolding finish
finish-Layout measured s fields h = (
  h.power,
  λ fits.
      let (tiled, ends) = h.tiled (omega (arith, fits)) in
      let padded = padding-Padded s.max_alignment s.current_offset h.power in
      let room : s.current_offset + padding s.max_alignment s.current_offset < 2 ^ 64 =
        subst (λ n. n + padding s.max_alignment n < 2 ^ 64) (sym ends) fits in
      let total : (s.current_offset + padding s.max_alignment s.current_offset) % 2 ^ 64
          ≡ s.current_offset + padding s.max_alignment s.current_offset =
        omega (arith, room) in
      record {
        stop = s.current_offset;
        tiled = tiled;
        fits = omega (arith, total);
        trailing = omega (arith, total, padded.1);
        divided =
            Tiled-divided s.max_alignment 0 s.current_offset _ s.field_layouts h.power tiled
              (subst (λ n. n % s.max_alignment ≡ 0) (sym total) padded.0);
        complete = h.complete;
        measures = h.measures;
      },
)

layout_with-Layout :
    (named : String → Result (ℕ × ℕ)) (fields : List FieldDefinition)
    → ((name : String) → IfOk Sound (named name))
    → IfOk (Layout (measure named) fields) (layout_with named fields)
unfolding layout_with
layout_with-Layout named fields sound =
    IfOk-bind (λ s. Laid (measure named) s fields) (Layout (measure named) fields)
      (place_fields named fields _) _
      (place_fields-Laid named sound fields _ []
        (record { tiled = λ fits. (refl, refl); power = inl refl; complete = refl; measures = tt }))
      (λ s h. finish-Layout (measure named) s fields h)

named_size-Sound :
    (fuel : ℕ) (types : List (String × List FieldDefinition)) (name : String)
    → IfOk Sound (named_size fuel types name)
unfolding named_size
named_size-Sound zero types name = tt
named_size-Sound (suc fuel) types name =
    IfOk-then Sound (ok_or (get_named types name) _) _ (λ fields e.
      IfOk-bind _ Sound (layout_with (named_size fuel types) fields) _
        (layout_with-Layout (named_size fuel types) fields (named_size-Sound fuel types))
        (λ r h. h.0))

-- If the fields of a layout that `compute_record_layout` returns, placed one after another, each
-- behind the padding that it needs, and the padding at the end take fewer than 2 ^ 64 bytes, then the
-- layout has the given fields, each with the size and the alignment that
-- `compute_field_size_and_alignment` computes for its type (the size of an array may have wrapped
-- there). They lie one after another, each at a multiple of its alignment, with less padding before
-- it than that alignment, so that no two overlap. All end within the total size, which is a multiple
-- of every field's alignment, with less padding at the end than the record's own alignment.
pub compute_record_layout-WellLaid :
    (fuel : ℕ) (fields : List FieldDefinition) (types : List (String × List FieldDefinition))
    (r : RecordLayout)
    → compute_record_layout fuel fields types ≡ ok r
    → Fits r
    → WellLaid (λ t. compute_field_size_and_alignment fuel t types) fields r
unfolding compute_record_layout compute_field_size_and_alignment
compute_record_layout-WellLaid fuel fields types r h fits =
    (IfOk-ok (Layout (measure (named_size fuel types)) fields)
        (layout_with (named_size fuel types) fields) r
        (layout_with-Layout (named_size fuel types) fields (named_size-Sound fuel types)) h).1
      fits
