-- ===== src/Schema/Layout.antt =====
-- ecsdb/src/storage/layout.rs: offsets, sizes and alignments of the fields of a record. Sums and
-- products of `usize` wrap at 2 ^ 64, as they do without overflow checks.
pub mod Tiling
pub mod Aligned
pub mod Depth
use rodengine.Common.{ℕ, zero, suc, ◌+◌, ◌-◌, ◌*◌, ◌%◌, ◌^◌, max, String, List, [], ◌∷◌, ◌++◌}
use rodengine.Error.{Result, ok, panic, ◌>>=◌, ok_or, schema_error, SchemaReason}
use rodengine.Schema.Types.{FieldType, FieldDefinition, get_named}

pub record FieldLayout : Type 0 where
  pub definition : FieldDefinition
  pub offset : ℕ
  pub size : ℕ
  pub alignment : ℕ

pub record RecordLayout : Type 0 where
  pub fields : List FieldLayout
  pub total_size : ℕ
  pub alignment : ℕ

-- The variables of the loop of `compute_record_layout`.
pub record Layouting : Type 0 where
  pub field_layouts : List FieldLayout
  pub current_offset : ℕ
  pub max_alignment : ℕ

unfoldable pub padding : ℕ → ℕ → ℕ
padding alignment offset = (alignment - offset % alignment) % alignment

unfoldable pub place_field : FieldDefinition → ℕ × ℕ → Layouting → Layouting
place_field field (size, alignment) s =
    let offset = (s.current_offset + padding alignment s.current_offset) % 2 ^ 64 in
    record {
      field_layouts =
          s.field_layouts
          ++ record { definition = field; offset = offset; size = size; alignment = alignment }
            ∷ [];
      current_offset = (offset + size) % 2 ^ 64;
      max_alignment = max s.max_alignment alignment;
    }

unfoldable pub finish : Layouting → RecordLayout
finish s = record {
  fields = s.field_layouts;
  total_size = (s.current_offset + padding s.max_alignment s.current_offset) % 2 ^ 64;
  alignment = s.max_alignment;
}

-- The size and alignment of a named type are those that the first argument returns.
unfoldable pub measure : (String → Result (ℕ × ℕ)) → FieldType → Result (ℕ × ℕ)
measure named FieldType.u8 = ok (1, 1)
measure named FieldType.u16 = ok (2, 2)
measure named FieldType.u32 = ok (4, 4)
measure named FieldType.u64 = ok (8, 8)
measure named FieldType.i8 = ok (1, 1)
measure named FieldType.i16 = ok (2, 2)
measure named FieldType.i32 = ok (4, 4)
measure named FieldType.i64 = ok (8, 8)
measure named FieldType.f32 = ok (4, 4)
measure named FieldType.f64 = ok (8, 8)
measure named FieldType.bool = ok (1, 1)
measure named (FieldType.array element_type length) =
    measure named element_type >>= λ (elem_size, elem_alignment).
    ok ((elem_size * length) % 2 ^ 64, elem_alignment)
measure named (FieldType.enum name) = ok (4, 4)
measure named (FieldType.struct name) = named name
measure named (FieldType.custom name) = named name

unfoldable pub place_fields :
    (String → Result (ℕ × ℕ)) → List FieldDefinition → Layouting → Result Layouting
place_fields named [] s = ok s
place_fields named (field ∷ fields) s =
    measure named field.field_type >>= λ m. place_fields named fields (place_field field m s)

unfoldable pub layout_with : (String → Result (ℕ × ℕ)) → List FieldDefinition → Result RecordLayout
layout_with named fields =
    place_fields named fields (record { field_layouts = []; current_offset = 0; max_alignment = 1 })
    >>= λ s. ok (finish s)

-- The arm for `Struct` and `Custom`, where the fuel is the depth of the calls that the stack
-- holds: without any left, the stack overflows.
unfoldable pub named_size : ℕ → List (String × List FieldDefinition) → String → Result (ℕ × ℕ)
named_size zero custom_types name = panic
named_size (suc fuel) custom_types name =
    ok_or (get_named custom_types name) (schema_error (SchemaReason.custom_type_not_found name))
    >>= λ custom_fields.
        layout_with (named_size fuel custom_types) custom_fields >>= λ record_layout.
        ok (record_layout.total_size, record_layout.alignment)

unfoldable pub compute_field_size_and_alignment :
    ℕ → FieldType → List (String × List FieldDefinition) → Result (ℕ × ℕ)
compute_field_size_and_alignment fuel field_type custom_types =
    measure (named_size fuel custom_types) field_type

unfoldable pub compute_record_layout :
    ℕ → List FieldDefinition → List (String × List FieldDefinition) → Result RecordLayout
compute_record_layout fuel fields custom_types = layout_with (named_size fuel custom_types) fields
