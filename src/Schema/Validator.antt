-- ===== src/Schema/Validator.antt =====
-- ecsdb/src/schema/validator.rs: the checks of a schema.
pub mod Accepts
pub mod Steps
use text.Mathlib.Text.{◌==◌ as str_eq, find?}
use Prim.Native.String.{slice, len}
use rodengine.Common.{
  ℕ, ◌+◌, ◌==◌, String, Bool, true, false, ◌&&◌, ◌||◌, not, Option, none, some, List, [], ◌∷◌, map,
  if◌then◌else◌, ◌≡◌, refl,
}
use rodengine.Error.{Result, ok, err, ◌>>=◌, ◌>>◌, ok_or, EcsDbError, schema_error, SchemaReason}
use rodengine.Schema.Types.{
  FieldType, FieldDefinition, TableDefinition, DatabaseSchema, find_by_name,
}

unfoldable pub are_types_compatible : FieldType → FieldType → Bool
are_types_compatible FieldType.u8 FieldType.u8 = true
are_types_compatible FieldType.u16 FieldType.u16 = true
are_types_compatible FieldType.u32 FieldType.u32 = true
are_types_compatible FieldType.u64 FieldType.u64 = true
are_types_compatible FieldType.i8 FieldType.i8 = true
are_types_compatible FieldType.i16 FieldType.i16 = true
are_types_compatible FieldType.i32 FieldType.i32 = true
are_types_compatible FieldType.i64 FieldType.i64 = true
are_types_compatible FieldType.f32 FieldType.f32 = true
are_types_compatible FieldType.f64 FieldType.f64 = true
are_types_compatible FieldType.bool FieldType.bool = true
are_types_compatible (FieldType.array a_elem a_len) (FieldType.array b_elem b_len) =
    a_len == b_len && are_types_compatible a_elem b_elem
are_types_compatible (FieldType.enum a_name) (FieldType.enum b_name) = str_eq a_name b_name
are_types_compatible (FieldType.struct a_name) (FieldType.struct b_name) = str_eq a_name b_name
are_types_compatible (FieldType.custom a_name) (FieldType.custom b_name) = str_eq a_name b_name
are_types_compatible a b = false

-- `text.split_once('.')`
unfoldable pub split_once : String → Option (String × String)
split_once text = elim (find? text ".") [
  | none ↦ none
  | some i ↦ some (slice text 0 i, slice text (i + 1) (len text))
]

unfoldable pub find_field : List FieldDefinition → String → Option FieldDefinition
find_field [] name = none
find_field (f ∷ fields) name = if str_eq f.name name then some f else find_field fields name

unfoldable pub any_primary_key : List FieldDefinition → Bool
any_primary_key [] = false
any_primary_key (f ∷ fields) = f.primary_key || any_primary_key fields

-- `if !condition { return Err(SchemaError(reason)) }`
unfoldable pub require : Bool → SchemaReason → Result (Unit {0})
require condition reason = if condition then ok tt else err (schema_error reason)

unfoldable pub for_each : {A : Type 0} → (A → Result (Unit {0})) → List A → Result (Unit {0})
for_each body [] = ok tt
for_each body (x ∷ xs) = body x >> for_each body xs

-- The reference to a field, `ref_table.ref_field`.
unfoldable pub check_field_reference :
    DatabaseSchema → TableDefinition → FieldDefinition → String → String → Result (Unit {0})
check_field_reference schema table field ref_table ref_field_name =
    ok_or (find_by_name schema.tables ref_table)
      (schema_error (SchemaReason.unknown_table ref_table table.name field.name))
    >>= λ referenced_table.
        ok_or (find_field referenced_table.fields ref_field_name)
          (schema_error (SchemaReason.unknown_field ref_table ref_field_name table.name field.name))
        >>= λ referenced_field.
            require referenced_field.primary_key
              (SchemaReason.not_primary_key ref_table ref_field_name)
            >> require (are_types_compatible field.field_type referenced_field.field_type)
                (SchemaReason.type_mismatch field.name ref_table ref_field_name)

unfoldable pub check_table_reference :
    DatabaseSchema → TableDefinition → FieldDefinition → String → Result (Unit {0})
check_table_reference schema table field ref_table =
    ok_or (find_by_name schema.tables ref_table)
      (schema_error (SchemaReason.unknown_table ref_table table.name field.name))
    >>= λ referenced_table.
        require (any_primary_key referenced_table.fields) (SchemaReason.no_primary_key ref_table)

-- The last argument is what `split_once` made of the foreign key `fk`.
unfoldable pub check_reference :
    DatabaseSchema
    → TableDefinition
    → FieldDefinition
    → String
    → Option (String × String)
    → Result (Unit {0})
check_reference schema table field fk none = check_table_reference schema table field fk
check_reference schema table field fk (some (tbl, fld)) =
    check_field_reference schema table field tbl fld

unfoldable pub check_foreign_key :
    DatabaseSchema → TableDefinition → FieldDefinition → Option String → Result (Unit {0})
check_foreign_key schema table field none = ok tt
check_foreign_key schema table field (some fk) =
    check_reference schema table field fk (split_once fk)

unfoldable pub check_foreign_keys : DatabaseSchema → Result (Unit {0})
check_foreign_keys schema =
    for_each
      (λ (table : TableDefinition).
        for_each
          (λ (field : FieldDefinition). check_foreign_key schema table field field.foreign_key)
          table.fields)
      schema.tables

unfoldable pub check_array_length :
    TableDefinition → FieldDefinition → FieldType → Result (Unit {0})
check_array_length table field (FieldType.array element_type length) =
    require (not (length == 0)) (SchemaReason.empty_array field.name table.name)
check_array_length table field field_type = ok tt

unfoldable pub check_field_alignment : DatabaseSchema → Result (Unit {0})
check_field_alignment schema =
    for_each
      (λ (table : TableDefinition).
        for_each (λ (field : FieldDefinition). check_array_length table field field.field_type)
          table.fields)
      schema.tables

abbrev pub reserved : List String
reserved = "id" ∷ "version" ∷ "entity_id" ∷ "table" ∷ "schema" ∷ "database" ∷ []

unfoldable pub contains_name : List String → String → Bool
contains_name [] name = false
contains_name (x ∷ names) name = str_eq x name || contains_name names name

unfoldable pub check_reserved_names : DatabaseSchema → Result (Unit {0})
check_reserved_names schema =
    for_each
      (λ (table : TableDefinition).
        require (not (contains_name reserved table.name)) (SchemaReason.reserved_table table.name)
        >> for_each
            (λ (field : FieldDefinition).
              require (not (contains_name reserved field.name))
                (SchemaReason.reserved_field field.name table.name))
            table.fields)
      schema.tables

-- The loop that adds each name to the set `seen`, and fails where it is there already.
unfoldable pub check_unique :
    (String → SchemaReason) → List String → List String → Result (Unit {0})
check_unique reason seen [] = ok tt
check_unique reason seen (name ∷ names) =
    require (not (contains_name seen name)) (reason name) >> check_unique reason (name ∷ seen) names

unfoldable pub check_table_names_unique : DatabaseSchema → Result (Unit {0})
check_table_names_unique schema =
    check_unique SchemaReason.duplicate_table []
      (map (λ (table : TableDefinition). table.name) schema.tables)

unfoldable pub check_field_names_unique : DatabaseSchema → Result (Unit {0})
check_field_names_unique schema =
    for_each
      (λ (table : TableDefinition).
        check_unique (λ name. SchemaReason.duplicate_field name table.name) []
          (map (λ (field : FieldDefinition). field.name) table.fields))
      schema.tables

unfoldable pub validate : DatabaseSchema → Result (Unit {0})
validate schema =
    check_foreign_keys schema
    >> check_field_alignment schema
    >> check_reserved_names schema
    >> check_table_names_unique schema
    >> check_field_names_unique schema
