-- ===== src/Schema/Validator/Accepts.antt =====
-- ecsdb/src/schema/validator.rs: the schemas that the validator accepts.
use rodengine.Common.{◌≡◌, ◌≢◌, String, true, Option, none, some, map, All}
use rodengine.Schema.Types.{
  FieldType, FieldDefinition, TableDefinition, DatabaseSchema, find_by_name,
}
use rodengine.Schema.Validator.{split_once, find_field, any_primary_key, reserved}
use rodengine.Schema.Validator.Steps.{NotIn, Distinct}

-- The table that a foreign key names, with what is known of it.
abbrev pub TableWith : DatabaseSchema → String → (TableDefinition → Type 0) → Type 0
TableWith schema name P = (t : TableDefinition) × (find_by_name schema.tables name ≡ some t) × P t

-- What a foreign key, cut at its first dot, must refer to: without a dot, a table that has a
-- primary key; otherwise a field of a table, which is a primary key and has the referring field's
-- type.
abbrev pub Refers : DatabaseSchema → FieldDefinition → String → Option (String × String) → Type 0
Refers schema field fk none = TableWith schema fk (λ t. any_primary_key t.fields ≡ true)
Refers schema field fk (some (tbl, fld)) = TableWith schema tbl (λ t.
    (f : FieldDefinition) × (find_field t.fields fld ≡ some f)
    × ((f.primary_key ≡ true) × (field.field_type ≡ f.field_type)))

abbrev pub Resolves : DatabaseSchema → FieldDefinition → Option String → Type 0
Resolves schema field none = Unit {0}
Resolves schema field (some fk) = Refers schema field fk (split_once fk)

-- The length of the type itself; arrays inside arrays and in custom types are not looked at.
abbrev pub NonEmptyArray : FieldType → Type 0
NonEmptyArray (FieldType.array t n) = n ≢ 0
NonEmptyArray t = Unit {0}

abbrev pub AllFields : (TableDefinition → FieldDefinition → Type 0) → DatabaseSchema → Type 0
AllFields P schema =
    All (λ (t : TableDefinition). All (λ (f : FieldDefinition). P t f) t.fields) schema.tables

pub record Valid (schema : DatabaseSchema) : Type 0 where
  pub references : AllFields (λ t f. Resolves schema f f.foreign_key) schema
  pub arrays : AllFields (λ t f. NonEmptyArray f.field_type) schema
  pub allowed :
      All
        (λ (t : TableDefinition).
          NotIn reserved t.name × All (λ (f : FieldDefinition). NotIn reserved f.name) t.fields)
        schema.tables
  pub tables_distinct : Distinct (map (λ (t : TableDefinition). t.name) schema.tables)
  pub fields_distinct :
      All
        (λ (t : TableDefinition). Distinct (map (λ (f : FieldDefinition). f.name) t.fields))
        schema.tables
