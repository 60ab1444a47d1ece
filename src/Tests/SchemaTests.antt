-- ===== src/Tests/SchemaTests.antt =====
-- The layout of a record with a nested type, and a schema with foreign keys.
use text.Mathlib.Text.{◌==◌ as str_eq}
use rodengine.Common.{
  ◌≡◌, ◌≢◌, refl, String, true, false, none, some, some-injective, List, [], ◌∷◌, sym, ap, subst,
  ◌∙◌, some≢none, if◌then◌else◌, Bool-cases, inl, inr, arith,
}
use rodengine.Error.{ok, panic}
use rodengine.Schema.Types.{FieldType, FieldDefinition, TableDefinition, DatabaseSchema, get_named}
use rodengine.Schema.Types
use rodengine.Schema.Layout.{
  RecordLayout, compute_record_layout, compute_field_size_and_alignment, layout_with, place_fields,
  place_field, padding, measure, named_size, finish,
}
use rodengine.Schema.Layout.Aligned.{WellLaid, compute_record_layout-WellLaid}
use rodengine.Schema.Layout.Depth.{
  Ranked, AllBelow, compute_record_layout-ends, compute_field_size_and_alignment-size_bytes,
}
use rodengine.Schema.Validator.{
  validate, check_foreign_keys, for_each, check_foreign_key, check_reference, split_once,
  check_field_reference, find_field, require, are_types_compatible, check_field_alignment,
  check_array_length, check_reserved_names, contains_name, check_table_names_unique, check_unique,
  check_field_names_unique,
}

abbrev field : String → FieldType → FieldDefinition
field name field_type = record {
  name = name;
  field_type = field_type;
  nullable = false;
  indexed = false;
  primary_key = true;
  foreign_key = none;
}

abbrev pair : List FieldDefinition
pair = field "x" FieldType.u8 ∷ field "y" FieldType.f64 ∷ []

abbrev types : List (String × List FieldDefinition)
types = ("pair", pair) ∷ []

abbrev fields : List FieldDefinition
fields =
    field "flag" FieldType.bool
    ∷ field "both" (FieldType.custom "pair")
    ∷ field "n" FieldType.u16
    ∷ []

abbrev layout : RecordLayout
layout = record {
  fields =
      record { definition = field "flag" FieldType.bool; offset = 0; size = 1; alignment = 1 }
      ∷ record {
        definition = field "both" (FieldType.custom "pair");
        offset = 8;
        size = 16;
        alignment = 8;
      }
      ∷ record { definition = field "n" FieldType.u16; offset = 24; size = 2; alignment = 2 }
      ∷ [];
  total_size = 32;
  alignment = 8;
}

fields_layout : compute_record_layout 1 fields types ≡ ok layout
unfolding compute_record_layout layout_with place_fields place_field padding measure named_size
    finish get_named
fields_layout = refl

compute_record_layout-WellLaid_example :
    WellLaid (λ t. compute_field_size_and_alignment 1 t types) fields layout
unfolding padding
compute_record_layout-WellLaid_example =
    compute_record_layout-WellLaid 1 fields types layout fields_layout (omega arith)

types-Ranked : Ranked (λ name. 0) types
unfolding get_named
types-Ranked name found e = elim (Bool-cases (str_eq "pair" name)) [
  | inl q ↦
      subst (AllBelow (λ n. 0) 0)
        (some-injective (sym (ap (λ b. if b then some pair else none) q) ∙ e)) (tt, (tt, tt))
  | inr q ↦ absurd (some≢none (sym e ∙ ap (λ b. if b then some pair else none) q))
]

compute_record_layout-ends_example :
    (compute_record_layout 1 fields types ≡ compute_record_layout 5 fields types)
    × (compute_record_layout 1 fields types ≢ panic)
compute_record_layout-ends_example =
    compute_record_layout-ends (λ name. 0) types 1 1 5 fields types-Ranked
      (tt, (omega arith, (tt, tt))) (omega arith) (omega arith)

compute_field_size_and_alignment-size_bytes_example :
    compute_field_size_and_alignment 0 (FieldType.array FieldType.u16 5) types ≡ ok (10, 2)
unfolding Types.alignment Types.size_bytes
compute_field_size_and_alignment-size_bytes_example =
    compute_field_size_and_alignment-size_bytes 0 types (FieldType.array FieldType.u16 5) 10 refl

-- Two tables, the second of which refers to a field of the first.
abbrev schema : DatabaseSchema
schema = record {
  name = "game";
  version = "1";
  tables =
      record {
        name = "player";
        fields = field "player_id" FieldType.u64 ∷ [];
        parent_table = none;
        description = none;
      }
      ∷ record {
        name = "score";
        fields =
            field "points" FieldType.u32
            ∷ record (field "owner" FieldType.u64) { foreign_key = some "player.player_id" }
            ∷ [];
        parent_table = none;
        description = none;
      }
      ∷ [];
  enums = [];
  custom_types = [];
}

schema_valid : validate schema ≡ ok tt
unfolding validate check_foreign_keys for_each check_foreign_key check_reference split_once
    check_field_reference Types.find_by_name find_field require are_types_compatible
    check_field_alignment check_array_length check_reserved_names contains_name
    check_table_names_unique check_unique check_field_names_unique
schema_valid = refl
