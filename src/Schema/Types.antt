-- ===== src/Schema/Types.antt =====
-- ecsdb/src/schema/types.rs: the types of fields, and the definitions of tables.
use text.Mathlib.Text.{◌==◌ as str_eq}
use rodengine.Common.{
  ℕ, ◌*◌, ◌%◌, ◌^◌, String, Bool, Option, none, some, List, [], ◌∷◌, if◌then◌else◌,
}
use rodengine.Error.{Result, ok, err, ◌>>=◌, schema_error, SchemaReason}

pub data FieldType : Type 0 where
  u8 u16 u32 u64 i8 i16 i32 i64 f32 f64 bool : FieldType
  array : FieldType → ℕ → FieldType
  enum : String → FieldType
  struct : String → FieldType
  custom : String → FieldType

unfoldable pub size_bytes : FieldType → Result ℕ
size_bytes u8 = ok 1
size_bytes u16 = ok 2
size_bytes u32 = ok 4
size_bytes u64 = ok 8
size_bytes i8 = ok 1
size_bytes i16 = ok 2
size_bytes i32 = ok 4
size_bytes i64 = ok 8
size_bytes f32 = ok 4
size_bytes f64 = ok 8
size_bytes bool = ok 1
size_bytes (array element_type length) =
    size_bytes element_type >>= λ elem_size. ok ((elem_size * length) % 2 ^ 64)
size_bytes (enum name) = ok 4
size_bytes (struct name) = err (schema_error SchemaReason.unresolved_type)
size_bytes (custom name) = err (schema_error SchemaReason.unresolved_type)

unfoldable pub alignment : FieldType → ℕ
alignment u8 = 1
alignment i8 = 1
alignment bool = 1
alignment u16 = 2
alignment i16 = 2
alignment u32 = 4
alignment i32 = 4
alignment f32 = 4
alignment (enum name) = 4
alignment u64 = 8
alignment i64 = 8
alignment f64 = 8
alignment (array element_type length) = alignment element_type
alignment (struct name) = 8
alignment (custom name) = 8

pub record FieldDefinition : Type 0 where
  pub name : String
  pub field_type : FieldType
  pub nullable : Bool
  pub indexed : Bool
  pub primary_key : Bool
  pub foreign_key : Option String

pub record TableDefinition : Type 0 where
  pub name : String
  pub fields : List FieldDefinition
  pub parent_table : Option String
  pub description : Option String

pub record DatabaseSchema : Type 0 where
  pub name : String
  pub version : String
  pub tables : List TableDefinition
  pub enums : List (String × List String)
  pub custom_types : List (String × List FieldDefinition)

unfoldable pub find_by_name : List TableDefinition → String → Option TableDefinition
find_by_name [] name = none
find_by_name (t ∷ tables) name = if str_eq t.name name then some t else find_by_name tables name

unfoldable pub find_table : DatabaseSchema → String → Option TableDefinition
find_table s name = find_by_name s.tables name

-- `map.get(name)` of a `HashMap<String, V>`, an association list.
unfoldable pub get_named : {V : Type 0} → List (String × V) → String → Option V
get_named [] name = none
get_named ((key, v) ∷ m) name = if str_eq key name then some v else get_named m name
