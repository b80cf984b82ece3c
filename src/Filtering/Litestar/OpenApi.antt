-- ===== src/Filtering/Litestar/OpenApi.antt =====
-- litestar_integration.py: the schemas that document a filter or a plain field. What Python shows of a
-- class, a number or a value is a parameter, as `json.dumps` is.
use api_template.Base.{
  ℕ, String, text_append, true, Option, none, some, List, [], ◌∷◌, map, all, if◌then◌else◌,
}
use api_template.Filtering.Values.{
  pos, int, float, decimal, Scalar, number, boolean, member, text, BaseType, numeric_type,
  boolean_type, date_type, datetime_type, string_type, item_type, enum_type, is_instance,
}
use api_template.Filtering.Specs.{FilterLookup, is_in, range, json, FilterSpec}
use api_template.Filtering.Litestar.Annotations.{
  Builtin, Annotation, builtin, enum_class, model, Fields, no_field, field, unwrap,
}

pub data OpenApiType : Type 0 where
  openapi_number openapi_integer openapi_boolean openapi_string : OpenApiType

pub record Schema : Type 0 where
  pub title : Option String
  pub kind : OpenApiType
  pub format : Option String
  pub description : Option String
  pub examples : Option (List String)
  pub enum : Option (List Scalar)
  pub exclusive_minimum : Option Scalar
  pub minimum : Option Scalar
  pub exclusive_maximum : Option Scalar
  pub maximum : Option Scalar
  pub min_length : Option ℕ
  pub max_length : Option ℕ

abbrev pub schema_of : OpenApiType → Option String → Schema
schema_of kind format = record {
  title = none;
  kind = kind;
  format = format;
  description = none;
  examples = none;
  enum = none;
  exclusive_minimum = none;
  minimum = none;
  exclusive_maximum = none;
  maximum = none;
  min_length = none;
  max_length = none;
}

-- `_PY_TO_OPENAPI.get(base, (OpenAPIType.STRING, None))`
unfoldable pub py_to_openapi : Builtin → Schema
py_to_openapi Builtin.decimal = schema_of openapi_number none
py_to_openapi Builtin.int = schema_of openapi_integer none
py_to_openapi Builtin.float = schema_of openapi_number none
py_to_openapi Builtin.bool = schema_of openapi_boolean none
py_to_openapi Builtin.date = schema_of openapi_string (some "date")
py_to_openapi Builtin.datetime = schema_of openapi_string (some "date-time")
py_to_openapi Builtin.str = schema_of openapi_string none
py_to_openapi Builtin.other_class = schema_of openapi_string none

-- `_JSON_PLACEHOLDERS.get(base, "value")`
unfoldable pub json_placeholder : Annotation → Scalar
json_placeholder (builtin Builtin.int) = number int (pos 1)
json_placeholder (builtin Builtin.decimal) = number int (pos 1)
json_placeholder (builtin Builtin.float) = number float (pos 1)
json_placeholder (builtin Builtin.bool) = boolean true
json_placeholder (builtin Builtin.date) = text "2026-01-31"
json_placeholder (builtin Builtin.datetime) = text "2026-01-31T12:00:00Z"
json_placeholder base = text "value"

-- `_to_number`; the numbers of filters are whole.
unfoldable pub to_number : Scalar → Scalar
to_number (number decimal n) = number int n
to_number a = a

-- `c.value if isinstance(c, Enum) else _to_number(c)`
unfoldable pub choice_value : Scalar → Scalar
unfolding to_number
choice_value (member enum n) = number int n
choice_value a = to_number a

unfoldable pub enum_schema : List Scalar → Schema
unfolding is_instance
enum_schema members =
    record (schema_of
      (if all (λ v. is_instance v (numeric_type int)) members
        then openapi_integer
        else openapi_string)
      none) { enum = some members }

-- What the code asks of Python: the classes of the item model and of an enumeration, the name of a
-- class, `str` of a number and of a value, and `json.dumps` of a list with one item.
pub record Python : Type 0 where
  pub item_model : Annotation
  pub enum_values : String → List Scalar
  pub class_name : BaseType → String
  pub str_number : ℕ → String
  pub str_scalar : Scalar → String
  pub dumps_one : List (String × Scalar) → String

unfoldable pub comma_separated : List String → String
comma_separated [] = ""
comma_separated (s ∷ []) = s
comma_separated (s ∷ t ∷ ss) = text_append s (text_append ", " (comma_separated (t ∷ ss)))

unfoldable pub placeholders : Fields → List (String × Scalar)
unfolding json_placeholder unwrap
placeholders no_field = []
placeholders (field name annotation fields) =
    (name, json_placeholder (unwrap annotation)) ∷ placeholders fields

abbrev pub range_examples : BaseType → List String
range_examples (numeric_type decimal) = "1500.10,3540.53" ∷ "34.98,41.40" ∷ []
range_examples (numeric_type float) = "1500.10,3540.53" ∷ "34.98,41.40" ∷ []
range_examples (numeric_type int) = "13,20" ∷ "50,1000" ∷ []
range_examples datetime_type = "2020-01-10T10:24:59,2024-03-15T21:23:59" ∷ []
range_examples date_type = "2020-01-10,2026-07-10" ∷ []
range_examples base = "<start>,<end>" ∷ []

unfoldable pub base_schema : Annotation → Schema
unfolding py_to_openapi
base_schema (builtin b) = py_to_openapi b
base_schema base = py_to_openapi Builtin.other_class

abbrev pub map_option : (Scalar → Scalar) → Option Scalar → Option Scalar
map_option f none = none
map_option f (some a) = some (f a)

unfoldable pub enum_of : Option (List Scalar) → Option (List Scalar)
unfolding choice_value
enum_of none = none
enum_of (some choices) = some (map choice_value choices)

module _ (python : Python) where
  -- The class that a spec's base type is.
  abbrev pub class_of : BaseType → Annotation
  class_of (numeric_type int) = builtin Builtin.int
  class_of (numeric_type float) = builtin Builtin.float
  class_of (numeric_type decimal) = builtin Builtin.decimal
  class_of boolean_type = builtin Builtin.bool
  class_of date_type = builtin Builtin.date
  class_of datetime_type = builtin Builtin.datetime
  class_of string_type = builtin Builtin.str
  class_of item_type = python.item_model
  class_of (enum_type enum) = enum_class (python.enum_values enum)

  -- `_json_example`
  unfoldable pub json_example : Annotation → String
  unfolding placeholders
  json_example (model fields) = python.dumps_one (placeholders fields)
  json_example base = python.dumps_one (("field", text "value") ∷ [])

  abbrev pub item_limit : Option ℕ → String
  item_limit none = ""
  item_limit (some n) = text_append " At most " (text_append (python.str_number n) " items.")

  unfoldable pub json_schema : FilterSpec → Schema
  unfolding json_example
  json_schema spec = record (schema_of openapi_string none) {
    examples = some (json_example (class_of spec.base_type) ∷ []);
    description = some (
        text_append "JSON array of `" (
          text_append (python.class_name spec.base_type)
            (text_append "` objects, URL-encoded." (item_limit spec.max_length))));
  }

  unfoldable pub available : Option (List Scalar) → Option String
  unfolding comma_separated
  available none = none
  available (some choices) =
      some (text_append "\nAvailable choices: " (comma_separated (map python.str_scalar choices)))

  -- The schema of a base class with the bounds and the lengths of a spec.
  unfoldable pub bounded_schema : FilterSpec → Schema
  unfolding to_number base_schema
  bounded_schema spec = record (base_schema (class_of spec.base_type)) {
    exclusive_minimum = map_option to_number spec.bounds.gt;
    minimum = map_option to_number spec.bounds.gte;
    exclusive_maximum = map_option to_number spec.bounds.lt;
    maximum = map_option to_number spec.bounds.lte;
    min_length = spec.min_length;
    max_length = spec.max_length;
  }

  abbrev pub single_schema : BaseType → FilterSpec → Schema
  single_schema (enum_type enum) spec = enum_schema (python.enum_values enum)
  single_schema base spec = record (bounded_schema spec) { enum = enum_of spec.choices }

  -- `_schema_for_spec`, by the lookup of the spec.
  unfoldable pub schema_for_spec : FilterLookup → FilterSpec → Schema
  unfolding json_schema bounded_schema enum_schema available enum_of
  schema_for_spec json spec = json_schema spec
  schema_for_spec range spec = record (schema_of openapi_string none) {
    examples = some (range_examples spec.base_type);
  }
  schema_for_spec is_in spec = record (bounded_schema spec) { description = available spec.choices }
  schema_for_spec lookup spec = single_schema spec.base_type spec

  -- `_schema_for_plain`
  unfoldable pub schema_for_plain : Annotation → Schema
  unfolding enum_schema unwrap base_schema
  schema_for_plain annotation = elim (unwrap annotation) [
    | enum_class values ↦ enum_schema values
    | base ↦ base_schema base
  ]
