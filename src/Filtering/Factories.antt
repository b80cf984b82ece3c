-- ===== src/Filtering/Factories.antt =====
-- modules/filtering/types.py: the factories of `FilterSpec`.
pub mod Refused
use api_template.Base.{
  ℕ, String, Bool, true, false, ◌||◌, Option, none, some, List, [], ◌∷◌, if◌then◌else◌,
}
use api_template.Kernel.Errors.{runtime_error, Outcome, returned, raised}
use api_template.Kernel.Outcomes.{◌>>=◌}
use api_template.Filtering.Values.{
  ℤ, Scalar, text, BaseType, boolean_type, date_type, datetime_type, string_type, enum_type,
}
use api_template.Filtering.Specs.{
  FilterLookup, eq, range, json, Bounds, FilterSpec, default_spec, is_collection_lookup,
  ensure_scalar_lookup, Choices, values, enumeration, tuple_from_enum, parse_choices,
  decimal_bounds,
}

-- What every factory takes, but that `boolean` and `collection` take no field.
pub record Options : Type 0 where
  pub field : Option String
  pub required : Bool
  pub description : Option String

abbrev pub spec_with : BaseType → FilterLookup → Options → FilterSpec
spec_with base_type lookup o = record (default_spec base_type) {
  lookup = lookup;
  field = o.field;
  required = o.required;
  description = o.description;
}

-- `if choices` of an argument that may be None, an empty tuple, or an enumeration, which is true.
unfoldable pub given : Option Choices → Bool
given none = false
given (some (values [])) = false
given (some (values (x ∷ xs))) = true
given (some (enumeration enum members)) = true

-- A date or a moment, with its bounds as they are.
unfoldable pub date : Options → FilterLookup → Bounds → Outcome FilterSpec
unfolding ensure_scalar_lookup
date o lookup bounds = do
  _ ← ensure_scalar_lookup lookup
  returned (record (spec_with date_type lookup o) { bounds = bounds })

unfoldable pub datetime : Options → FilterLookup → Bounds → Outcome FilterSpec
unfolding ensure_scalar_lookup
datetime o lookup bounds = do
  _ ← ensure_scalar_lookup lookup
  returned (record (spec_with datetime_type lookup o) { bounds = bounds })

-- `required or both_required`
abbrev range_spec : BaseType → Options → (both_required : Bool) → Bounds → FilterSpec
range_spec base_type o both_required bounds = record (spec_with base_type range o) {
  required = o.required || both_required;
  both_required = both_required;
  bounds = bounds;
}

unfoldable pub date_range : Options → (both_required : Bool) → Bounds → FilterSpec
date_range o both_required bounds = range_spec date_type o both_required bounds

unfoldable pub datetime_range : Options → (both_required : Bool) → Bounds → FilterSpec
datetime_range o both_required bounds = range_spec datetime_type o both_required bounds

unfoldable pub boolean : (required : Bool) → (description : Option String) → FilterSpec
boolean required description = record (default_spec boolean_type) {
  required = required;
  choices = some (text "true" ∷ text "false" ∷ []);
  description = description;
}

unfoldable pub json_spec : BaseType → Options → (max_length : Option ℕ) → FilterSpec
json_spec base_type o max_length = record (spec_with base_type json o) { max_length = max_length }

module _ (read_decimal : String → Option ℤ) where
  unfoldable pub numeric :
      BaseType → Options → FilterLookup → Bounds → Option Choices → Outcome FilterSpec
  unfolding ensure_scalar_lookup
  numeric base_type o lookup bounds choices = do
    _ ← ensure_scalar_lookup lookup
    bs ← decimal_bounds read_decimal bounds
    cs ← parse_choices read_decimal choices
    returned (record (spec_with base_type lookup o) { bounds = bs; choices = cs })

  unfoldable pub string :
      Options → (min_length max_length : Option ℕ) → Option Choices → Outcome FilterSpec
  string o min_length max_length choices = do
    cs ← parse_choices read_decimal choices
    returned (record (spec_with string_type eq o) {
      min_length = min_length;
      max_length = max_length;
      choices = cs;
    })

  -- The members that `choices` leaves of an enumeration: all of them where none are given.
  unfoldable pub enum_choices : String → List ℤ → Option Choices → Outcome (Option (List Scalar))
  unfolding given
  enum_choices enum_name members choices =
      if given choices
      then parse_choices read_decimal choices
      else returned (some (tuple_from_enum enum_name members))

  unfoldable pub enum : String → List ℤ → Options → Option Choices → Outcome FilterSpec
  unfolding enum_choices
  enum enum_name members o choices = do
    cs ← enum_choices enum_name members choices
    returned (record (spec_with (enum_type enum_name) eq o) { choices = cs })

  unfoldable pub numeric_range :
      BaseType → Options → (both_required : Bool) → Bounds → Outcome FilterSpec
  numeric_range base_type o both_required bounds = do
    bs ← decimal_bounds read_decimal bounds
    returned (range_spec base_type o both_required bs)

  -- The choices are parsed, and then replaced: the base type is a class, never an instance of Enum.
  collection_choices : Option Choices → Outcome (Option (List Scalar))
  unfolding given
  collection_choices choices = do
    _ ← if given choices then parse_choices read_decimal choices else returned none
    returned none

  unfoldable pub collection :
      BaseType
      → FilterLookup
      → (required : Bool) → (description : Option String) → Option Choices
      → (unique : Bool) → Outcome FilterSpec
  unfolding collection_choices is_collection_lookup
  collection base_type lookup required description choices unique =
      if is_collection_lookup lookup
      then (collection_choices choices >>= λ cs. returned (record (default_spec base_type) {
        lookup = lookup;
        required = required;
        description = description;
        choices = cs;
        unique = unique;
      }))
      else raised runtime_error
