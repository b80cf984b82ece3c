-- ===== src/Filtering/Litestar/Documented.antt =====
-- litestar_integration.py: that the schema of a filter says what the validator accepts.
use mathlib.Core.Logic.Iff
use api_template.Base.{String, str_eq, if◌then◌else◌, Bool, true, false, Option, none, some, ◌≡◌}
use api_template.Filtering.Values.{
  int, float, decimal, Scalar, number, boolean, text, date, moment, scalar, BaseType, numeric_type,
  boolean_type, date_type, datetime_type, string_type, item_type, enum_type, listed,
}
use api_template.Kernel.Errors.{returned}
use api_template.Filtering.Validator.Checks.{above, below}
use api_template.Filtering.Validator.Constraints.{Given, LengthIn}
use api_template.Filtering.Validator.Verdicts.{Accepts}
use api_template.Filtering.Litestar.OpenApi.{
  Schema, openapi_integer, openapi_number, openapi_boolean, openapi_string, OpenApiType,
}

-- What a scalar is in JSON, where dates and moments are texts of a form.
abbrev IsInteger : Scalar → Type 0
IsInteger (number int n) = Unit
IsInteger a = ⊥

abbrev IsNumber : Scalar → Type 0
IsNumber (number k n) = Unit
IsNumber a = ⊥

abbrev IsBoolean : Scalar → Type 0
IsBoolean (boolean b) = Unit
IsBoolean a = ⊥

abbrev IsText : Scalar → Type 0
IsText (text s) = Unit
IsText a = ⊥

abbrev IsDate : Scalar → Type 0
IsDate (date d) = Unit
IsDate a = ⊥

abbrev IsMoment : Scalar → Type 0
IsMoment (moment t) = Unit
IsMoment a = ⊥

-- The values of a type and a format of OpenAPI.
abbrev pub HasKind : OpenApiType → Option String → Scalar → Type 0
HasKind openapi_integer none a = IsInteger a
HasKind openapi_number none a = IsNumber a
HasKind openapi_boolean none a = IsBoolean a
HasKind openapi_string none a = IsText a
HasKind openapi_string (some form) a =
    if str_eq form "date" then IsDate a else if str_eq form "date-time" then IsMoment a else ⊥
HasKind kind (some form) a = ⊥

-- The values that a base type lets through: any number is one of a decimal or a float.
abbrev pub OfBase : BaseType → Scalar → Type 0
OfBase (numeric_type int) a = IsInteger a
OfBase (numeric_type float) a = IsNumber a
OfBase (numeric_type decimal) a = IsNumber a
OfBase boolean_type a = IsBoolean a
OfBase string_type a = IsText a
OfBase date_type a = IsDate a
OfBase datetime_type a = IsMoment a
OfBase item_type a = ⊥
OfBase (enum_type enum) a = ⊥

-- Neither the model of an item nor an enumeration.
abbrev pub is_plain : BaseType → Bool
is_plain item_type = false
is_plain (enum_type enum) = false
is_plain base = true

-- What a schema says of a value besides its type: above its exclusive minimum, not below its
-- minimum, below its exclusive maximum, not above its maximum, of a length in its limits, and in its
-- enumeration.
abbrev pub InLimits : Schema → Scalar → Type 0
InLimits s a =
    (Given (λ x. above (scalar a) x ≡ returned true) s.exclusive_minimum
      × (Given (λ x. below (scalar a) x ≡ returned false) s.minimum
          × (Given (λ x. below (scalar a) x ≡ returned true) s.exclusive_maximum
              × Given (λ x. above (scalar a) x ≡ returned false) s.maximum)))
    × (LengthIn s.min_length s.max_length (scalar a)
        × Given (λ values. listed a values ≡ true) s.enum)

abbrev pub Meets : Schema → Scalar → Type 0
Meets s a = HasKind s.kind s.format a × InLimits s a
