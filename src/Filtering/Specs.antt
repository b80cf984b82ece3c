-- ===== src/Filtering/Specs.antt =====
-- modules/filtering/enums.py and types.py: the lookups, what a filter declares, and its factories.
-- How `Decimal` reads a text is a parameter, since that is not code of this repository.
use api_template.Base.{ℕ, String, Bool, true, false, Option, none, some, List, map, if◌then◌else◌}
use api_template.Kernel.Errors.{
  type_error, value_error, invalid_operation, Outcome, returned, raised,
}
use api_template.Kernel.Outcomes.{◌>>=◌, each}
use api_template.Filtering.Values.{
  ℤ, decimal, Scalar, number, boolean, member, text, date, moment, item, truth, BaseType,
}

pub data FilterLookup : Type 0 where
  eq gt lt gte lte is_in range search json : FilterLookup

-- What a validated filter hands to the compiler.
pub record FilterContainer (V : Type 0) : Type 0 where
  pub value : V
  pub lookup : FilterLookup
  pub field : String

-- The bounds of numbers and dates.
pub record Bounds : Type 0 where
  pub gt : Option Scalar
  pub gte : Option Scalar
  pub lt : Option Scalar
  pub lte : Option Scalar

pub record FilterSpec : Type 0 where
  pub base_type : BaseType
  pub lookup : FilterLookup
  pub field : Option String
  pub required : Bool
  pub both_required : Bool
  pub bounds : Bounds
  pub min_length : Option ℕ
  pub max_length : Option ℕ
  pub choices : Option (List Scalar)
  pub description : Option String
  pub unique : Bool

abbrev pub no_bounds : Bounds
no_bounds = record { gt = none; gte = none; lt = none; lte = none }

-- The constructor's defaults.
abbrev pub default_spec : BaseType → FilterSpec
default_spec base_type = record {
  base_type = base_type;
  lookup = eq;
  field = none;
  required = false;
  both_required = false;
  bounds = no_bounds;
  min_length = none;
  max_length = none;
  choices = none;
  description = none;
  unique = true;
}

unfoldable pub is_scalar_lookup : FilterLookup → Bool
is_scalar_lookup eq = true
is_scalar_lookup gt = true
is_scalar_lookup lt = true
is_scalar_lookup gte = true
is_scalar_lookup lte = true
is_scalar_lookup is_in = false
is_scalar_lookup range = false
is_scalar_lookup search = false
is_scalar_lookup json = false

unfoldable pub is_collection_lookup : FilterLookup → Bool
is_collection_lookup is_in = true
is_collection_lookup other = false

unfoldable pub ensure_scalar_lookup : FilterLookup → Outcome (Unit {0})
unfolding is_scalar_lookup
ensure_scalar_lookup lookup = if is_scalar_lookup lookup then returned tt else raised value_error

-- `choices`: a tuple of values, or an enumeration with the numbers of its members.
pub data Choices : Type 0 where
  values : List Scalar → Choices
  enumeration : (enum : String) → (members : List ℤ) → Choices

unfoldable pub tuple_from_enum : String → List ℤ → List Scalar
tuple_from_enum enum members = map (member enum) members

module _ (read_decimal : String → Option ℤ) where
  decimal_of_text : Option ℤ → Outcome Scalar
  decimal_of_text (some n) = returned (number decimal n)
  decimal_of_text none = raised invalid_operation

  -- `Decimal(value)`
  unfoldable pub as_decimal : Scalar → Outcome Scalar
  unfolding decimal_of_text
  as_decimal (number k n) = returned (number decimal n)
  as_decimal (boolean b) = returned (number decimal (truth b))
  as_decimal (member enum n) = returned (number decimal n)
  as_decimal (text s) = decimal_of_text (read_decimal s)
  as_decimal (date d) = raised type_error
  as_decimal (moment t) = raised type_error
  as_decimal (item i) = raised type_error

  unfoldable pub to_decimal : Option Scalar → Outcome (Option Scalar)
  unfolding as_decimal
  to_decimal none = returned none
  to_decimal (some value) = do d ← as_decimal value; returned (some d)

  unfoldable pub parse_choices : Option Choices → Outcome (Option (List Scalar))
  unfolding as_decimal tuple_from_enum
  parse_choices none = returned none
  parse_choices (some (enumeration enum members)) = returned (some (tuple_from_enum enum members))
  parse_choices (some (values xs)) = do ds ← each as_decimal xs; returned (some ds)

  -- The four bounds of a numeric filter, in the order in which they are converted.
  unfoldable pub decimal_bounds : Bounds → Outcome Bounds
  unfolding to_decimal
  decimal_bounds b = do
    above ← to_decimal b.gt
    at_least ← to_decimal b.gte
    below ← to_decimal b.lt
    at_most ← to_decimal b.lte
    returned (record { gt = above; gte = at_least; lt = below; lte = at_most })
