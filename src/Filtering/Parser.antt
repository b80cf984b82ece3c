-- ===== src/Filtering/Parser.antt =====
-- modules/filtering/parser.py: the validated fields of a query object as containers for the compiler.
use api_template.Base.{String, Option, none, some, List, [], ◌∷◌, ◌++◌, if◌then◌else◌}
use api_template.Kernel.Texts.{before_separator, is_empty}
use api_template.Filtering.Values.{Value, null, scalar, sequence}
use api_template.Filtering.Specs.{FilterContainer, FilterSpec}

-- What stands in the annotation of a field: a spec, an injector that carries one, or anything else.
pub data Metadata : Type 0 where
  bare : FilterSpec → Metadata
  injector : FilterSpec → Metadata
  unrelated : Metadata

-- A field of a query object, with its annotation and its value.
pub record QueryField : Type 0 where
  pub name : String
  pub metadata : List Metadata
  pub value : Value

abbrev pub field_lookup_separator : String
field_lookup_separator = "__"

unfoldable pub extract_spec : List Metadata → Option FilterSpec
extract_spec [] = none
extract_spec (bare spec ∷ rest) = some spec
extract_spec (injector spec ∷ rest) = some spec
extract_spec (unrelated ∷ rest) = extract_spec rest

-- `spec.field or name.split("__")[0]`
unfoldable pub field_name : Option String → String → String
unfolding before_separator is_empty
field_name none name = before_separator field_lookup_separator name
field_name (some field) name =
    if is_empty field then before_separator field_lookup_separator name else field

-- The container of a field with a spec, unless its value is None.
unfoldable pub contain : QueryField → Option FilterSpec → Value → List (FilterContainer Value)
unfolding field_name
contain f none value = []
contain f (some spec) null = []
contain f (some spec) (scalar a) =
    record { value = scalar a; lookup = spec.lookup; field = field_name spec.field f.name } ∷ []
contain f (some spec) (sequence xs) =
    record { value = sequence xs; lookup = spec.lookup; field = field_name spec.field f.name } ∷ []

unfoldable pub parse_filters : List QueryField → List (FilterContainer Value)
unfolding extract_spec contain
parse_filters [] = []
parse_filters (f ∷ fs) = contain f (extract_spec f.metadata) f.value ++ parse_filters fs
