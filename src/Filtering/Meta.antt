-- ===== src/Filtering/Meta.antt =====
-- modules/filtering/meta.py: from what a query carries to a validated value. The schemas of pydantic
-- and the JSON decoder are not code of this repository: what they make of a text is a parameter.
pub mod Split
use api_template.Base.{
  ℕ, String, str_eq, Bool, true, false, Option, none, some, List, [], ◌∷◌, ◌++◌, map, filter, not,
  if◌then◌else◌,
}
use api_template.Kernel.Errors.{Exn, validation_failed, Outcome, returned, raised}
use api_template.Kernel.Outcomes.{◌>>=◌, each}
use api_template.Kernel.Texts.{before_separator, split_comma, strip, is_empty}
use api_template.Filtering.Values.{Scalar, Value, null, scalar, sequence}
use api_template.Filtering.Specs.{
  FilterLookup, eq, gt, lt, gte, lte, is_in, range, search, json, FilterSpec,
}
use api_template.Filtering.Validator.{Verdict, accepted, rejected, failed, validate}
use api_template.Filtering.Parser.{field_lookup_separator, Metadata, bare, injector, unrelated}

-- What a field is given: None, a text of the query string, its parts, or anything else, such as a
-- list of the body.
pub data Raw : Type 0 where
  nothing : Raw
  raw_text : String → Raw
  parts : List (Option String) → Raw
  other : ℕ → Raw

-- `part.strip() or None`
unfoldable pub endpoint_text : String → Option String
unfolding strip is_empty
endpoint_text part = if is_empty (strip part) then none else some (strip part)

abbrev range_parts : String → List String → Raw
range_parts s (low ∷ high ∷ []) = parts (endpoint_text low ∷ endpoint_text high ∷ [])
range_parts s [] = raw_text s
range_parts s (low ∷ []) = raw_text s
range_parts s (low ∷ high ∷ x ∷ xs) = raw_text s

unfoldable pub split_range : Raw → Raw
unfolding split_comma endpoint_text
split_range (raw_text s) = range_parts s (split_comma s)
split_range nothing = nothing
split_range (parts ps) = parts ps
split_range (other n) = other n

unfoldable pub split_collection : Raw → Raw
unfolding split_comma
split_collection (raw_text s) = parts (map some (split_comma s))
split_collection nothing = nothing
split_collection (parts ps) = parts ps
split_collection (other n) = other n

-- What the schemas make of a value, and `json.loads`, which raises a ValueError on a malformed text.
pub record Schemas : Type 0 where
  pub convert : FilterSpec → String → Outcome Scalar
  pub convert_other : FilterSpec → Raw → Outcome Value
  pub loads : String → Option Raw

-- How the pipeline of a field ends: with a value, or refused by a schema or by the validator.
pub data Piped : Type 0 where
  piped : Value → Piped
  not_converted : Exn → Piped
  not_valid : Verdict → Piped

module _ (schemas : Schemas) where
  open schemas use {convert, convert_other, loads}

  abbrev loaded : String → Option Raw → Raw
  loaded s none = raw_text s
  loaded s (some decoded) = decoded

  unfoldable pub parse_json : Raw → Raw
  parse_json (raw_text s) = loaded s (loads s)
  parse_json nothing = nothing
  parse_json (parts ps) = parts ps
  parse_json (other n) = other n

  -- A nullable end or member.
  unfoldable pub convert_part : FilterSpec → Option String → Outcome (Option Scalar)
  convert_part spec none = returned none
  convert_part spec (some s) = do a ← convert spec s; returned (some a)

  -- The schema of a pair: two places, and nothing else.
  unfoldable pub pair_schema : FilterSpec → Raw → Outcome Value
  unfolding convert_part
  pair_schema spec (parts (low ∷ high ∷ [])) = do
    a ← convert_part spec low
    b ← convert_part spec high
    returned (sequence (a ∷ b ∷ []))
  pair_schema spec (parts []) = raised validation_failed
  pair_schema spec (parts (low ∷ [])) = raised validation_failed
  pair_schema spec (parts (low ∷ high ∷ x ∷ xs)) = raised validation_failed
  pair_schema spec nothing = raised validation_failed
  pair_schema spec (raw_text s) = raised validation_failed
  pair_schema spec (other n) = convert_other spec (other n)

  unfoldable pub tuple_schema : FilterSpec → Raw → Outcome Value
  unfolding convert_part
  tuple_schema spec (parts ps) = do xs ← each (convert_part spec) ps; returned (sequence xs)
  tuple_schema spec nothing = raised validation_failed
  tuple_schema spec (raw_text s) = raised validation_failed
  tuple_schema spec (other n) = convert_other spec (other n)

  unfoldable pub scalar_schema : FilterSpec → Raw → Outcome Value
  scalar_schema spec (raw_text s) = do a ← convert spec s; returned (scalar a)
  scalar_schema spec nothing = raised validation_failed
  scalar_schema spec (parts ps) = convert_other spec (parts ps)
  scalar_schema spec (other n) = convert_other spec (other n)

  -- `value_schema`, by the lookup of the spec.
  unfoldable pub value_schema : FilterLookup → FilterSpec → Raw → Outcome Value
  unfolding pair_schema tuple_schema scalar_schema parse_json split_range split_collection
  value_schema range spec raw = pair_schema spec (split_range raw)
  value_schema is_in spec raw = tuple_schema spec (split_collection raw)
  value_schema json spec raw = convert_other spec (parse_json raw)
  value_schema lookup spec raw = scalar_schema spec raw

  abbrev pub judged : Value → Verdict → Piped
  judged value accepted = piped value
  judged value (rejected ds) = not_valid (rejected ds)
  judged value (failed e) = not_valid (failed e)

  abbrev pub chained : FilterSpec → Outcome Value → Piped
  chained spec (returned value) = judged value (validate spec value)
  chained spec (raised e) = not_converted e

  -- `chain_schema`, and `nullable_schema` unless the spec is required.
  unfoldable pub pipeline : FilterSpec → Raw → Piped
  unfolding value_schema validate
  pipeline spec nothing =
      if spec.required then chained spec (value_schema spec.lookup spec nothing) else piped null
  pipeline spec raw = chained spec (value_schema spec.lookup spec raw)

-- An annotation of a query model: a bare spec, `Annotated` with its metadata, or anything else.
pub data Annotation : Type 0 where
  spec_alone : FilterSpec → Annotation
  annotated : List Metadata → Annotation
  plain_type : Annotation

unfoldable pub first_spec : List Metadata → Option FilterSpec
first_spec [] = none
first_spec (bare spec ∷ rest) = some spec
first_spec (injector spec ∷ rest) = first_spec rest
first_spec (unrelated ∷ rest) = first_spec rest

-- `FilterMeta._extract_spec`, which looks for bare specs only.
unfoldable pub declared_spec : Annotation → Option FilterSpec
unfolding first_spec
declared_spec (spec_alone spec) = some spec
declared_spec (annotated metadata) = first_spec metadata
declared_spec plain_type = none

abbrev not_bare : Metadata → Bool
not_bare (bare spec) = false
not_bare (injector spec) = true
not_bare unrelated = true

abbrev other_metadata : Annotation → List Metadata
other_metadata (spec_alone spec) = []
other_metadata (annotated metadata) = filter not_bare metadata
other_metadata plain_type = []

-- A field of the class that `FilterMeta.__new__` makes: its metadata, and whether None is its default.
pub record ModelField : Type 0 where
  pub name : String
  pub metadata : List Metadata
  pub optional : Bool

abbrev named_field : Option String → String → Option String
named_field none name = some (before_separator field_lookup_separator name)
named_field (some field) name = some field

unfoldable pub with_field : FilterSpec → String → FilterSpec
unfolding before_separator
with_field spec name = record spec { field = named_field spec.field name }

unfoldable pub rewritten : String → Annotation → Option FilterSpec → Option ModelField
unfolding with_field
rewritten name annotation none = none
rewritten name annotation (some spec) = some (record {
  name = name;
  metadata = other_metadata annotation ++ injector (with_field spec name) ∷ [];
  optional = not spec.required;
})

-- `FilterMeta.__new__` on one annotation: a field with a spec is rewritten, the others are left.
unfoldable pub meta_field : String → Annotation → Option ModelField
unfolding declared_spec rewritten
meta_field name annotation = rewritten name annotation (declared_spec annotation)
