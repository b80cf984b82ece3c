-- ===== src/Filtering/Validator/Typed.antt =====
-- A validation of values and bounds of one kind never ends in a TypeError.
use api_template.Base.{
  ◌≢◌, refl, Bool, true, false, not, ◌&&◌, ◌||◌, Option, none, some, List, [], ◌∷◌, All, any, all,
  is_none, inr, length, if◌then◌else◌,
}
use api_template.Kernel.Errors.{type_error, returned}
use api_template.Filtering.Values.{Scalar, Value, null, scalar, sequence, is_instance}
use api_template.Filtering.Specs.{
  FilterLookup, eq, gt, lt, gte, lte, is_in, range, search, json, FilterSpec,
}
use api_template.Filtering.Validator.Details.{Detail}
use api_template.Filtering.Validator.Constraints.{Given}
use api_template.Filtering.Validator.Checks.{len_of, length_details, validate_length}
use api_template.Filtering.Validator.{
  Verdict, rejected, failed, absent, scalar_details, validate_scalar, range_details, validate_ends,
  validate_range, present, member_details, collection_details, validate_members,
  validate_collection, validate_json, by_lookup, validate,
}
use api_template.Filtering.Validator.Ends.{
  BoundsOf, Ends, IsOf, Kind, LimitsOf, ValueOf, bounds-Ends, choices-Ends, conclude-Ends,
  endpoint-Ends, extend-Ends, length-Ends, measured-Ends, order-Ends,
}

guarded :
    (b : Bool) (x y : Verdict)
    → x ≢ failed type_error
    → y ≢ failed type_error
    → (if b then x else y) ≢ failed type_error
guarded true x y p q = p
guarded false x y p q = q

not_rejected : (ds : List Detail) → rejected ds ≢ failed type_error
not_rejected ds h = cc

not_absent : (spec : FilterSpec) → absent spec ≢ failed type_error
unfolding absent
not_absent spec = guarded spec.required _ _ (not_rejected _) (λ h. cc)

ends-typed :
    (k : Kind) (spec : FilterSpec) (low high : Option Scalar)
    → BoundsOf k spec.bounds
    → Given (IsOf k) low
    → Given (IsOf k) high
    → validate_ends spec low high ≢ failed type_error
unfolding validate_ends range_details
ends-typed k spec low high h p q =
    guarded (is_none low && is_none high) _ _ (λ e. cc)
      (guarded ((is_none low || is_none high) && spec.both_required) _ _ (not_rejected _) (
        conclude-Ends _ (
          extend-Ends _ _ (order-Ends k spec low high p q)
            (extend-Ends _ _ (endpoint-Ends k spec low h p) (endpoint-Ends k spec high h q)))))

range-typed :
    (k : Kind) (spec : FilterSpec) (v : Value)
    → BoundsOf k spec.bounds
    → ValueOf k range v
    → validate_range spec v ≢ failed type_error
unfolding validate_range
range-typed k spec null h of = not_absent spec
range-typed k spec (scalar a) h of = not_rejected _
range-typed k spec (sequence []) h of = not_rejected _
range-typed k spec (sequence (low ∷ [])) h of = not_rejected _
range-typed k spec (sequence (low ∷ high ∷ [])) h of = ends-typed k spec low high h of.0 of.1.0
range-typed k spec (sequence (low ∷ high ∷ x ∷ xs)) h of = not_rejected _

scalar-typed :
    (k : Kind) (spec : FilterSpec) (v : Value)
    → BoundsOf k spec.bounds
    → LimitsOf k spec.min_length spec.max_length
    → ValueOf k eq v
    → validate_scalar spec v ≢ failed type_error
unfolding validate_scalar scalar_details
scalar-typed k spec null h l of = not_absent spec
scalar-typed k spec (sequence xs) h l of = elim of [ ]
scalar-typed k spec (scalar a) h l of = conclude-Ends _ (
    extend-Ends _ _ (bounds-Ends k spec a h of)
      (extend-Ends _ _ (length-Ends k spec a l of) (choices-Ends spec (scalar a))))

present-IsOf :
    (k : Kind) (xs : List (Option Scalar)) → All (Given (IsOf k)) xs → All (IsOf k) (present xs)
unfolding present
present-IsOf k [] h = tt
present-IsOf k (none ∷ xs) h = present-IsOf k xs h.1
present-IsOf k (some a ∷ xs) h = (h.0, present-IsOf k xs h.1)

members-Ends :
    (k : Kind) (spec : FilterSpec) (xs : List Scalar)
    → BoundsOf k spec.bounds
    → All (IsOf k) xs
    → Ends (member_details spec xs)
unfolding member_details
members-Ends k spec [] h of = ([], refl)
members-Ends k spec (a ∷ xs) h of =
    extend-Ends _ _ (endpoint-Ends k spec (some a) h of.0) (members-Ends k spec xs h of.1)

collection-typed :
    (k : Kind) (spec : FilterSpec) (v : Value)
    → BoundsOf k spec.bounds
    → ValueOf k is_in v
    → validate_collection spec v ≢ failed type_error
unfolding validate_collection validate_members collection_details
collection-typed k spec null h of = not_absent spec
collection-typed k spec (scalar a) h of = not_rejected _
collection-typed k spec (sequence xs) h of = guarded (all is_none xs) _ _ (not_absent spec) (
    guarded (any is_none xs) _ _ (not_rejected _) (
      guarded (any (λ a. not (is_instance a spec.base_type)) (present xs)) _ _ (not_rejected _) (
        conclude-Ends _
          (extend-Ends _ _ (members-Ends k spec (present xs) h (present-IsOf k xs of)) (_, refl)))))

items-Ends :
    (spec : FilterSpec) (xs : List (Option Scalar)) → Ends (validate_length spec (sequence xs))
unfolding validate_length len_of
items-Ends spec xs =
    measured-Ends spec.min_length spec.max_length (returned (length xs)) (length_details spec)
      (inr (length xs, refl))

json-typed : (spec : FilterSpec) (v : Value) → validate_json spec v ≢ failed type_error
unfolding validate_json
json-typed spec null = not_absent spec
json-typed spec (scalar a) = not_rejected _
json-typed spec (sequence []) = not_absent spec
json-typed spec (sequence (x ∷ xs)) = conclude-Ends _ (items-Ends spec (x ∷ xs))

by_lookup-typed :
    (k : Kind) (lookup : FilterLookup) (spec : FilterSpec) (v : Value)
    → BoundsOf k spec.bounds
    → LimitsOf k spec.min_length spec.max_length
    → ValueOf k lookup v
    → by_lookup lookup spec v ≢ failed type_error
unfolding by_lookup
by_lookup-typed k eq spec v h l of = scalar-typed k spec v h l of
by_lookup-typed k range spec v h l of = range-typed k spec v h of
by_lookup-typed k is_in spec v h l of = collection-typed k spec v h of
by_lookup-typed k json spec v h l of = json-typed spec v
by_lookup-typed k gt spec v h l of = λ e. cc
by_lookup-typed k gte spec v h l of = λ e. cc
by_lookup-typed k lt spec v h l of = λ e. cc
by_lookup-typed k lte spec v h l of = λ e. cc
by_lookup-typed k search spec v h l of = λ e. cc

-- Where the bounds of a spec are all numbers, all texts, all dates or all moments, the value or its
-- parts are of the same kind (for a scalar filter it is no sequence), and only texts have limits
-- on their length, the validator never ends in a TypeError.
pub validate-typed :
    (k : Kind) (spec : FilterSpec) (v : Value)
    → BoundsOf k spec.bounds
    → LimitsOf k spec.min_length spec.max_length
    → ValueOf k spec.lookup v
    → validate spec v ≢ failed type_error
unfolding validate
validate-typed k spec v h l of =
    guarded (is_none spec.field) _ _ (λ e. cc) (by_lookup-typed k spec.lookup spec v h l of)
