-- ===== src/Filtering/Validator.antt =====
-- modules/filtering/validator.py: the values of a filter against its declaration.
pub mod Details
pub mod Checks
pub mod Constraints
pub mod Accepts
pub mod Members
pub mod Verdicts
pub mod Ends
pub mod Typed
use api_template.Base.{
  ℕ, String, Bool, true, false, not, ◌||◌, ◌&&◌, Option, none, some, List, [], ◌∷◌, ◌++◌, any, all,
  is_none, length, ltb, if◌then◌else◌,
}
use api_template.Kernel.Errors.{
  Exn, type_error, value_error, runtime_error, Outcome, returned, raised,
}
use api_template.Kernel.Outcomes.{◌>>=◌}
use api_template.Filtering.Values.{
  Scalar, Value, null, scalar, sequence, less, negated, listed, size, is_instance,
}
use api_template.Filtering.Specs.{
  FilterLookup, eq, gt, lt, gte, lte, is_in, range, search, json, Bounds, FilterSpec,
}
use api_template.Filtering.Validator.Details.{
  BoundName, by_gt, by_gte, by_lt, by_lte, Detail, required_detail, invalid_value_detail,
  bound_detail, range_order_detail, length_detail, choices_detail, duplicate_detail,
}
use api_template.Filtering.Validator.Checks.{
  extend, validate_bound, above, below, validate_bounds, len_of, too_short, too_long,
  validate_length, is_choice, choices_of, validate_choices,
}

-- How a validation ends: it returns, it raises an AppException with these details, or another
-- exception.
pub data Verdict : Type 0 where
  accepted : Verdict
  rejected : List Detail → Verdict
  failed : Exn → Verdict

-- `if details: raise AppException.from_details(details)`
unfoldable pub conclude : Outcome (List Detail) → Verdict
conclude (returned []) = accepted
conclude (returned (d ∷ ds)) = rejected (d ∷ ds)
conclude (raised e) = failed e

-- An absent value.
unfoldable pub absent : FilterSpec → Verdict
absent spec = if spec.required then rejected (required_detail spec ∷ []) else accepted

-- `_validate_scalar` of a value that is not None
unfoldable pub scalar_details : FilterSpec → Value → Outcome (List Detail)
unfolding validate_bounds validate_length validate_choices extend
scalar_details spec value =
    extend (validate_bounds spec value)
      (extend (validate_length spec value) (validate_choices spec value))

unfoldable pub validate_scalar : FilterSpec → Value → Verdict
unfolding absent conclude scalar_details
validate_scalar spec null = absent spec
validate_scalar spec (scalar a) = conclude (scalar_details spec (scalar a))
validate_scalar spec (sequence xs) = conclude (scalar_details spec (sequence xs))

-- Two ends that are both given, in the wrong order.
unfoldable pub order_details : FilterSpec → Option Scalar → Option Scalar → Outcome (List Detail)
order_details spec (some low) (some high) = do
  wrong ← less high low
  returned (if wrong then range_order_detail spec low high ∷ [] else [])
order_details spec (some low) none = returned []
order_details spec none high = returned []

unfoldable pub endpoint_details : FilterSpec → Option Scalar → Outcome (List Detail)
unfolding validate_bounds validate_choices extend
endpoint_details spec none = returned []
endpoint_details spec (some a) =
    extend (validate_bounds spec (scalar a)) (validate_choices spec (scalar a))

unfoldable pub range_details : FilterSpec → Option Scalar → Option Scalar → Outcome (List Detail)
unfolding order_details endpoint_details extend
range_details spec low high =
    extend (order_details spec low high)
      (extend (endpoint_details spec low) (endpoint_details spec high))

unfoldable pub validate_ends : FilterSpec → Option Scalar → Option Scalar → Verdict
unfolding range_details conclude
validate_ends spec low high =
    if is_none low && is_none high
    then failed value_error
    else if (is_none low || is_none high) && spec.both_required
    then rejected (required_detail spec ∷ [])
    else conclude (range_details spec low high)

unfoldable pub validate_range : FilterSpec → Value → Verdict
unfolding absent validate_ends
validate_range spec null = absent spec
validate_range spec (scalar a) = rejected (invalid_value_detail spec ∷ [])
validate_range spec (sequence (low ∷ high ∷ [])) = validate_ends spec low high
validate_range spec (sequence []) = rejected (invalid_value_detail spec ∷ [])
validate_range spec (sequence (low ∷ [])) = rejected (invalid_value_detail spec ∷ [])
validate_range spec (sequence (low ∷ high ∷ x ∷ xs)) = rejected (invalid_value_detail spec ∷ [])

-- The members of a sequence that are not None.
unfoldable pub present : List (Option Scalar) → List Scalar
present [] = []
present (none ∷ xs) = present xs
present (some a ∷ xs) = a ∷ present xs

unfoldable pub member_details : FilterSpec → List Scalar → Outcome (List Detail)
unfolding endpoint_details extend
member_details spec [] = returned []
member_details spec (a ∷ xs) = extend (endpoint_details spec (some a)) (member_details spec xs)

-- The sets `seen` and `duplicates` after the loop; the latter alone is read.
unfoldable pub duplicates : (seen found : List Scalar) → List Scalar → List Scalar
unfolding listed
duplicates seen found [] = found
duplicates seen found (a ∷ xs) =
    let again = duplicates seen (if listed a found then found else found ++ a ∷ []) xs in
    let first = duplicates (a ∷ seen) found xs in if listed a seen then again else first

abbrev pub duplicate_details : FilterSpec → List Scalar → List Detail
duplicate_details spec [] = []
duplicate_details spec (a ∷ found) = duplicate_detail spec (a ∷ found) ∷ []

unfoldable pub collection_details : FilterSpec → List Scalar → Outcome (List Detail)
unfolding member_details duplicates extend
collection_details spec xs =
    extend (member_details spec xs) (returned (duplicate_details spec (duplicates [] [] xs)))

unfoldable pub validate_members : FilterSpec → List (Option Scalar) → Verdict
unfolding absent collection_details present conclude is_instance
validate_members spec xs =
    if all is_none xs
    then absent spec
    else if any is_none xs
    then rejected (invalid_value_detail spec ∷ [])
    else if any (λ a. not (is_instance a spec.base_type)) (present xs)
    then rejected (invalid_value_detail spec ∷ [])
    else conclude (collection_details spec (present xs))

unfoldable pub validate_collection : FilterSpec → Value → Verdict
unfolding absent validate_members
validate_collection spec null = absent spec
validate_collection spec (scalar a) = rejected (invalid_value_detail spec ∷ [])
validate_collection spec (sequence xs) = validate_members spec xs

unfoldable pub validate_json : FilterSpec → Value → Verdict
unfolding absent conclude validate_length
validate_json spec null = absent spec
validate_json spec (scalar a) = rejected (invalid_value_detail spec ∷ [])
validate_json spec (sequence []) = absent spec
validate_json spec (sequence (x ∷ xs)) = conclude (validate_length spec (sequence (x ∷ xs)))

unfoldable pub by_lookup : FilterLookup → FilterSpec → Value → Verdict
unfolding validate_scalar validate_range validate_collection validate_json
by_lookup eq spec value = validate_scalar spec value
by_lookup range spec value = validate_range spec value
by_lookup is_in spec value = validate_collection spec value
by_lookup json spec value = validate_json spec value
by_lookup gt spec value = failed runtime_error
by_lookup gte spec value = failed runtime_error
by_lookup lt spec value = failed runtime_error
by_lookup lte spec value = failed runtime_error
by_lookup search spec value = failed runtime_error

unfoldable pub validate : FilterSpec → Value → Verdict
unfolding by_lookup
validate spec value =
    if is_none spec.field then failed runtime_error else by_lookup spec.lookup spec value
