-- ===== src/Filtering/Validator/Checks.antt =====
-- modules/filtering/validator.py: the checks of one value against the constraints of a spec.
use api_template.Base.{
  ℕ, Bool, false, ◌||◌, ◌&&◌, Option, none, some, List, [], ◌∷◌, ◌++◌, is_none, length, ltb,
  if◌then◌else◌,
}
use api_template.Kernel.Errors.{type_error, Outcome, returned, raised}
use api_template.Kernel.Outcomes.{◌>>=◌}
use api_template.Filtering.Values.{
  Scalar, Value, null, scalar, sequence, less, negated, listed, size,
}
use api_template.Filtering.Specs.{FilterSpec}
use api_template.Filtering.Validator.Details.{
  BoundName, by_gt, by_gte, by_lt, by_lte, Detail, bound_detail, length_detail, choices_detail,
}

-- `details.extend(...)`, where finding the details may raise.
unfoldable pub extend : Outcome (List Detail) → Outcome (List Detail) → Outcome (List Detail)
extend m n = do ds ← m; es ← n; returned (ds ++ es)

-- One bound: its detail where the test of the value against it fails.
unfoldable pub validate_bound :
    FilterSpec → BoundName → (Scalar → Outcome Bool) → Option Scalar → Outcome (List Detail)
validate_bound spec name test none = returned []
validate_bound spec name test (some bound) = do
  holds ← test bound
  returned (if holds then [] else bound_detail spec name ∷ [])

-- `value > bound` and so on; a sequence or None is not ordered with a bound.
abbrev pub above : Value → Scalar → Outcome Bool
above (scalar a) bound = less bound a
above null bound = raised type_error
above (sequence xs) bound = raised type_error

abbrev pub below : Value → Scalar → Outcome Bool
below (scalar a) bound = less a bound
below null bound = raised type_error
below (sequence xs) bound = raised type_error

unfoldable pub validate_bounds : FilterSpec → Value → Outcome (List Detail)
unfolding validate_bound negated extend
validate_bounds spec value = extend (validate_bound spec by_gt (above value) spec.bounds.gt) (
    extend (validate_bound spec by_gte (λ bound. negated (below value bound)) spec.bounds.gte) (
      extend (validate_bound spec by_lt (below value) spec.bounds.lt)
        (validate_bound spec by_lte (λ bound. negated (above value bound)) spec.bounds.lte)))

-- `len(value)`
unfoldable pub len_of : Value → Outcome ℕ
unfolding size
len_of null = raised type_error
len_of (scalar a) = size a
len_of (sequence xs) = returned (length xs)

unfoldable pub too_short : Option ℕ → ℕ → Bool
too_short none n = false
too_short (some least) n = ltb n least

unfoldable pub too_long : Option ℕ → ℕ → Bool
too_long none n = false
too_long (some most) n = ltb most n

abbrev pub length_details : FilterSpec → ℕ → List Detail
length_details spec n =
    if too_short spec.min_length n || too_long spec.max_length n
    then length_detail spec ∷ []
    else []

unfoldable pub validate_length : FilterSpec → Value → Outcome (List Detail)
unfolding len_of too_short too_long
validate_length spec value =
    if is_none spec.min_length && is_none spec.max_length
    then returned []
    else (len_of value >>= λ n. returned (length_details spec n))

unfoldable pub is_choice : Value → List Scalar → Bool
unfolding listed
is_choice (scalar a) choices = listed a choices
is_choice null choices = false
is_choice (sequence xs) choices = false

abbrev pub choices_of : FilterSpec → Value → Option (List Scalar) → List Detail
choices_of spec value none = []
choices_of spec value (some choices) =
    if is_choice value choices then [] else choices_detail spec ∷ []

unfoldable pub validate_choices : FilterSpec → Value → Outcome (List Detail)
unfolding is_choice
validate_choices spec value = returned (choices_of spec value spec.choices)
