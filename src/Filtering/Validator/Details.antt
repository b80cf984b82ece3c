-- ===== src/Filtering/Validator/Details.antt =====
-- modules/filtering/validator.py: the details of a rejected value.
use api_template.Base.{ℕ, String, Option, none, some, List, [], map}
use api_template.Kernel.Errors.{
  required_filter, invalid_value, duplicated, StatusCode, Message, AppExceptionDetail,
}
use api_template.Filtering.Values.{Scalar, number, boolean, member, text, date, moment, item, int}
use api_template.Filtering.Specs.{FilterLookup, FilterSpec}

pub data BoundName : Type 0 where
  by_gt by_gte by_lt by_lte : BoundName

unfoldable pub bound_of : FilterSpec → BoundName → Option Scalar
bound_of spec by_gt = spec.bounds.gt
bound_of spec by_gte = spec.bounds.gte
bound_of spec by_lt = spec.bounds.lt
bound_of spec by_lte = spec.bounds.lte

-- The payloads, by their keys. All but those of a bound and of an order say also that the value is
-- among the query parameters.
pub data Payload : Type 0 where
  lookup_payload : FilterLookup → Payload
  location_payload : Payload
  bound_range : BoundName → Option Scalar → Payload
  order_range : (low high : Scalar) → Payload
  length_range : (min_length max_length : Option ℕ) → Payload
  values_payload : List Scalar → Payload

abbrev pub Detail : Type 0
Detail = AppExceptionDetail Payload

-- `c.value if isinstance(c, Enum) else c`
unfoldable pub plain_choice : Scalar → Scalar
plain_choice (member enum n) = number int n
plain_choice (number k n) = number k n
plain_choice (boolean b) = boolean b
plain_choice (text s) = text s
plain_choice (date d) = date d
plain_choice (moment t) = moment t
plain_choice (item i) = item i

abbrev listed_choices : Option (List Scalar) → List Scalar
listed_choices none = []
listed_choices (some choices) = map plain_choice choices

abbrev detail : StatusCode → String → FilterSpec → Payload → Detail
detail status message spec payload = record {
  status = status;
  message = some (Message.text message);
  field = spec.field;
  payload = payload;
}

unfoldable pub required_detail : FilterSpec → Detail
required_detail spec = detail required_filter "Value is required" spec (lookup_payload spec.lookup)

unfoldable pub invalid_value_detail : FilterSpec → Detail
invalid_value_detail spec = detail invalid_value "Value format is invalid" spec location_payload

unfoldable pub bound_detail : FilterSpec → BoundName → Detail
unfolding bound_of
bound_detail spec name =
    detail invalid_value "Value format is invalid" spec (bound_range name (bound_of spec name))

unfoldable pub range_order_detail : FilterSpec → (low high : Scalar) → Detail
range_order_detail spec low high =
    detail invalid_value "Value format is invalid" spec (order_range low high)

unfoldable pub length_detail : FilterSpec → Detail
length_detail spec =
    detail invalid_value "Value format is invalid" spec
      (length_range spec.min_length spec.max_length)

unfoldable pub choices_detail : FilterSpec → Detail
unfolding plain_choice
choices_detail spec =
    detail invalid_value "Value format is invalid" spec
      (values_payload (listed_choices spec.choices))

unfoldable pub duplicate_detail : FilterSpec → List Scalar → Detail
duplicate_detail spec duplicates =
    detail duplicated "Filter value was duplicated" spec (values_payload duplicates)
