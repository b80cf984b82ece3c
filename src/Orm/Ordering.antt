-- ===== src/Orm/Ordering.antt =====
-- shared_kernel/params/ordering.py and query_mixins.py: the ordering that a list route is asked for.
-- The regular expression of an ordering is a parameter, since the library that matches it is not
-- code of this repository.
pub mod Written
use Prim.Native.Char.{code}
use api_template.Base.{
  String, str_eq, starts_with, Bool, true, false, ◌==◌, ◌&&◌, Option, none, some, List, [], ◌∷◌,
  any, all, map, char_count, leb, filter, if◌then◌else◌,
}
use api_template.Kernel.Errors.{value_error, Outcome, returned, raised}
use api_template.Kernel.Outcomes.{◌>>=◌}
use api_template.Kernel.Texts.{is_empty, split_comma, lstrip_dash, strip}

pub data Direction : Type 0 where
  asc desc : Direction

pub record OrderingItem : Type 0 where
  pub direction : Direction
  pub field : String

-- `part.startswith("-")`
unfoldable pub direction_of : String → Direction
direction_of String.[] = asc
direction_of (String.◌∷◌ c s) = if code c == b'-' then desc else asc

unfoldable pub ordering_item : String → OrderingItem
unfolding direction_of lstrip_dash
ordering_item part = record { direction = direction_of part; field = lstrip_dash part }

-- `OrderingContainer.from_str`: the items of the container, or None for an empty text.
unfoldable pub from_str : String → Option (List OrderingItem)
unfolding ordering_item split_comma is_empty
from_str v = if is_empty v then none else some (map ordering_item (split_comma v))

-- The schema of a query parameter: stripped, of 100 characters at most, matching the expression.
unfoldable pub parse_ordering :
    (matches : String → Bool) → String → Outcome (Option (List OrderingItem))
unfolding from_str strip
parse_ordering matches v =
    if leb (char_count (strip v)) 100 && matches (strip v)
    then returned (from_str (strip v))
    else raised value_error

-- The fields that are asked for and not allowed.
unfoldable pub unexpected_fields : (allowed : List String) → List OrderingItem → List String
unexpected_fields allowed [] = []
unexpected_fields allowed (item ∷ items) =
    let rest = unexpected_fields allowed items in
    if any (str_eq item.field) allowed then rest else item.field ∷ rest

abbrev pub refuse_any : List String → Outcome (Unit {0})
refuse_any [] = returned tt
refuse_any (x ∷ xs) = raised value_error

-- `OrderingQueryMixin.validate_ordering`
unfoldable pub validate_ordering :
    (allowed : List String) → Option (List OrderingItem) → Outcome (Unit {0})
unfolding unexpected_fields
validate_ordering allowed none = returned tt
validate_ordering allowed (some items) = refuse_any (unexpected_fields allowed items)
