-- ===== src/Filtering/Compiler.antt =====
-- data_access/orm/adapters/filter_compilers.py: containers as conditions on the rows of a table.
-- SQLAlchemy's columns are not code of this repository: what builds a condition is a parameter.
pub mod Classes
pub mod Scopes
pub mod Rows
pub mod Compiled
use api_template.Base.{
  ℕ, String, text_append, str_eq, starts_with, Bool, true, false, not, ◌&&◌, ◌||◌, Option, none,
  some, List, [], ◌∷◌, ◌++◌, map, any, filter, is_none, ◌==◌, if◌then◌else◌, ◌≡◌, ◌↔◌,
}
use api_template.Kernel.Errors.{
  type_error, value_error, runtime_error, attribute_error, Outcome, returned, raised,
}
use api_template.Kernel.Outcomes.{◌>>=◌, each}
use api_template.Filtering.Values.{
  Scalar, pos, negsuc, number, boolean, member, text, date, moment, item, Value, null, scalar,
  sequence,
}
use api_template.Kernel.Texts.{is_empty}
use api_template.Filtering.Specs.{
  FilterLookup, eq, gt, lt, gte, lte, is_in, range, search, json, FilterContainer,
}
use api_template.Filtering.Compiler.Classes.{
  Container, Columns, Handler, CompilerClass, lookup_text, listed_text, is_empty_list, resolve,
  call_handler, called,
}

-- `not a`
unfoldable pub is_false : Scalar → Bool
is_false (number k (pos n)) = n == 0
is_false (number k (negsuc n)) = false
is_false (boolean b) = not b
is_false (member enum (pos n)) = n == 0
is_false (member enum (negsuc n)) = false
is_false (text s) = is_empty s
is_false (date d) = false
is_false (moment t) = false
is_false (item i) = false

unfoldable pub is_empty_value : Value → Bool
unfolding is_false is_empty
is_empty_value null = true
is_empty_value (scalar a) = is_false a
is_empty_value (sequence xs) = is_empty_list xs

abbrev pub is_null : Value → Bool
is_null null = true
is_null (scalar a) = false
is_null (sequence xs) = false

-- The lookups of which an empty value is no constraint.
abbrev pub may_be_empty : FilterLookup → Bool
may_be_empty json = true
may_be_empty is_in = true
may_be_empty lookup = false

-- A container with no constraint.
unfoldable pub is_absent : Container → Bool
unfolding is_empty_value
is_absent c = is_null c.value || may_be_empty c.lookup && is_empty_value c.value

unfoldable pub known_scope : List String → Option String → Bool
known_scope scopes none = true
known_scope scopes (some scope) = listed_text scope scopes

module _ {Condition : Type 0} (sql : Columns Condition) where
  unfoldable pub range_of_ends : (column : String) → (low high : Option Scalar) → Outcome Condition
  range_of_ends column (some low) (some high) = returned (sql.between column low high)
  range_of_ends column (some low) none = returned (sql.at_least column (scalar low))
  range_of_ends column none (some high) = returned (sql.at_most column (scalar high))
  range_of_ends column none none = raised runtime_error

  -- `low, high = value`: also a text of two characters has two parts.
  unfoldable pub range_of_scalar : (column : String) → Scalar → Outcome Condition
  unfolding range_of_ends
  range_of_scalar column (text (String.◌∷◌ a (String.◌∷◌ b String.[]))) =
      range_of_ends column (some (text (String.◌∷◌ a String.[])))
        (some (text (String.◌∷◌ b String.[])))
  range_of_scalar column (text s) = raised value_error
  range_of_scalar column a = raised type_error

  unfoldable pub compile_range : (column : String) → Value → Outcome Condition
  unfolding range_of_ends range_of_scalar
  compile_range column null = raised type_error
  compile_range column (scalar a) = range_of_scalar column a
  compile_range column (sequence (low ∷ high ∷ [])) = range_of_ends column low high
  compile_range column (sequence []) = raised value_error
  compile_range column (sequence (low ∷ [])) = raised value_error
  compile_range column (sequence (low ∷ high ∷ x ∷ xs)) = raised value_error

  -- The generic path, by the lookup, with the column of the field's name.
  unfoldable pub generic : FilterLookup → (column : String) → Value → Outcome Condition
  unfolding compile_range
  generic eq column value = returned (sql.equal column value)
  generic range column value = compile_range column value
  generic is_in column value = returned (sql.one_of column value)
  generic gt column value = returned (sql.more column value)
  generic lt column value = returned (sql.fewer column value)
  generic gte column value = returned (sql.at_least column value)
  generic lte column value = returned (sql.at_most column value)
  generic search column value = raised runtime_error
  generic json column value = raised runtime_error

  -- `compile_search__eq`, which every compiler has unless it defines its own.
  unfoldable pub compile_search : {Meta : Type 0} → (columns : List String) → Handler Condition Meta
  compile_search columns = record {
    name = "compile_search__eq";
    accepts_meta = false;
    call = λ c meta.
        if listed_text "name" columns
        then returned (sql.ilike "name" "" c.value "%")
        else raised attribute_error;
  }

module _ {Condition Meta : Type 0} (sql : Columns Condition) where
  unfoldable pub generic_for :
      CompilerClass Condition Meta → FilterLookup → Container → Outcome Condition
  unfolding generic
  generic_for cls json c = raised runtime_error
  generic_for cls lookup c =
      if listed_text c.field cls.columns
      then generic sql lookup c.field c.value
      else raised runtime_error

  -- `_compile`
  unfoldable pub compile_one :
      CompilerClass Condition Meta
      → Option Meta
      → (scope : Option String) → Container
      → Outcome Condition
  unfolding resolve call_handler generic_for
  compile_one cls meta scope c = called (resolve cls c scope) c meta (generic_for cls c.lookup c)

  -- `compile`, with the scope taken out of the bag.
  unfoldable pub compile :
      CompilerClass Condition Meta
      → Option Meta
      → (scope : Option String) → List Container
      → Outcome (List Condition)
  unfolding is_absent compile_one known_scope
  compile cls meta scope containers =
      if known_scope cls.scopes scope
      then each (compile_one cls meta scope) (filter (λ c. not (is_absent c)) containers)
      else raised runtime_error
