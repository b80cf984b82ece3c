-- ===== src/Filtering/Compiler/Classes.antt =====
-- data_access/orm/adapters/filter_compilers.py: a compiler class, the check of its scopes when it is
-- declared, and which handler a container is resolved to.
use api_template.Base.{
  String, text_append, str_eq, starts_with, Bool, true, false, not, Option, none, some, List, [],
  ◌∷◌, ◌++◌, any, filter, if◌then◌else◌,
}
use api_template.Kernel.Errors.{type_error, runtime_error, Outcome, returned, raised}
use api_template.Filtering.Values.{Scalar, Value}
use api_template.Filtering.Specs.{
  FilterLookup, eq, gt, lt, gte, lte, is_in, range, search, json, FilterContainer,
}

abbrev pub Container : Type 0
Container = FilterContainer Value

-- What a column makes of a value: `column == value` and so on.
pub record Columns (Condition : Type 0) : Type 0 where
  pub equal : (column : String) → Value → Condition
  pub between : (column : String) → (low high : Scalar) → Condition
  pub at_least : (column : String) → Value → Condition
  pub at_most : (column : String) → Value → Condition
  pub more : (column : String) → Value → Condition
  pub fewer : (column : String) → Value → Condition
  pub one_of : (column : String) → Value → Condition
  pub ilike : (column : String) → (before : String) → Value → (after : String) → Condition

-- The rest of the `meta` bag, which the overrides alone read.
pub record Handler (Condition Meta : Type 0) : Type 0 where
  pub name : String
  pub accepts_meta : Bool
  pub call : Container → Option Meta → Outcome Condition

-- A compiler class for a model with these columns.
pub record CompilerClass (Condition Meta : Type 0) : Type 0 where
  pub scopes : List String
  pub scoped_fields : List String
  pub handlers : List (Handler Condition Meta)
  pub columns : List String

abbrev pub lookup_text : FilterLookup → String
lookup_text eq = "eq"
lookup_text gt = "gt"
lookup_text lt = "lt"
lookup_text gte = "gte"
lookup_text lte = "lte"
lookup_text is_in = "in"
lookup_text range = "rn"
lookup_text search = "search"
lookup_text json = "json"

abbrev pub listed_text : String → List String → Bool
listed_text s names = any (str_eq s) names

-- `f"{field}__{lookup}"`
unfoldable pub suffix_of : Container → String
suffix_of c = text_append c.field (text_append "__" (lookup_text c.lookup))

unfoldable pub unscoped_name : Container → String
unfolding suffix_of
unscoped_name c = text_append "compile_" (suffix_of c)

-- `f"{scope}__{field}__"`
unfoldable pub scope_prefix : (scope field : String) → String
scope_prefix scope field = text_append scope (text_append "__" (text_append field "__"))

unfoldable pub scoped_name : (scope : String) → Container → String
unfolding suffix_of
scoped_name scope c = text_append "compile_" (text_append scope (text_append "__" (suffix_of c)))

abbrev pub checked : List String → Outcome (Unit {0})
checked [] = returned tt
checked (x ∷ xs) = raised type_error

-- `not xs`
abbrev pub is_empty_list {ℓ} : {A : Type ℓ} → List A → Bool
is_empty_list [] = true
is_empty_list (x ∷ xs) = false

module _ {Condition Meta : Type 0} where
  -- `getattr(self, name, None)`
  unfoldable pub handler_named :
      String → List (Handler Condition Meta) → Option (Handler Condition Meta)
  handler_named name [] = none
  handler_named name (h ∷ hs) = if str_eq h.name name then some h else handler_named name hs

  -- Whether a scope has a handler for a field, whatever the lookup.
  unfoldable pub covers : List (Handler Condition Meta) → (scope field : String) → Bool
  unfolding scope_prefix
  covers handlers scope field =
      any (λ h. starts_with h.name (text_append "compile_" (scope_prefix scope field))) handlers

  -- The scopes that have no handler for a field; and those of each of the fields.
  unfoldable pub missing_scopes : CompilerClass Condition Meta → String → List String → List String
  unfolding covers
  missing_scopes cls field scopes = filter (λ scope. not (covers cls.handlers scope field)) scopes

  unfoldable pub missing : CompilerClass Condition Meta → List String → List String
  unfolding missing_scopes
  missing cls [] = []
  missing cls (field ∷ fields) = missing_scopes cls field cls.scopes ++ missing cls fields

  -- `__init_subclass__`
  unfoldable pub init_subclass : CompilerClass Condition Meta → Outcome (Unit {0})
  unfolding missing
  init_subclass cls =
      if is_empty_list cls.scoped_fields
      then returned tt
      else if is_empty_list cls.scopes
      then raised type_error
      else checked (missing cls cls.scoped_fields)

  -- What follows where no scoped handler is found.
  unfoldable pub resolve_unscoped :
      CompilerClass Condition Meta → Container → Outcome (Option (Handler Condition Meta))
  unfolding handler_named unscoped_name
  resolve_unscoped cls c =
      if listed_text c.field cls.scoped_fields
      then raised runtime_error
      else returned (handler_named (unscoped_name c) cls.handlers)

  unfoldable pub scoped_or_else :
      Option (Handler Condition Meta)
      → Outcome (Option (Handler Condition Meta))
      → Outcome (Option (Handler Condition Meta))
  scoped_or_else (some h) rest = returned (some h)
  scoped_or_else none rest = rest

  -- `_resolve`
  unfoldable pub resolve :
      CompilerClass Condition Meta
      → Container
      → (scope : Option String) → Outcome (Option (Handler Condition Meta))
  unfolding handler_named scoped_name resolve_unscoped scoped_or_else
  resolve cls c none = resolve_unscoped cls c
  resolve cls c (some scope) =
      scoped_or_else (handler_named (scoped_name scope c) cls.handlers) (resolve_unscoped cls c)

  -- A handler gets the bag only where it takes one; an empty bag is not passed on.
  unfoldable pub call_handler : Handler Condition Meta → Container → Option Meta → Outcome Condition
  call_handler h c none = h.call c none
  call_handler h c (some meta) = h.call c (if h.accepts_meta then some meta else none)

  abbrev pub called :
      Outcome (Option (Handler Condition Meta))
      → Container
      → Option Meta
      → Outcome Condition
      → Outcome Condition
  called (raised e) c meta rest = raised e
  called (returned (some h)) c meta rest = call_handler h c meta
  called (returned none) c meta rest = rest
