-- ===== src/Orm/Queries.antt =====
-- data_access/orm/base/base_orm_repository.py: the queries that every repository inherits. What a
-- statement finds is a parameter, since neither the table nor SQLAlchemy is code of this repository.
pub mod Counts
pub mod Pages
use api_template.Base.{
  ℕ, ◌+◌, ◌≤◌, ◌≡◌, String, str_eq, Bool, true, false, not, ◌&&◌, Option, none, some, List, [], ◌∷◌,
  ◌++◌, map, any, length, ◌==◌, ltb, if◌then◌else◌,
}
use api_template.Kernel.Errors.{key_error, value_error, attribute_error, Outcome, returned, raised}
use api_template.Kernel.Outcomes.{◌>>=◌, each}
use api_template.Filtering.Values.{Value, null, scalar, sequence}
use api_template.Filtering.Compiler.Classes.{Columns, listed_text, is_empty_list, Container}
use api_template.Filtering.Compiler.{is_empty_value, is_null}
use api_template.Orm.Ordering.{Direction, asc, desc, OrderingItem}

-- `select(model).where(...)`, with its order, its options, its limit and its offset.
pub record Statement (Condition Options : Type 0) : Type 0 where
  pub conditions : List Condition
  pub order_by : List OrderingItem
  pub options : Option Options
  pub limit : Option ℕ
  pub offset : ℕ

-- What the database finds for a statement.
pub record Database (Condition Options Row : Type 0) : Type 0 where
  pub execute : Statement Condition Options → List Row
  -- SELECT count(*) FROM (the statement)
  pub count : Statement Condition Options → ℕ
  pub exists : Statement Condition Options → Bool

abbrev pub plain_statement :
    {Condition Options : Type 0} → List Condition → Statement Condition Options
plain_statement conditions = record {
  conditions = conditions;
  order_by = [];
  options = none;
  limit = none;
  offset = 0;
}

-- A keyword argument, by the name of a column.
abbrev pub Argument : Type 0
Argument = String × Value

-- `_parse_ordering`: a field that is no column raises.
unfoldable pub parse_ordering_items :
    (columns : List String) → List OrderingItem → Outcome (List OrderingItem)
parse_ordering_items columns [] = returned []
parse_ordering_items columns (item ∷ items) =
    let rest = parse_ordering_items columns items in
    if listed_text item.field columns
    then (rest >>= λ is. returned (item ∷ is))
    else raised attribute_error

module _ {Condition : Type 0} (sql : Columns Condition) (columns : List String) where
  -- The conditions of `filter_by`: None is skipped, and a name that is no column raises.
  unfoldable pub equal_conditions : List Argument → Outcome (List Condition)
  equal_conditions [] = returned []
  equal_conditions ((key, value) ∷ arguments) =
      let rest = equal_conditions arguments in
      if is_null value
      then rest
      else if listed_text key columns
      then (rest >>= λ cs. returned (sql.equal key value ∷ cs))
      else raised key_error

  -- The conditions of `parse_to_statement`: arguments that are not true are skipped.
  unfoldable pub true_conditions :
      (String → Value → Condition) → List Argument → Outcome (List Condition)
  unfolding is_empty_value
  true_conditions make [] = returned []
  true_conditions make ((key, value) ∷ arguments) =
      let rest = true_conditions make arguments in
      if is_empty_value value
      then rest
      else if listed_text key columns
      then (rest >>= λ cs. returned (make key value ∷ cs))
      else raised attribute_error

  -- `_parse_search`
  unfoldable pub parse_search : List Argument → Outcome (List Condition)
  unfolding true_conditions
  parse_search text = true_conditions (λ key value. sql.ilike key "%" value "%") text

module _ {Condition Options : Type 0} (sql : Columns Condition) (columns : List String) where
  abbrev sliced_by :
      List Condition → (limit offset : ℕ) → Option Options → Statement Condition Options
  sliced_by conditions limit offset none = plain_statement conditions
  sliced_by conditions limit offset (some options) = record (plain_statement conditions) {
    options = some options;
    limit = some limit;
    offset = offset;
  }

  abbrev nonempty_statement :
      (limit offset : ℕ) → Option Options → List Condition → Outcome (Statement Condition Options)
  nonempty_statement limit offset options [] = raised value_error
  nonempty_statement limit offset options (c ∷ cs) =
      returned (sliced_by (c ∷ cs) limit offset options)

  -- The statement of `filter_by`, which has a limit and an offset only where it has options.
  unfoldable pub filter_by :
      (offset limit : ℕ) → Option Options → List Argument → Outcome (Statement Condition Options)
  unfolding equal_conditions
  filter_by offset limit options arguments =
      equal_conditions sql columns arguments >>= nonempty_statement limit offset options

  abbrev statement_of : List Condition → Option (Statement Condition Options)
  statement_of [] = none
  statement_of (c ∷ cs) = some (plain_statement (c ∷ cs))

  unfoldable pub parse_to_statement :
      (text filters : List Argument) → Outcome (Option (Statement Condition Options))
  unfolding true_conditions parse_search
  parse_to_statement text filters = do
    fs ← true_conditions sql columns sql.equal filters
    ss ← parse_search sql columns text
    returned (statement_of (fs ++ ss))

  -- `_apply_ordering`
  unfoldable pub apply_ordering :
      Statement Condition Options
      → Option (List OrderingItem)
      → Outcome (Statement Condition Options)
  unfolding parse_ordering_items
  apply_ordering stmt none = returned stmt
  apply_ordering stmt (some []) = returned stmt
  apply_ordering stmt (some (item ∷ items)) = do
    expressions ← parse_ordering_items columns (item ∷ items)
    returned (record stmt { order_by = expressions })

  -- `.limit(limit).offset(offset)` of a statement, which may be None.
  abbrev paged :
      (limit : Option ℕ)
      → (offset : ℕ) → Option (Statement Condition Options)
      → Outcome (Statement Condition Options)
  paged limit offset none = raised attribute_error
  paged limit offset (some stmt) = returned (record stmt { limit = limit; offset = offset })

  -- The statement that `filter` sends.
  unfoldable pub filter_statement :
      (limit : Option ℕ)
      → (offset : ℕ) → (text filters : List Argument) → Outcome (Statement Condition Options)
  unfolding parse_to_statement
  filter_statement limit offset text filters =
      if is_empty_list filters && is_empty_list text
      then returned (record (plain_statement []) { limit = limit; offset = offset })
      else (parse_to_statement text filters >>= paged limit offset)

  module _ {Row : Type 0} (db : Database Condition Options Row) where
    abbrev is_limit : ℕ → Option ℕ → Bool
    is_limit n none = false
    is_limit n (some limit) = n == limit

    -- The count that goes with a page.
    unfoldable pub count_of :
        Statement Condition Options → (limit : Option ℕ) → (offset : ℕ) → (found : ℕ) → ℕ
    count_of stmt limit offset found =
        if is_limit found limit then db.count stmt else if ltb 0 found then offset + found else 0

    -- `filter`: the rows of a page, and where it is asked for a count.
    unfoldable pub filter_rows :
        (limit : Option ℕ)
        → (offset : ℕ) → (text filters : List Argument) → (need_count : Bool)
        → Outcome (List Row × Option ℕ)
    unfolding filter_statement count_of
    filter_rows limit offset text filters need_count =
        filter_statement limit offset text filters >>= λ stmt.
        let rows = db.execute stmt in
        returned
          (rows, if need_count then some (count_of stmt limit offset (length rows)) else none)

    abbrev exists_of : Option (Statement Condition Options) → Bool
    exists_of none = false
    exists_of (some stmt) = db.exists stmt

    unfoldable pub filter_exists : (text filters : List Argument) → Outcome Bool
    unfolding parse_to_statement
    filter_exists text filters =
        parse_to_statement text filters >>= λ stmt. returned (exists_of stmt)
