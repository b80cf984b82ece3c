-- ===== src/Filtering/Compiler/Rows.antt =====
-- The rows that the conditions of validated filters select, where no handler takes their place. What
-- a condition means to the database is documented there, and is given here as laws.
use api_template.Base.{
  String, Bool, true, false, ◌&&◌, ◌||◌, Option, none, some, List, [], ◌∷◌, ◌≡◌, refl, ◌↔◌,
}
use api_template.Kernel.Errors.{Outcome, returned}
use api_template.Filtering.Values.{Scalar, Value, null, scalar, sequence, less, same, listed}
use api_template.Filtering.Specs.{
  FilterLookup, eq, gt, lt, gte, lte, is_in, range, search, json, FilterSpec,
}
use api_template.Filtering.Validator.{present}
use api_template.Filtering.Validator.Accepts.{AcceptsEnds}
use api_template.Filtering.Validator.Verdicts.{Accepts}
use api_template.Filtering.Compiler.Classes.{Container, Columns}
use api_template.Filtering.Compiler.{may_be_empty, is_null, is_empty_value, range_of_ends, generic}

-- A cell that is not NULL and of which `P` holds.
abbrev pub Cell : (Scalar → Type 0) → Option Scalar → Type 0
Cell P none = ⊥
Cell P (some x) = P x

-- The meaning of the conditions on the rows of a table. NULL is selected by none of them.
pub record Rows {Condition : Type 0} (sql : Columns Condition) (Row : Type 0) : Type 0 where
  pub cell : Row → (column : String) → Option Scalar
  pub selects : Condition → Row → Bool
  pub equal_lem :
      (column : String) (a : Scalar) (row : Row)
      → (selects (sql.equal column (scalar a)) row ≡ true)
        ↔ Cell (λ x. same x a ≡ true) (cell row column)
  pub between_lem :
      (column : String) (low high : Scalar) (row : Row)
      → (selects (sql.between column low high) row ≡ true)
        ↔ Cell
            (λ x. (less x low ≡ returned false) × (less high x ≡ returned false))
            (cell row column)
  pub at_least_lem :
      (column : String) (a : Scalar) (row : Row)
      → (selects (sql.at_least column (scalar a)) row ≡ true)
        ↔ Cell (λ x. less x a ≡ returned false) (cell row column)
  pub at_most_lem :
      (column : String) (a : Scalar) (row : Row)
      → (selects (sql.at_most column (scalar a)) row ≡ true)
        ↔ Cell (λ x. less a x ≡ returned false) (cell row column)
  pub one_of_lem :
      (column : String) (xs : List (Option Scalar)) (row : Row)
      → (selects (sql.one_of column (sequence xs)) row ≡ true)
        ↔ Cell (λ x. listed x (present xs) ≡ true) (cell row column)

-- What a filter asks of the value of a row: to be the one given, between the ends given, or one of
-- those given.
abbrev pub Between : Option Scalar → Option Scalar → Scalar → Type 0
Between none none x = ⊥
Between (some low) none x = less x low ≡ returned false
Between none (some high) x = less high x ≡ returned false
Between (some low) (some high) x = (less x low ≡ returned false) × (less high x ≡ returned false)

abbrev pub Asks : FilterLookup → Value → Scalar → Type 0
Asks eq (scalar a) x = same x a ≡ true
Asks range (sequence (low ∷ high ∷ [])) x = Between low high x
Asks is_in (sequence xs) x = listed x (present xs) ≡ true
Asks lookup v x = ⊥

abbrev pub OneGiven : Option Scalar → Option Scalar → Type 0
OneGiven none none = ⊥
OneGiven (some low) high = Unit
OneGiven none (some high) = Unit

-- A value of a shape that its lookup has.
abbrev pub Shaped : FilterLookup → Value → Type 0
Shaped eq (scalar a) = Unit
Shaped eq null = ⊥
Shaped eq (sequence xs) = ⊥
Shaped range (sequence (low ∷ high ∷ [])) = OneGiven low high
Shaped range (sequence []) = ⊥
Shaped range (sequence (low ∷ [])) = ⊥
Shaped range (sequence (low ∷ high ∷ x ∷ xs)) = ⊥
Shaped range null = ⊥
Shaped range (scalar a) = ⊥
Shaped is_in (sequence xs) = Unit
Shaped is_in null = ⊥
Shaped is_in (scalar a) = ⊥
Shaped gt v = ⊥
Shaped gte v = ⊥
Shaped lt v = ⊥
Shaped lte v = ⊥
Shaped search v = ⊥
Shaped json v = ⊥

-- A lookup that the column compiles, and for an equation no sequence, which the type of a scalar
-- filter does not let through.
abbrev pub Coerced : FilterLookup → Value → Type 0
Coerced eq null = Unit
Coerced eq (scalar a) = Unit
Coerced eq (sequence xs) = ⊥
Coerced range v = Unit
Coerced is_in v = Unit
Coerced gt v = ⊥
Coerced gte v = ⊥
Coerced lt v = ⊥
Coerced lte v = ⊥
Coerced search v = ⊥
Coerced json v = ⊥

given_ends :
    (spec : FilterSpec) (low high : Option Scalar) → AcceptsEnds spec low high → OneGiven low high
given_ends spec none none h = h
given_ends spec (some low) none h = tt
given_ends spec (some low) (some high) h = tt
given_ends spec none (some high) h = tt

-- An accepted value that is not absent has the shape.
pub accepted-Shaped :
    (lookup : FilterLookup) (spec : FilterSpec) (v : Value)
    → Accepts lookup spec v
    → Coerced lookup v
    → (is_null v || may_be_empty lookup && is_empty_value v) ≡ false
    → Shaped lookup v
accepted-Shaped eq spec null h c p = cc
accepted-Shaped eq spec (scalar a) h c p = tt
accepted-Shaped eq spec (sequence xs) h c p = c
accepted-Shaped range spec null h c p = cc
accepted-Shaped range spec (scalar a) h c p = h
accepted-Shaped range spec (sequence []) h c p = h
accepted-Shaped range spec (sequence (low ∷ [])) h c p = h
accepted-Shaped range spec (sequence (low ∷ high ∷ [])) h c p = given_ends spec low high h
accepted-Shaped range spec (sequence (low ∷ high ∷ x ∷ xs)) h c p = h
accepted-Shaped is_in spec null h c p = cc
accepted-Shaped is_in spec (scalar a) h c p = h
accepted-Shaped is_in spec (sequence xs) h c p = tt
accepted-Shaped gt spec v h c p = h
accepted-Shaped gte spec v h c p = h
accepted-Shaped lt spec v h c p = h
accepted-Shaped lte spec v h c p = h
accepted-Shaped search spec v h c p = h
accepted-Shaped json spec v h c p = elim c [ ]

pub under_lookup :
    (L lookup : FilterLookup) (spec : FilterSpec) (v : Value)
    → L ≡ lookup
    → Accepts L spec v
    → Accepts lookup spec v
under_lookup L lookup spec v e h = rw (← e) h

module _ {Condition Row : Type 0} (sql : Columns Condition) (rows : Rows sql Row) where
  open rows use {cell, selects}

  -- A condition that selects just the rows whose cell is as `P` says.
  abbrev pub Selecting : Outcome Condition → String → (Scalar → Type 0) → Type 0
  Selecting r field P =
      (k : Condition) × (r ≡ returned k)
      × ((row : Row) → (selects k row ≡ true) ↔ Cell P (cell row field))

  ends_select :
      (field : String) (low high : Option Scalar)
      → Shaped range (sequence (low ∷ high ∷ []))
      → Selecting (range_of_ends sql field low high) field (Between low high)
  unfolding range_of_ends
  ends_select field none none h = elim h [ ]
  ends_select field (some low) none h =
      (sql.at_least field (scalar low), refl, rows.at_least_lem field low)
  ends_select field none (some high) h =
      (sql.at_most field (scalar high), refl, rows.at_most_lem field high)
  ends_select field (some low) (some high) h =
      (sql.between field low high, refl, rows.between_lem field low high)

  pub generic_selects :
      (lookup : FilterLookup) (field : String) (v : Value)
      → Shaped lookup v
      → Selecting (generic sql lookup field v) field (Asks lookup v)
  unfolding generic
  generic_selects eq field null h = elim h [ ]
  generic_selects eq field (scalar a) h = (sql.equal field (scalar a), refl, rows.equal_lem field a)
  generic_selects eq field (sequence xs) h = elim h [ ]
  generic_selects range field null h = elim h [ ]
  generic_selects range field (scalar a) h = elim h [ ]
  generic_selects range field (sequence []) h = elim h [ ]
  generic_selects range field (sequence (low ∷ [])) h = elim h [ ]
  generic_selects range field (sequence (low ∷ high ∷ [])) h = ends_select field low high h
  generic_selects range field (sequence (low ∷ high ∷ x ∷ xs)) h = elim h [ ]
  generic_selects is_in field null h = elim h [ ]
  generic_selects is_in field (scalar a) h = elim h [ ]
  generic_selects is_in field (sequence xs) h =
      (sql.one_of field (sequence xs), refl, rows.one_of_lem field xs)
  generic_selects gt field v h = elim h [ ]
  generic_selects gte field v h = elim h [ ]
  generic_selects lt field v h = elim h [ ]
  generic_selects lte field v h = elim h [ ]
  generic_selects search field v h = elim h [ ]
  generic_selects json field v h = elim h [ ]

  -- What a container asks of a row: nothing, if it is absent.
  abbrev pub Constrains : Bool → Container → Row → Type 0
  Constrains true c row = Unit
  Constrains false c row = Cell (Asks c.lookup c.value) (cell row c.field)
