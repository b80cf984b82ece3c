-- ===== src/Orm/Queries/Counts.antt =====
-- The count that `filter` gives with a page.
use api_template.Base.{
  ℕ, ◌+◌, ◌-◌, ◌<◌, min, ◌≡◌, refl, ap, sym, ◌∙◌, String, true, ◌&&◌, Option, none, some, List, [],
  length, ◌==◌, ltb, leb, arith, Bool-cases, inl, inr, if◌then◌else◌,
}
use api_template.Kernel.Errors.{returned}
use api_template.Kernel.Outcomes.{bind-returned}
use api_template.Filtering.Compiler.Classes.{Columns, is_empty_list}
use api_template.Orm.Queries.{
  Statement, Database, Argument, plain_statement, parse_to_statement, paged, filter_statement,
  count_of, filter_rows,
}

module _ {Condition Options Row : Type 0} (db : Database Condition Options Row) where
  -- How many rows match, whatever the page.
  abbrev pub total : Statement Condition Options → ℕ
  total stmt = length (db.execute (record stmt { limit = none; offset = 0 }))

  -- What LIMIT, OFFSET and count(*) do to the number of rows.
  pub record Paging : Type 0 where
    pub limit_lem :
        (stmt : Statement Condition Options) (limit : ℕ)
        → stmt.limit ≡ some limit
        → length (db.execute stmt) ≡ min limit (total stmt - stmt.offset)
    pub count_lem : (stmt : Statement Condition Options) → db.count stmt ≡ length (db.execute stmt)

-- What is counted where so many rows match: nothing behind the last row, the rows of a full page,
-- and all that match otherwise.
abbrev pub counted : (limit offset matching : ℕ) → ℕ
counted limit offset matching =
    if leb matching offset then 0 else if leb (offset + limit) matching then limit else matching

counted_lem :
    (limit offset matching found : ℕ)
    → found ≡ min limit (matching - offset)
    → 0 < limit
    → (if found == limit then found else if ltb 0 found then offset + found else 0)
      ≡ counted limit offset matching
counted_lem limit offset matching found h p = ground arith

module _ {Condition Options : Type 0} (sql : Columns Condition) (columns : List String) where
  paged_lem :
      (limit : Option ℕ) (offset : ℕ) (found : Option (Statement Condition Options))
      (stmt : Statement Condition Options)
      → paged sql columns limit offset found ≡ returned stmt
      → (stmt.limit ≡ limit) × (stmt.offset ≡ offset)
  paged_lem limit offset none stmt h = absurd (cc)
  paged_lem limit offset (some s) stmt h =
      let e : record s { limit = limit; offset = offset } ≡ stmt = cc in
      (
        sym (ap (λ (x : Statement Condition Options). x.limit) e),
        sym (ap (λ (x : Statement Condition Options). x.offset) e),
      )

  filter_statement_lem :
      (limit : Option ℕ) (offset : ℕ) (text filters : List Argument)
      (stmt : Statement Condition Options)
      → filter_statement sql columns limit offset text filters ≡ returned stmt
      → (stmt.limit ≡ limit) × (stmt.offset ≡ offset)
  unfolding filter_statement
  filter_statement_lem limit offset text filters stmt h =
      elim (Bool-cases (is_empty_list filters && is_empty_list text)) [
        | inl whole ↦ paged_lem limit offset (some (plain_statement [])) stmt (rw whole at h)
        | inr some_given ↦
            let found =
              bind-returned (parse_to_statement sql columns text filters)
                (paged sql columns limit offset) stmt (rw some_given at h) in
            paged_lem limit offset (found.0) stmt (found.2)
      ]

  module _ {Row : Type 0} (db : Database Condition Options Row) (laws : Paging db) where
    count_of_lem :
        (stmt : Statement Condition Options) (limit offset : ℕ)
        → 0 < limit
        → stmt.limit ≡ some limit
        → stmt.offset ≡ offset
        → count_of sql columns db stmt (some limit) offset (length (db.execute stmt))
          ≡ counted limit offset (total db stmt)
    unfolding count_of
    count_of_lem stmt limit offset p l o =
        let page : length (db.execute stmt) ≡ min limit (total db stmt - offset) =
          laws.limit_lem stmt limit l ∙ ap (λ k. min limit (total db stmt - k)) o in
        ap
          (λ n.
            if length (db.execute stmt) == limit
            then n
            else if ltb 0 (length (db.execute stmt))
            then offset + length (db.execute stmt)
            else 0)
          (laws.count_lem stmt)
        ∙ counted_lem limit offset (total db stmt) (length (db.execute stmt)) page p

    -- Where a count is asked for, with a limit of one row at least, it is the number of all rows
    -- that match if the page begins before the last of them and is not full; of a full page it is
    -- the limit, whatever the offset and however many rows match; and where the page begins behind
    -- the last row it is 0.
    pub filter_rows-counted :
        (limit offset : ℕ) (text filters : List Argument) (stmt : Statement Condition Options)
        → 0 < limit
        → filter_statement sql columns (some limit) offset text filters ≡ returned stmt
        → filter_rows sql columns db (some limit) offset text filters true
          ≡ returned (db.execute stmt, some (counted limit offset (total db stmt)))
    unfolding filter_rows
    filter_rows-counted limit offset text filters stmt p sent =
        let parts = filter_statement_lem (some limit) offset text filters stmt sent in
        rw (sent, count_of_lem stmt limit offset p parts.0 parts.1) refl
