-- ===== src/Sql.antt =====
-- What the repositories rely on in the database: the statements that they send to PostgreSQL
-- through SQLAlchemy, on the rows of one table that the transaction sees. Neither is code of this
-- repository, so a table is a parameter with the documented meaning of each statement as a law.
-- A row is matched by a Boolean test, which stands for the WHERE clause.
pub mod Memory
pub mod Laws
use api_template.Base.{
  ℕ, ◌≤◌, ◌≡◌, ◌≢◌, Bool, true, Option, none, some, List, [], ◌∷◌, ◌++◌, map, filter, length, All,
  if◌then◌else◌, ◌⊎◌,
}

-- `r` is listed in `t`.
abbrev pub Has : {A : Type 0} → A → List A → Type 0
Has r [] = ⊥
Has r (x ∷ t) = (x ≡ r) ⊎ Has r t

pub record Table (Row : Type 0) : Type 0 where
  -- SELECT ... WHERE
  pub select : (Row → Bool) → List Row → List Row
  -- SELECT ... WHERE ... ORDER BY key DESC LIMIT 1: which of several newest rows is left open
  pub newest : (Row → ℕ) → (Row → Bool) → List Row → Option Row
  -- UPDATE ... SET ... WHERE, and the number of rows that it matches
  pub update : (Row → Bool) → (Row → Row) → List Row → List Row
  pub rowcount : (Row → Bool) → List Row → ℕ
  -- INSERT
  pub insert : Row → List Row → List Row
  pub select_lem : (p : Row → Bool) (t : List Row) → select p t ≡ filter p t
  pub newest_none :
      (k : Row → ℕ) (p : Row → Bool) (t : List Row) → filter p t ≡ [] → newest k p t ≡ none
  pub newest_some :
      (k : Row → ℕ) (p : Row → Bool) (t : List Row)
      → filter p t ≢ []
      → (r : Row) × (newest k p t ≡ some r)
  pub newest_match :
      (k : Row → ℕ) (p : Row → Bool) (t : List Row) (r : Row)
      → newest k p t ≡ some r
      → (p r ≡ true) × Has r t × All (λ x. k x ≤ k r) (filter p t)
  pub update_lem :
      (p : Row → Bool) (f : Row → Row) (t : List Row)
      → update p f t ≡ map (λ r. if p r then f r else r) t
  pub rowcount_lem : (p : Row → Bool) (t : List Row) → rowcount p t ≡ length (filter p t)
  pub insert_lem : (r : Row) (t : List Row) → insert r t ≡ t ++ r ∷ []
